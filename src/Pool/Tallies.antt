-- ===== src/Pool/Tallies.antt =====
-- ThreadPool.h: sums over the threads of the pool, and what a signal does to them.
use lzopfs.Base.{
  ℕ, dec_lt, zero, suc, ◌+◌, ◌≤◌, ◌<◌, ◌≡◌, refl, ap, List, [], ◌∷◌, ◌++◌, arith, replicate, ◌*◌,
  length, length-append,
}
use lzopfs.Pool.Threads.{
  Worker, asks, holds, blocked, woken, stopped, works, tally, is_blocked, Signal, nobody, one, wake,
  broadcast,
}

module _ {J : Type 0} where
  tally-append :
      (f : Worker J → ℕ) (a b : List (Worker J)) → tally f (a ++ b) ≡ tally f a + tally f b
  unfolding tally
  tally-append f [] b = ground arith
  tally-append f (w ∷ a) b = ground (arith, tally-append f a b)

  -- What one thread's share of the sum is.
  pub tally-split :
      (f : Worker J → ℕ) {ws : List (Worker J)} (a b : List (Worker J)) (w v : Worker J)
      → ws ≡ a ++ w ∷ b
      → tally f (a ++ v ∷ b) + f w ≡ tally f ws + f v
  unfolding tally
  tally-split f a b w v e =
      ground (arith, tally-append f a (w ∷ b), tally-append f a (v ∷ b), ap (tally f) e)

  pub length-split :
      {ws : List (Worker J)} (a b : List (Worker J)) (w v : Worker J)
      → ws ≡ a ++ w ∷ b
      → length (a ++ v ∷ b) ≡ length ws
  length-split a b w v e =
      ground (arith, length-append a (w ∷ b), length-append a (v ∷ b), ap length e)

  pub tally-replicate :
      (f : Worker J → ℕ) (n : ℕ) (w : Worker J) → tally f (replicate n w) ≡ n * f w
  unfolding tally
  tally-replicate f zero w = ground arith
  tally-replicate f (suc n) w = ground (arith, tally-replicate f n w)

  pub length-broadcast : (ws : List (Worker J)) → length (broadcast ws) ≡ length ws
  unfolding broadcast
  length-broadcast [] = refl
  length-broadcast (w ∷ ws) = ap suc (length-broadcast ws)

  -- A broadcast keeps the sums that do not tell a woken thread from one that waits.
  pub tally-broadcast :
      (f : Worker J → ℕ) (ws : List (Worker J))
      → f woken ≡ f blocked
      → tally f (broadcast ws) ≡ tally f ws
  unfolding broadcast tally wake
  tally-broadcast f [] e = refl
  tally-broadcast f (blocked ∷ ws) e = ground (arith, e, tally-broadcast f ws e)
  tally-broadcast f (asks ∷ ws) e = ap (◌+◌ (f asks)) (tally-broadcast f ws e)
  tally-broadcast f (holds ∷ ws) e = ap (◌+◌ (f holds)) (tally-broadcast f ws e)
  tally-broadcast f (woken ∷ ws) e = ap (◌+◌ (f woken)) (tally-broadcast f ws e)
  tally-broadcast f (stopped ∷ ws) e = ap (◌+◌ (f stopped)) (tally-broadcast f ws e)
  tally-broadcast f (works j ∷ ws) e = ap (◌+◌ (f (works j))) (tally-broadcast f ws e)

  pub blocked-broadcast : (ws : List (Worker J)) → tally is_blocked (broadcast ws) ≡ 0
  unfolding broadcast tally wake is_blocked
  blocked-broadcast [] = refl
  blocked-broadcast (blocked ∷ ws) = ground (arith, blocked-broadcast ws)
  blocked-broadcast (asks ∷ ws) = ground (arith, blocked-broadcast ws)
  blocked-broadcast (holds ∷ ws) = ground (arith, blocked-broadcast ws)
  blocked-broadcast (woken ∷ ws) = ground (arith, blocked-broadcast ws)
  blocked-broadcast (stopped ∷ ws) = ground (arith, blocked-broadcast ws)
  blocked-broadcast (works j ∷ ws) = ground (arith, blocked-broadcast ws)

  -- So does a signal.
  pub tally-Signal :
      (f : Worker J → ℕ) {ws vs : List (Worker J)}
      → f woken ≡ f blocked
      → Signal ws vs
      → tally f vs ≡ tally f ws
  tally-Signal f e (nobody z) = refl
  tally-Signal f e (one a b h) = ground (arith, e, tally-split f a b blocked woken h)

  pub length-Signal : {ws vs : List (Worker J)} → Signal ws vs → length vs ≡ length ws
  length-Signal (nobody z) = refl
  length-Signal (one a b h) = length-split a b blocked woken h

  -- A sum that is not 0 has a thread with a share.
  pub tally-found :
      (f : Worker J → ℕ) (ws : List (Worker J))
      → 0 < tally f ws
      → (a b : List (Worker J)) × (w : Worker J) × (ws ≡ a ++ w ∷ b) × (0 < f w)
  unfolding tally
  tally-found f (w ∷ ws) h = elim (dec_lt 0 (f w)) [
    | yes p ↦ ([], ws, w, refl, p)
    | no q ↦ let (a, b, v, e, p) = tally-found f ws (omega arith) in (w ∷ a, b, v, ap (◌∷◌ w) e, p)
  ]
  tally-found f [] h = absurd (ground (arith, h))

  -- A part of a sum is below it.
  pub tally-le :
      (f g : Worker J → ℕ)
      → ((w : Worker J) → f w ≤ g w)
      → (ws : List (Worker J)) → tally f ws ≤ tally g ws
  unfolding tally
  tally-le f g h [] = ground arith
  tally-le f g h (w ∷ ws) = ground (arith, h w, tally-le f g h ws)

  pub tally-le-length :
      (f : Worker J → ℕ)
      → ((w : Worker J) → f w ≤ 1)
      → (ws : List (Worker J)) → tally f ws ≤ length ws
  unfolding tally
  tally-le-length f h [] = ground arith
  tally-le-length f h (w ∷ ws) = ground (arith, h w, tally-le-length f h ws)
