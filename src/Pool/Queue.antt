-- ===== src/Pool/Queue.antt =====
-- ThreadPool.cc: what each operation on the queue of jobs makes of the pool, read backwards from its
-- result.
use lzopfs.Base.{
  ℕ, ◌+◌, ◌≡◌, refl, ap, List, [], ◌∷◌, ◌++◌, Option, none, some, Bool, true, false, arith, subst,
  replicate, zero, suc, length, ◌≤◌,
}
use lzopfs.Blocks.{ok}
use lzopfs.Pool.{Pool, Turn, sleeps, stops, works, enqueue, next_job}
use lzopfs.Pool.Threads.{queued_jobs}

module _ {J : Type 0} where
  -- The pool with other jobs in its queue.
  abbrev pub with_jobs : Pool J → List (Option J) → Pool J
  with_jobs p js = record p { jobs = js }

  -- What a turn tells of the queue that it leaves from.
  abbrev Told : Pool J → Turn J → Pool J → Type 0
  Told p (works j) q = p ≡ with_jobs q (some j ∷ q.jobs)
  Told p stops q = p ≡ with_jobs q (none ∷ q.jobs)
  Told p sleeps q = (p.jobs ≡ []) × (q ≡ p)

  next_job-Told :
      (js : List (Option J)) (p : Pool J)
      → let p' = with_jobs p js in Told p' (next_job p').0 (next_job p').1
  unfolding next_job
  next_job-Told [] p = (refl, refl)
  next_job-Told (none ∷ js) p = refl
  next_job-Told (some j ∷ js) p = refl

  told : (p : Pool J) {t : Turn J} {q : Pool J} → next_job p ≡ (t, q) → Told p t q
  told p {t} {q} e = subst (λ r. Told p r.0 r.1) e (next_job-Told p.jobs p)

  -- The pool before a worker took the head of its queue.
  pub next_job-works :
      {p q : Pool J} {j : J} → next_job p ≡ (works j, q) → p ≡ with_jobs q (some j ∷ q.jobs)
  next_job-works {p} e = told p e

  pub next_job-stops : {p q : Pool J} → next_job p ≡ (stops, q) → p ≡ with_jobs q (none ∷ q.jobs)
  next_job-stops {p} e = told p e

  pub next_job-sleeps : {p q : Pool J} → next_job p ≡ (sleeps, q) → (p.jobs ≡ []) × (q ≡ p)
  next_job-sleeps {p} e = told p e

  enqueue-ok_at :
      (c : Bool) (p q : Pool J) (j : J)
      → p.cancelling ≡ c
      → enqueue p j ≡ ok q
      → (c ≡ false) × (q ≡ with_jobs p (p.jobs ++ some j ∷ []))
  unfolding enqueue
  enqueue-ok_at true p q j h e = absurd (ground (arith, h, e))
  enqueue-ok_at false p q j h e = (refl, ground (arith, h, e))

  pub enqueue-ok :
      (p : Pool J) (j : J) {q : Pool J}
      → enqueue p j ≡ ok q
      → (p.cancelling ≡ false) × (q ≡ with_jobs p (p.jobs ++ some j ∷ []))
  enqueue-ok p j {q} e = enqueue-ok_at p.cancelling p q j refl e

  -- The requests to stop in a queue.
  unfoldable pub stop_count : List (Option J) → ℕ
  stop_count [] = 0
  stop_count (none ∷ js) = suc (stop_count js)
  stop_count (some j ∷ js) = stop_count js

  pub stop_count-le : (js : List (Option J)) → stop_count js ≤ length js
  unfolding stop_count
  stop_count-le [] = ground arith
  stop_count-le (none ∷ js) = ground (arith, stop_count-le js)
  stop_count-le (some j ∷ js) = ground (arith, stop_count-le js)

  pub stop_count-append_job :
      (js : List (Option J)) (j : J) → stop_count (js ++ some j ∷ []) ≡ stop_count js
  unfolding stop_count
  stop_count-append_job [] j = refl
  stop_count-append_job (none ∷ js) j = ap suc (stop_count-append_job js j)
  stop_count-append_job (some i ∷ js) j = stop_count-append_job js j

  -- A number attached to each job, summed over a list and over the jobs of a queue.
  unfoldable pub sum_of : (J → ℕ) → List J → ℕ
  sum_of f [] = 0
  sum_of f (j ∷ js) = f j + sum_of f js

  pub sum_of-append : (f : J → ℕ) (xs ys : List J) → sum_of f (xs ++ ys) ≡ sum_of f xs + sum_of f ys
  unfolding sum_of
  sum_of-append f [] ys = ground arith
  sum_of-append f (x ∷ xs) ys = ground (arith, sum_of-append f xs ys)

  pub queued_jobs-append_job :
      (js : List (Option J)) (j : J) → queued_jobs (js ++ some j ∷ []) ≡ queued_jobs js ++ j ∷ []
  unfolding queued_jobs
  queued_jobs-append_job [] j = refl
  queued_jobs-append_job (none ∷ js) j = queued_jobs-append_job js j
  queued_jobs-append_job (some i ∷ js) j = ap (◌∷◌ i) (queued_jobs-append_job js j)

  pub queued_jobs-replicate :
      (n : ℕ) → let js : List (Option J) = replicate n none in queued_jobs js ≡ []
  unfolding queued_jobs
  queued_jobs-replicate zero = refl
  queued_jobs-replicate (suc n) = queued_jobs-replicate n

pub stop_count-replicate :
    (J : Type 0) (n : ℕ)
    → let js : List (Option J) = replicate n none in (stop_count js ≡ n) × (length js ≡ n)
unfolding stop_count
stop_count-replicate J zero = (refl, refl)
stop_count-replicate J (suc n) =
    (ap suc (stop_count-replicate J n).0, ap suc (stop_count-replicate J n).1)
