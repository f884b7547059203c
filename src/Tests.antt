-- ===== src/Tests.antt =====
-- Runs of the model at concrete inputs, and each theorem at an input that meets its hypotheses.
mod Caches
mod Reads
mod Indexes
mod Files
mod Pools
mod Mounts
mod Iterators
mod Tables
mod Streams
mod Gzips
mod Pixzs
mod Zstds
