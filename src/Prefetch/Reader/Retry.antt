-- ===== src/Prefetch/Reader/Retry.antt =====
-- pkg/prefetch/prefetch.go: the attempts of `readChunkWithRetries`.
use container_builder_shim.Common.{
  ℕ, zero, suc, ◌+◌, ◌≤◌, ◌<◌, ◌≡◌, true, false, not, ◌&&◌, none, [], arith, ltb,
}
use container_builder_shim.Prefetch.Reader.{
  Flight, ChunkRead, read_chunk_once, accepted, retry_from, read_chunk_with_retries,
}

abbrev pub attempt_read : Flight → ℕ → ChunkRead
attempt_read f k = read_chunk_once (f.answer k)

retry_from-first :
    (f : Flight) (gap left attempt : ℕ) (last : ChunkRead)
    → gap < left
    → ((i : ℕ) → i < attempt + gap → attempt ≤ i → accepted (attempt_read f i).2 ≡ false)
    → ((i : ℕ) → i ≤ attempt + gap → 0 < i → f.wait i ≡ true)
    → accepted (attempt_read f (attempt + gap)).2 ≡ true
    → retry_from f left attempt last ≡ attempt_read f (attempt + gap)
unfolding retry_from
retry_from-first f gap zero attempt last h rejected waits good = absurd (omega arith)
retry_from-first f zero (suc left) attempt last h rejected waits good =
    let e : attempt + zero ≡ attempt = omega arith in
    let w : (ltb 0 attempt && not (f.wait attempt)) ≡ false =
      ground (arith, waits attempt (omega arith)) in
    rw e (rw (w, (rw e at good)))
retry_from-first f (suc gap) (suc left) attempt last h rejected waits good =
    let e : attempt + suc gap ≡ suc attempt + gap = omega arith in
    let w : (ltb 0 attempt && not (f.wait attempt)) ≡ false =
      ground (arith, waits attempt (omega arith)) in
    let again =
      retry_from-first f gap left (suc attempt) (attempt_read f attempt) (omega arith)
        (λ i b a. rejected i (omega arith) (omega arith)) (λ i b a. waits i (omega arith) a)
        (rw e at good) in
    rw e (rw (w, rejected attempt (omega arith) (omega arith)) again)

-- The result is that of the first attempt that ends with no error or with `io.EOF`, if it is among
-- the `max_retries + 1` that are made and the context is not cancelled in between.
pub read_chunk_with_retries-first :
    (f : Flight) (max_retries k : ℕ)
    → k ≤ max_retries
    → ((i : ℕ) → i < k → accepted (attempt_read f i).2 ≡ false)
    → ((i : ℕ) → i ≤ k → 0 < i → f.wait i ≡ true)
    → accepted (attempt_read f k).2 ≡ true
    → read_chunk_with_retries max_retries f ≡ attempt_read f k
unfolding read_chunk_with_retries
read_chunk_with_retries-first f max_retries k h rejected waits good =
    let e : 0 + k ≡ k = omega arith in
    rw e at (
      retry_from-first f k (suc max_retries) 0 ([], 0, none) (omega arith)
        (λ i b a. rejected i (omega arith)) (λ i b a. waits i (omega arith) a) (rw (← e) at good))
