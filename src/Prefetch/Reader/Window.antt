-- ===== src/Prefetch/Reader/Window.antt =====
-- pkg/prefetch/prefetch.go: the configuration, the window and the chunks that are scheduled.
use container_builder_shim.Common.{
  ℕ, zero, suc, ◌+◌, ◌-◌, ◌*◌, ◌/◌, ◌≤◌, ◌<◌, ◌≡◌, refl, List, [], ◌∷◌, arith, length, true, false,
  All, if◌then◌else◌, leb, Bool-cases, inl, inr,
}
use Prim.Native.Nat.{min, max}
use container_builder_shim.Common.Int.{
  pos, pos_part, ltb_ℤ, leb_ℤ, quot, i64_half, +ℤ_small, -ℤ_small,
}
use container_builder_shim.Prefetch.Cache.{has_chunk}
use container_builder_shim.Prefetch.Reader.{
  Config, normalize, Prefetcher, chunk_length, window_end_chunk, rounds, begin_operation,
  schedule_required, read_ahead_from, schedule_read_ahead,
}

-- `New` leaves no size, count or time at zero or below, and a window that holds a chunk; it keeps
-- the retries from being negative.
pub normalize_valid :
    (c : Config)
    → (ltb_ℤ (pos 0) (normalize c).chunk_size ≡ true)
      × (leb_ℤ (normalize c).chunk_size (normalize c).window_size ≡ true)
      × (ltb_ℤ (pos 0) (normalize c).max_parallel_reads ≡ true)
      × (ltb_ℤ (pos 0) (normalize c).read_timeout ≡ true)
      × (ltb_ℤ (pos 0) (normalize c).retry_interval ≡ true)
      × (leb_ℤ (pos 0) (normalize c).max_retries ≡ true)
unfolding normalize
normalize_valid c = ground arith

-- Scheduling starts goroutines, and leaves the cache alone.
pub cache-schedule_required :
    (left index : ℕ) (p : Prefetcher) → (schedule_required left index p).1.cache ≡ p.cache
unfolding schedule_required
cache-schedule_required zero index p = refl
cache-schedule_required (suc left) index p = ground (
  arith,
  cache-schedule_required left (suc index) p,
  cache-schedule_required left (suc index) (begin_operation p).0,
)

pub cache-read_ahead_from :
    (left budget index : ℕ) (p : Prefetcher)
    → (read_ahead_from left budget index p).1.cache ≡ p.cache
unfolding read_ahead_from
cache-read_ahead_from zero budget index p = refl
cache-read_ahead_from (suc left) budget index p = ground (
  arith,
  cache-read_ahead_from left budget (suc index) p,
  cache-read_ahead_from left (budget - 1) (suc index) (begin_operation p).0,
)

-- Indices from `low` up to `low + count`, none of them cached.
abbrev pub AllBetween : ℕ → ℕ → List ℕ → Type 0
AllBetween low high = All (λ index. (low ≤ index) × (index < high))

between_widen :
    (low low' high high' : ℕ) (xs : List ℕ)
    → low ≤ low'
    → high' ≤ high
    → AllBetween low' high' xs
    → AllBetween low high xs
between_widen low low' high high' [] h l k = tt
between_widen low low' high high' (x ∷ xs) h l ((a, b), ks) =
    ((omega arith, omega arith), between_widen low low' high high' xs h l ks)

-- At most `budget` indices of the range that the cache lacks, each registered as an operation.
abbrev pub Planned : ℕ → ℕ → ℕ → Prefetcher → List ℕ × Prefetcher → Type 0
Planned low high budget p (indices, q) =
    (length indices ≤ budget)
    × AllBetween low high indices
    × All (λ i. has_chunk p.cache i ≡ false) indices
    × (q.operations ≡ p.operations + length indices)

begin_operation_open :
    (p : Prefetcher)
    → p.closed ≡ false
    → begin_operation p ≡ (record p { operations = suc p.operations }, true)
unfolding begin_operation
begin_operation_open p h = rw h

begin_operation_closed : (p : Prefetcher) → p.closed ≡ true → begin_operation p ≡ (p, false)
unfolding begin_operation
begin_operation_closed p h = rw h

-- Every goroutine of the read-ahead is within the budget, the range and the open prefetcher.
pub read_ahead_from-Planned :
    (left budget index : ℕ) (p : Prefetcher)
    → Planned index (index + left) budget p (read_ahead_from left budget index p)
unfolding read_ahead_from
read_ahead_from-Planned zero budget index p = (omega arith, tt, tt, omega arith)
read_ahead_from-Planned (suc left) budget index p =
    let (a, b, c, d) = read_ahead_from-Planned left budget (suc index) p in
    let skipped : Planned index (index + suc left) budget p
        (read_ahead_from left budget (suc index) p) =
      (a, between_widen index (suc index) _ _ _ (omega arith) (omega arith) b, c, d) in
    elim (Bool-cases (leb budget 0)) [
      | inl e ↦ rw e (omega arith, tt, tt, omega arith)
      | inr e ↦ rw e (elim (Bool-cases p.closed) [
        | inl s ↦ rw (begin_operation_closed p s) (elim (Bool-cases (has_chunk p.cache index)) [
          | inl h ↦ rw h skipped
          | inr h ↦ rw h skipped
        ])
        | inr s ↦ rw (begin_operation_open p s) (elim (Bool-cases (has_chunk p.cache index)) [
          | inl h ↦ rw h skipped
          | inr h ↦
              let q = record p { operations = suc p.operations } in
              let (a', b', c', d') = read_ahead_from-Planned left (budget - 1) (suc index) q in
              rw h (
                ground arith,
                (
                  (omega arith, omega arith),
                  between_widen index (suc index) _ _ _ (omega arith) (omega arith) b',
                ),
                (h, c'),
                omega arith,
              )
        ])
      ])
    ]

-- A prefetcher whose chunk, window and content sizes are these numbers.
pub record IsSized (p : Prefetcher) (chunk window size : ℕ) : Type 0 where
  pub chunk_eq : p.config.chunk_size ≡ pos chunk
  pub window_eq : p.config.window_size ≡ pos window
  pub size_eq : p.size ≡ pos size
  pub chunk_pos : 0 < chunk
  pub size_pos : 0 < size
  pub size_small : size < i64_half
  pub window_small : window + chunk < i64_half

div_le : (a b : ℕ) → a / b ≤ a
div_le a b = grind arith

window_end_small :
    (p : Prefetcher) (chunk window size start : ℕ)
    → IsSized p chunk window size
    → start + window + chunk < i64_half
    → window_end_chunk p (pos start)
      ≡ pos (min (start + max 1 ((window + chunk - 1) / chunk) - 1) ((size - 1) / chunk))
unfolding window_end_chunk
window_end_small p chunk window size start s small =
    let wc = (window + chunk - 1) / chunk in
    let bound = div_le (window + chunk - 1) chunk in
    let grown : (if ltb_ℤ (pos wc) (pos 1) then pos 1 else pos wc) ≡ pos (max 1 wc) =
      ground arith in
    rw
      (
        s.chunk_eq,
        s.window_eq,
        s.size_eq,
        +ℤ_small window chunk (omega arith),
        -ℤ_small (window + chunk) 1 (omega arith) (omega arith),
        -ℤ_small size 1 (omega arith) (omega arith),
        grown,
        +ℤ_small start (max 1 wc) (omega arith),
        -ℤ_small (start + max 1 wc) 1 (omega arith) (omega arith),
      )
      (ground arith)

in_content :
    (chunk size end i : ℕ) → 0 < chunk → 0 < size → i < suc ((size - 1) / chunk) → i * chunk < size
in_content chunk size end i c s h = grind arith

-- Of a content of known size the read-ahead starts at most 1000 reads, each of a chunk behind the
-- last one that is asked for, which has bytes of the content and is not cached. The sizes, and the
-- window from the first chunk's index on, are positive and below 2 ^ 63.
pub schedule_read_ahead_bounds :
    (p : Prefetcher) (chunk window size start end : ℕ)
    → IsSized p chunk window size
    → start + window + chunk < i64_half
    → let indices = (schedule_read_ahead end (window_end_chunk p (pos start)) p).0 in
      (length indices ≤ 1000)
      × All (λ i. (end < i) × (i * chunk < size)) indices
      × All (λ i. has_chunk p.cache i ≡ false) indices
unfolding schedule_read_ahead rounds
schedule_read_ahead_bounds p chunk window size start end s small =
    let last = min (start + max 1 ((window + chunk - 1) / chunk) - 1) ((size - 1) / chunk) in
    let limit = quot p.config.window_size (chunk_length p) in
    let capped = if ltb_ℤ (pos 1000) limit then pos 1000 else limit in
    let budget : pos_part capped ≤ 1000 = ground arith in
    let (a, b, c, d) = read_ahead_from-Planned (suc last - suc end) (pos_part capped) (suc end) p in
    rw (window_end_small p chunk window size start s small) (omega arith, ranged _ b, c)
  where
    ranged :
        (xs : List ℕ)
        → AllBetween
            (suc end)
            (suc end
              + (suc (min (start + max 1 ((window + chunk - 1) / chunk) - 1) ((size - 1) / chunk))
                  - suc end))
            xs
        → All (λ i. (end < i) × (i * chunk < size)) xs
    ranged [] h = tt
    ranged (x ∷ xs) ((l, u), h) =
        ((l, in_content chunk size end x s.chunk_pos s.size_pos (omega arith)), ranged xs h)
