-- ===== src/Prefetch/Reader.antt =====
-- pkg/prefetch/prefetch.go: the configuration, the fetch of a chunk and `ReadAt`.
-- Numbers of type int and int64 are integers with 64-bit arithmetic. The underlying reader, the
-- timers, the semaphore and the context are not modelled: what they answer is a `Flight`. Other
-- goroutines act on the cache before each chunk is taken: that is a list of `Background` steps,
-- each with its own flight.
pub mod Window
pub mod Retry
pub mod Slice
pub mod Sound
pub mod Refinement
pub mod Ends
pub mod ReadAt
use container_builder_shim.Common.{
  ℕ, zero, suc, ◌+◌, ◌-◌, ◌*◌, ◌/◌, ◌%◌, Bool, true, false, not, ◌&&◌, ◌||◌, Option, none, some,
  List, [], ◌∷◌, ◌++◌, ltb, leb, if◌then◌else◌, length, take, drop, nat_eq, ◌==◌,
}
use Prim.Native.Nat.{min}
use container_builder_shim.Common.Int.{
  ℤ, pos, negsuc, pos_part, neg_part, ltb_ℤ, leb_ℤ, ◌+ℤ◌, ◌-ℤ◌, quot,
}
use container_builder_shim.Common.Dict.{Dict}
use container_builder_shim.Common.Bytes.{Bytes}
use container_builder_shim.Prefetch.Cache.{
  Chunk, ChunkCache, new_chunk_cache, has_chunk, get_chunk, add_chunk, evict_before, clear,
}

pub data Error : Type 0 where
  offset_out_of_range read_failed prefetcher_closed cancelled eof nil_reader other : Error

pub record Config : Type 0 where
  pub window_size : ℤ
  pub chunk_size : ℤ
  pub max_parallel_reads : ℤ
  pub read_timeout : ℤ
  pub retry_interval : ℤ
  pub max_retries : ℤ

abbrev pub default_config : Config
default_config = record {
  window_size = pos 1048576;
  chunk_size = pos 65536;
  max_parallel_reads = pos 4;
  read_timeout = pos 9223372036854775807;
  retry_interval = pos 500000000;
  max_retries = pos 3;
}

-- `if value <= 0 { value = fallback }`
abbrev or_default : ℤ → ℤ → ℤ
or_default value fallback = if leb_ℤ value (pos 0) then fallback else value

-- The adjustments that `New` makes to its configuration.
unfoldable pub normalize : Config → Config
normalize c =
    let window = or_default c.window_size default_config.window_size in
    let chunk = or_default c.chunk_size default_config.chunk_size in
    record {
      window_size = if ltb_ℤ window chunk then chunk else window;
      chunk_size = chunk;
      max_parallel_reads = or_default c.max_parallel_reads default_config.max_parallel_reads;
      read_timeout = or_default c.read_timeout default_config.read_timeout;
      retry_interval = or_default c.retry_interval default_config.retry_interval;
      max_retries =
          if ltb_ℤ c.max_retries (pos 0) then default_config.max_retries else c.max_retries;
    }

pub record Prefetcher : Type 0 where
  pub size : ℤ
  pub config : Config
  pub cache : ChunkCache
  pub operations : ℕ
  pub closed : Bool
  pub cancelled : Bool

abbrev pub chunk_length : Prefetcher → ℕ
chunk_length p = pos_part p.config.chunk_size

-- How the `select` for a slot of the semaphore ends.
pub data Slot : Type 0 where
  acquired done timed_out : Slot

-- What `reader.ReadAt` returns in time, or the buffer as it stands when the time is over.
pub data Answer : Type 0 where
  answered : Bytes → ℕ → Option Error → Answer
  expired : Bytes → Answer

pub record Flight : Type 0 where
  pub slot : Slot
  pub answer : ℕ → Answer
  pub wait : ℕ → Bool
  pub now : ℕ

pub data Result {ℓ} (A : Type ℓ) : Type ℓ where
  ok : A → Result A
  err : Error → Result A

-- `New` with a reader or nil; of several configurations the first counts.
unfoldable pub new : Bool → ℤ → List Config → Result Prefetcher
unfolding normalize new_chunk_cache
new false size configs = err nil_reader
new true size configs =
    let config = normalize (elim configs [ [] ↦ default_config | c ∷ _ ↦ c ]) in
    ok (record {
      size = size;
      config = config;
      cache = new_chunk_cache (pos_part config.chunk_size);
      operations = 0;
      closed = false;
      cancelled = false;
    })

unfoldable pub validate_read : ℤ → ℕ → ℤ → Option Error
validate_read size len offset =
    if ltb_ℤ offset (pos 0)
    then some offset_out_of_range
    else if len == 0
    then none
    else if leb_ℤ size (pos 0) && leb_ℤ (pos 0) size
    then some eof
    else if ltb_ℤ (pos 0) size && leb_ℤ size offset
    then some offset_out_of_range
    else none

unfoldable pub window_end_chunk : Prefetcher → ℤ → ℤ
window_end_chunk p start =
    let chunk_size = chunk_length p in
    let raw = quot (p.config.window_size +ℤ pos chunk_size -ℤ pos 1) chunk_size in
    let window_chunks = if ltb_ℤ raw (pos 1) then pos 1 else raw in
    let window_end = start +ℤ window_chunks -ℤ pos 1 in
    let max_chunk = quot (p.size -ℤ pos 1) chunk_size in
    if ltb_ℤ (pos 0) p.size && ltb_ℤ max_chunk window_end then max_chunk else window_end

-- The rounds of `for index := start; index <= end; index++`.
unfoldable pub rounds : ℕ → ℤ → ℕ
rounds start (pos end) = suc end - start
rounds start (negsuc _) = 0

-- `beginOperation`
unfoldable pub begin_operation : Prefetcher → Prefetcher × Bool
begin_operation p =
    if p.closed then (p, false) else (record p { operations = suc p.operations }, true)

-- The indices for which `scheduleRequiredChunks` starts a goroutine.
unfoldable pub schedule_required : ℕ → ℕ → Prefetcher → List ℕ × Prefetcher
unfolding begin_operation
schedule_required zero index p = ([], p)
schedule_required (suc left) index p =
    let skip = schedule_required left (suc index) p in
    let (p', begun) = begin_operation p in
    let (later, p'') = schedule_required left (suc index) p' in
    if has_chunk p.cache index || not begun then skip else (index ∷ later, p'')

-- `scheduleReadAhead`: `budget` goroutines at most.
unfoldable pub read_ahead_from : ℕ → ℕ → ℕ → Prefetcher → List ℕ × Prefetcher
unfolding begin_operation
read_ahead_from zero budget index p = ([], p)
read_ahead_from (suc left) budget index p =
    let skip = read_ahead_from left budget (suc index) p in
    let (p', begun) = begin_operation p in
    let (later, p'') = read_ahead_from left (budget - 1) (suc index) p' in
    if leb budget 0
    then ([], p)
    else if has_chunk p.cache index || not begun
    then skip
    else (index ∷ later, p'')

unfoldable pub schedule_read_ahead : ℕ → ℤ → Prefetcher → List ℕ × Prefetcher
unfolding read_ahead_from rounds
schedule_read_ahead end_chunk window_end p =
    let limit = quot p.config.window_size (chunk_length p) in
    let capped = if ltb_ℤ (pos 1000) limit then pos 1000 else limit in
    read_ahead_from (rounds (suc end_chunk) window_end) (pos_part capped) (suc end_chunk) p

-- A read of a chunk: the buffer, the number of bytes and the error.
abbrev pub ChunkRead : Type 0
ChunkRead = Bytes × ℕ × Option Error

unfoldable pub read_chunk_once : Answer → ChunkRead
read_chunk_once (answered buffer n e) = (buffer, n, e)
read_chunk_once (expired buffer) = (buffer, 0, some read_failed)

-- `err == nil || err == io.EOF`
abbrev pub accepted : Option Error → Bool
accepted none = true
accepted (some eof) = true
accepted (some _) = false

-- The loop of `readChunkWithRetries`, with the attempts that are left.
unfoldable pub retry_from : Flight → ℕ → ℕ → ChunkRead → ChunkRead
unfolding read_chunk_once
retry_from f zero attempt last = last
retry_from f (suc left) attempt last =
    let (buffer, n, e) = read_chunk_once (f.answer attempt) in
    let again = retry_from f left (suc attempt) (buffer, n, e) in
    if ltb 0 attempt && not (f.wait attempt)
    then ([], 0, some cancelled)
    else if accepted e
    then (buffer, n, e)
    else again

unfoldable pub read_chunk_with_retries : ℕ → Flight → ChunkRead
unfolding retry_from
read_chunk_with_retries max_retries f = retry_from f (suc max_retries) 0 ([], 0, none)

-- What another goroutine does to the cache.
pub data Background : Type 0 where
  fetches : ℕ → Flight → Background
  reads_ahead : ℕ → Flight → Background
  evicts : ℕ → Background

-- The outcome of `copyChunks`: the bytes that it copied, its error, and the cache.
pub record Copied : Type 0 where
  pub bytes : Bytes
  pub error : Option Error
  pub cache : ChunkCache

module _ (shuffle : Dict ℕ Chunk → Dict ℕ Chunk) (max_retries : ℕ) where
  -- `fetchChunk` from the read on.
  unfoldable pub read_and_store : Flight → ℕ → ChunkCache → ChunkCache × Result Chunk
  unfolding read_chunk_with_retries
  read_and_store f index c =
      let (buffer, n, e) = read_chunk_with_retries max_retries f in
      let ch : Chunk = record { index = index; bytes = buffer; size = n; last_used = f.now } in
      if accepted e then (add_chunk shuffle f.now c ch, ok ch) else (c, err read_failed)

  unfoldable pub take_slot : Slot → Flight → ℕ → ChunkCache → ChunkCache × Result Chunk
  take_slot acquired f index c = read_and_store f index c
  take_slot done f index c = (c, err cancelled)
  take_slot timed_out f index c = (c, err read_failed)

  -- `fetchChunk`, run by the one caller that the flight group lets through.
  unfoldable pub fetch_chunk : Flight → ℕ → ChunkCache → ChunkCache × Result Chunk
  unfolding take_slot
  fetch_chunk f index c =
      let (c', hit) = get_chunk f.now c index in
      elim hit [ some ch ↦ (c', ok ch) | none ↦ take_slot f.slot f index c' ]

  -- `p.getChunk`
  unfoldable pub get_or_fetch : Flight → ℕ → ChunkCache → ChunkCache × Result Chunk
  unfolding fetch_chunk
  get_or_fetch f index c =
      let (c', hit) = get_chunk f.now c index in
      elim hit [ some ch ↦ (c', ok ch) | none ↦ fetch_chunk f index c' ]

  -- `readAhead` once its sleep is over: one attempt, and none if no slot is free.
  unfoldable pub read_ahead : Flight → ℕ → ChunkCache → ChunkCache
  unfolding read_chunk_once
  read_ahead f index c =
      let (buffer, n, e) = read_chunk_once (f.answer 0) in
      let ch : Chunk = record { index = index; bytes = buffer; size = n; last_used = f.now } in
      let stored = if accepted e then add_chunk shuffle f.now c ch else c in
      if has_chunk c index then c else elim f.slot [ acquired ↦ stored | _ ↦ c ]

  unfoldable pub background_step : ChunkCache → Background → ChunkCache
  unfolding get_or_fetch read_ahead
  background_step c (fetches index f) = (get_or_fetch f index c).0
  background_step c (reads_ahead index f) = read_ahead f index c
  background_step c (evicts index) = evict_before c index

  unfoldable pub in_background : ChunkCache → List Background → ChunkCache
  unfolding background_step
  in_background c [] = c
  in_background c (b ∷ bs) = in_background (background_step c b) bs

  -- The loop of `copyChunks`; `want` is the room that is left in the buffer. `others` gives the
  -- steps of other goroutines before a chunk is taken.
  unfoldable pub copy_chunks :
      (ℕ → Flight) → (ℕ → List Background) → ℕ → ℕ → ℕ → ℕ → ChunkCache → Copied
  unfolding in_background
  copy_chunks flight others zero index chunk_offset want c = record {
    bytes = [];
    error = none;
    cache = c;
  }
  copy_chunks flight others (suc left) index chunk_offset want c =
      let (c', r) = get_or_fetch (flight index) index (in_background c (others index)) in
      if want == 0 then record { bytes = []; error = none; cache = c } else elim r [
        | err e ↦ record { bytes = []; error = some e; cache = c' }
        | ok ch ↦
            let available = ch.size - chunk_offset in
            let count = min available want in
            let rest = copy_chunks flight others left (suc index) 0 (want - count) c' in
            if available == 0
            then record { bytes = []; error = none; cache = c' }
            else record rest { bytes = take count (drop chunk_offset ch.bytes) ++ rest.bytes }
      ]

-- What `ReadAt` returns, with the prefetcher after it and the chunks that it handed to goroutines.
pub record Reply : Type 0 where
  pub bytes : Bytes
  pub error : Option Error
  pub prefetcher : Prefetcher
  pub scheduled : List ℕ

-- The end of `ReadAt`: the error of the copy, or `io.EOF` where the copy reaches the size.
unfoldable pub final_error : ℤ → ℕ → Copied → Option Error
final_error size offset copied =
    let at_end = ltb_ℤ (pos 0) size && leb_ℤ size (pos offset +ℤ pos (length copied.bytes)) in
    elim copied.error [ some e ↦ some e | none ↦ if at_end then some eof else none ]

-- The test that makes `ReadAt` return `io.EOF` at once: the range passes the end in one chunk.
unfoldable pub is_cut : ℤ → ℕ → ℕ → ℕ → ℤ → Bool
is_cut size offset len start end =
    ltb_ℤ (pos 0) size
    && ltb_ℤ size (pos offset +ℤ pos len)
    && leb_ℤ (pos start) end
    && leb_ℤ end (pos start)

-- The two scheduling calls of `ReadAt`, for an end that is not negative: the theorems on `ReadAt`
-- exclude a range whose end leaves the int64 range, where the source starts at a negative index.
unfoldable pub schedule_reads : ℕ → ℤ → Prefetcher → List ℕ × Prefetcher
unfolding rounds schedule_required schedule_read_ahead window_end_chunk
schedule_reads start end p =
    let (required, p') = schedule_required (rounds start end) start p in
    let (ahead, p'') = schedule_read_ahead (pos_part end) (window_end_chunk p' (pos start)) p' in
    (required ++ ahead, p'')

-- The early returns of `ReadAt`, each with its error.
unfoldable pub refused : Prefetcher → ℕ → ℤ → Option (Option Error)
unfolding validate_read
refused p len off =
    if p.closed then some (some prefetcher_closed) else elim (validate_read p.size len off) [
      | some e ↦ some (some e)
      | none ↦ if len == 0 then some none else none
    ]

module _ (shuffle : Dict ℕ Chunk → Dict ℕ Chunk) where
  -- The two schedules of `ReadAt` and its copy of the chunks from `start` to `end`.
  unfoldable pub copy_range :
      (ℕ → Flight)
      → (ℕ → List Background)
      → Prefetcher
      → ℕ
      → ℕ
      → ℕ
      → ℤ
      → (Copied × Prefetcher) × List ℕ
  unfolding copy_chunks rounds schedule_reads
  copy_range flight others p len offset start end =
      let (scheduled, p') = schedule_reads start end p in
      let copied =
        copy_chunks shuffle (pos_part p.config.max_retries) flight others (rounds start end) start
          (offset % chunk_length p) len p'.cache in
      ((copied, record p' { cache = copied.cache }), scheduled)

  -- `ReadAt` past `validateRead`, for an offset that is not negative. Where `offset + len` leaves
  -- the int64 range the last chunk is negative and no chunk is read.
  unfoldable pub read_range : (ℕ → Flight) → (ℕ → List Background) → Prefetcher → ℕ → ℕ → Reply
  unfolding copy_range is_cut final_error
  read_range flight others p len offset =
      let start = offset / chunk_length p in
      let end = quot (pos offset +ℤ pos len -ℤ pos 1) (chunk_length p) in
      let evicted = record p { cache = evict_before p.cache start } in
      let ((copied, p'), scheduled) = copy_range flight others evicted len offset start end in
      if is_cut p.size offset len start end
      then record { bytes = []; error = some eof; prefetcher = evicted; scheduled = [] }
      else record {
        bytes = copied.bytes;
        error = final_error p.size offset copied;
        prefetcher = p';
        scheduled = scheduled;
      }

  -- `ReadAt`; its own operation has ended in the prefetcher that it returns.
  unfoldable pub read_at : (ℕ → Flight) → (ℕ → List Background) → Prefetcher → ℕ → ℤ → Reply
  unfolding read_range refused
  read_at flight others p len off = elim (refused p len off) [
    | some e ↦ record { bytes = []; error = e; prefetcher = p; scheduled = [] }
    | none ↦ read_range flight others p len (pos_part off)
  ]
