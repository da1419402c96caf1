-- ===== src/Prefetch/Tests.antt =====
-- Runs of the prefetcher on a content of ten bytes in chunks of four.
use container_builder_shim.Common.{
  ℕ, zero, suc, ◌+◌, ◌*◌, ◌≤◌, ◌<◌, ◌≡◌, refl, sym, ap, true, false, Option, none, some, List, [],
  ◌∷◌, ◌∙◌, take_of_length-le, arith, length, take, drop, filter, All, inl, nat_eq,
}
use container_builder_shim.Common.Int.{pos}
use container_builder_shim.Common.Bytes.{Bytes, codes}
use container_builder_shim.Common.Dict.{Dict, lookup, erase}
use mathlib.Core.List.{Permᴰ}
use mathlib.Core.List.Permᴰ
use container_builder_shim.Prefetch.Cache.{
  Chunk, ChunkCache, IntervalNode, leaf, new_chunk_cache, add_chunk, evict_oldest,
  find_overlaps_recursive, insert_interval, has_chunk, delete_first, oldest_first, values, rev_onto,
  sort_rounds, sift,
}
use container_builder_shim.Prefetch.Cache.Tree.{
  contents, tree_size, in_range, IsTree, find-eq-filter, insert_interval-IsTree,
}
use container_builder_shim.Prefetch.Cache.Invariant.{
  IsValid, new_chunk_cache-IsValid, add_chunk-IsValid,
}
use container_builder_shim.Prefetch.Cache.Recent.{evict_oldest_recency, tree_size-add_chunk}
use container_builder_shim.Prefetch.Lifecycle.{
  Lifecycle, unclosed, waiting, returned, Reaches, here, next, close_starts, close_again,
  close_returns, IsConsistent, Reaches-IsConsistent,
}
use container_builder_shim.Prefetch.Cache.{clear}
use container_builder_shim.Prefetch.Reader.{
  default_config, Prefetcher, Flight, Answer, answered, acquired, Error, read_failed, Background,
  reads_ahead, evicts, read_at, accepted, read_chunk_with_retries, schedule_read_ahead,
  window_end_chunk, in_background, copy_chunks, read_chunk_once,
}
use container_builder_shim.Prefetch.Reader.Slice.{chunk_of}
use container_builder_shim.Prefetch.Reader.Sound.{
  IsHonest, IsHonestStep, IsSound, in_background-IsSound,
}
use container_builder_shim.Prefetch.Reader.Retry.{attempt_read, read_chunk_with_retries-first}
use container_builder_shim.Prefetch.Reader.Window.{IsSized, schedule_read_ahead_bounds}
use container_builder_shim.Prefetch.Reader.Refinement.{Copies, copy_chunks-Copies}
use container_builder_shim.Prefetch.Reader.ReadAt.{
  Serves, IsPrompt, read_at-content, read_at-prompt,
}

abbrev digits : Bytes
digits = codes "0123456789"

-- A flight whose first attempt fails and whose second one reads the chunk.
abbrev answer_from : ℕ → ℕ → Answer
answer_from index zero = answered [] 0 (some read_failed)
answer_from index (suc _) =
    let bytes = chunk_of digits 4 index in answered bytes (length bytes) none

abbrev second_try : ℕ → Flight
second_try index = record { slot = acquired; answer = answer_from index; wait = λ _. true; now = 7 }

answered-injective :
    {b c : Bytes} {m n : ℕ} {d e : Option Error}
    → answered b m d ≡ answered c n e
    → (b ≡ c) × (m ≡ n) × (d ≡ e)
answered-injective h = (cc, cc, cc)

second_try-IsHonest : (index : ℕ) → IsHonest digits 4 index (second_try index)
second_try-IsHonest index zero bytes n e h good =
    absurd (let p = (answered-injective h).2 in let q = ap accepted p ∙ good in cc)
second_try-IsHonest index (suc _) bytes n e h good =
    let (same, many, _) = answered-injective h in
    (
      sym many,
      sym (ap (λ k. take k bytes) many)
          ∙ ap (take (length (chunk_of digits 4 index))) (sym same)
          ∙ take_of_length-le (length (chunk_of digits 4 index)) (chunk_of digits 4 index)
              (omega arith),
    )

abbrev no_others : ℕ → List Background
no_others _ = []

abbrev one_other : ℕ → List Background
one_other index = reads_ahead (suc index) (second_try (suc index)) ∷ evicts 0 ∷ []

one_other-IsHonest : (index : ℕ) → All (IsHonestStep digits 4) (one_other index)
one_other-IsHonest index = (second_try-IsHonest (suc index), (tt, tt))

abbrev opened : Prefetcher
opened = record {
  size = pos 10;
  config = record default_config { chunk_size = pos 4; window_size = pos 8 };
  cache = new_chunk_cache 4;
  operations = 0;
  closed = false;
  cancelled = false;
}

opened-Serves : Serves digits 4 opened
unfolding new_chunk_cache
opened-Serves = record {
  is_open = refl;
  chunk_eq = refl;
  size_eq = refl;
  chunk_pos = omega arith;
  sound = tt;
}

second_try-IsPrompt : (index : ℕ) → IsPrompt 3 (second_try index)
unfolding read_chunk_with_retries
second_try-IsPrompt index = record { free = refl; reads = refl }

abbrev same_order : Dict ℕ Chunk → Dict ℕ Chunk
same_order m = m

same_order-Permᴰ : (m : Dict ℕ Chunk) → Permᴰ (same_order m) m
same_order-Permᴰ m = Permᴰ.refl m

read_at-prompt_example :
    ((read_at same_order second_try one_other opened 6 (pos 1)).bytes ≡ take 6 (drop 1 digits))
    × ((read_at same_order second_try one_other opened 6 (pos 1)).error ≡ none)
read_at-prompt_example =
    read_at-prompt digits 4 same_order second_try one_other opened 6 1 opened-Serves
      second_try-IsHonest one_other-IsHonest (omega arith) (omega arith) (omega arith)
      (inl (omega arith)) second_try-IsPrompt

read_at-content_example :
    ((read_at same_order second_try one_other opened 6 (pos 1)).bytes ≡ take 6 (drop 1 digits))
    × ((read_at same_order second_try one_other opened 6 (pos 1)).error ≡ none)
read_at-content_example =
    read_at-content digits 4 same_order second_try one_other opened 6 1 opened-Serves
      second_try-IsHonest one_other-IsHonest (omega arith) (omega arith) (omega arith)
      (inl (omega arith)) (ap accepted read_at-prompt_example.1)

copy_chunks-Copies_example :
    Copies
      (drop (0 * 4 + 1) digits)
      6
      (copy_chunks same_order 3 second_try one_other 2 0 1 6 (new_chunk_cache 4))
unfolding take drop
copy_chunks-Copies_example =
    copy_chunks-Copies digits 4 same_order 3 second_try one_other second_try-IsHonest
      one_other-IsHonest 2 0 1 6 (new_chunk_cache 4) opened-Serves.sound (omega arith) (omega arith)

in_background-IsSound_example :
    IsSound digits 4 (in_background same_order 3 (new_chunk_cache 4) (one_other 0)).chunk_map
in_background-IsSound_example =
    in_background-IsSound digits 4 same_order 3 (one_other 0) (new_chunk_cache 4)
      (one_other-IsHonest 0) opened-Serves.sound

first_fails : (i : ℕ) → i < 1 → accepted (attempt_read (second_try 2) i).2 ≡ false
unfolding read_chunk_once
first_fails zero h = refl
first_fails (suc i) h = absurd (omega arith)

read_chunk_with_retries-first_example :
    read_chunk_with_retries 3 (second_try 2) ≡ attempt_read (second_try 2) 1
unfolding read_chunk_once
read_chunk_with_retries-first_example =
    read_chunk_with_retries-first (second_try 2) 3 1 (omega arith) first_fails (λ i le gt. refl)
      refl

opened-IsSized : IsSized opened 4 8 10
opened-IsSized = record {
  chunk_eq = refl;
  window_eq = refl;
  size_eq = refl;
  chunk_pos = omega arith;
  size_pos = omega arith;
  size_small = omega arith;
  window_small = omega arith;
}

schedule_read_ahead_bounds_example :
    let indices = (schedule_read_ahead 0 (window_end_chunk opened (pos 0)) opened).0 in
    (length indices ≤ 1000)
    × All (λ i. (0 < i) × (i * 4 < 10)) indices
    × All (λ i. has_chunk opened.cache i ≡ false) indices
schedule_read_ahead_bounds_example =
    schedule_read_ahead_bounds opened 4 8 10 0 0 opened-IsSized (omega arith)

abbrev digit_chunk : ℕ → ℕ → Chunk
digit_chunk index used = record { index = index; bytes = []; size = 4; last_used = used }

abbrev fresh_cache : ChunkCache
fresh_cache = new_chunk_cache 4

add_chunk-IsValid_example : IsValid (add_chunk same_order 5 fresh_cache (digit_chunk 2 0))
add_chunk-IsValid_example =
    add_chunk-IsValid same_order same_order-Permᴰ 5 fresh_cache (digit_chunk 2 0)
      (new_chunk_cache-IsValid 4)

tree_size-add_chunk_example :
    tree_size (add_chunk same_order 5 fresh_cache (digit_chunk 2 0)).interval_tree
    ≡ suc (tree_size leaf)
unfolding new_chunk_cache
tree_size-add_chunk_example =
    tree_size-add_chunk same_order same_order-Permᴰ 5 fresh_cache (digit_chunk 2 0)
      (new_chunk_cache-IsValid 4) refl refl (omega arith)

-- A cache of at most two chunks, of which it evicts one, with three in its map.
abbrev full_cache : ChunkCache
full_cache = record {
  chunk_size = 4;
  interval_tree = leaf;
  chunk_map = (0, digit_chunk 0 5) ∷ (1, digit_chunk 1 3) ∷ (2, digit_chunk 2 9) ∷ [];
  max_cache_size = 2;
  evict_count = 1;
  min_index = 0;
}

evict_oldest_recency_example : (digit_chunk 1 3).last_used ≤ (digit_chunk 2 9).last_used
unfolding evict_oldest delete_first oldest_first lookup nat_eq rev_onto sort_rounds values sift
    erase
evict_oldest_recency_example =
    evict_oldest_recency same_order same_order-Permᴰ full_cache 1 2 (digit_chunk 1 3)
      (digit_chunk 2 9) (refl, (refl, (refl, tt))) (refl, (refl, (refl, tt))) refl refl refl

abbrev small_tree : IntervalNode
small_tree = insert_interval (insert_interval leaf 2 2 (digit_chunk 2 0)) 1 1 (digit_chunk 1 0)

one_node-IsTree : IsTree (insert_interval leaf 2 2 (digit_chunk 2 0))
unfolding insert_interval values
one_node-IsTree = (refl, (refl, tt), tt, (omega arith, tt), tt, tt)

small_tree-IsTree : IsTree small_tree
small_tree-IsTree =
    insert_interval-IsTree (insert_interval leaf 2 2 (digit_chunk 2 0)) (digit_chunk 1 0)
      one_node-IsTree

insert_interval-IsTree_example : IsTree small_tree
insert_interval-IsTree_example =
    insert_interval-IsTree (insert_interval leaf 2 2 (digit_chunk 2 0)) (digit_chunk 1 0)
      one_node-IsTree

find-eq-filter_example :
    find_overlaps_recursive small_tree 0 1 ≡ filter (in_range 0 1) (contents small_tree)
find-eq-filter_example = find-eq-filter small_tree 0 1 small_tree-IsTree

abbrev before_close : Lifecycle
before_close = record {
  running = 0;
  closed = false;
  closing = unclosed;
  others = 0;
  cache = new_chunk_cache 4;
}

abbrev in_close : Lifecycle
in_close = record before_close { closed = true; closing = waiting }

-- A second call of `Close` returns while the first one waits.
abbrev in_close_twice : Lifecycle
in_close_twice = record in_close { others = 1 }

abbrev after_close : Lifecycle
after_close = record in_close_twice { closing = returned; cache = clear (new_chunk_cache 4) }

closes : Reaches before_close after_close
closes = next before_close in_close after_close (close_starts before_close refl) (
    next in_close in_close_twice after_close (close_again in_close refl) (
      next in_close_twice after_close after_close (close_returns in_close_twice refl refl)
        (here after_close)))

before_close-IsConsistent : IsConsistent before_close
before_close-IsConsistent = record {
  open_until = λ o. refl;
  closed_since = λ c. absurd cc;
  alone = λ o. refl;
  quiet = λ r. refl;
  empty = λ r. absurd cc;
}

Reaches-IsConsistent_example : IsConsistent after_close
Reaches-IsConsistent_example = Reaches-IsConsistent closes before_close-IsConsistent
