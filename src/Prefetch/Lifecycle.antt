-- ===== src/Prefetch/Lifecycle.antt =====
-- pkg/prefetch/prefetch.go: `beginOperation`, the end of an operation, and `Close`.
-- The lock makes each test of `closed` and what follows it one step. `Close` waits outside the lock.
use container_builder_shim.Common.{ℕ, suc, ◌-◌, ◌≡◌, ◌≢◌, refl, Bool, true, false, [], arith, ◌<◌}
use container_builder_shim.Prefetch.Cache.{ChunkCache, leaf, clear}

-- How far the first call of `Close` has come.
pub data Closing : Type 0 where
  unclosed waiting returned : Closing

-- `running` is the counter of the wait group. `others` counts the calls of `Close` that found it
-- closed, each of which returned at once.
pub record Lifecycle : Type 0 where
  pub running : ℕ
  pub closed : Bool
  pub closing : Closing
  pub others : ℕ
  pub cache : ChunkCache

-- The steps of all goroutines on one prefetcher.
pub data LifeStep : Lifecycle → Lifecycle → Type 0 where
  begins : (s : Lifecycle) → s.closed ≡ false → LifeStep s (record s { running = suc s.running })
  refused_to_begin : (s : Lifecycle) → s.closed ≡ true → LifeStep s s
  -- An operation changes the cache while it runs.
  works : (s : Lifecycle) (c : ChunkCache) → 0 < s.running → LifeStep s (record s { cache = c })
  ends : (s : Lifecycle) → 0 < s.running → LifeStep s (record s { running = s.running - 1 })
  close_starts :
      (s : Lifecycle)
      → s.closed ≡ false
      → LifeStep s (record s { closed = true; closing = waiting })
  -- `Close` on a closed prefetcher returns nil without a wait.
  close_again : (s : Lifecycle) → s.closed ≡ true → LifeStep s (record s { others = suc s.others })
  -- In the first call `wg.Wait` returns, and the cache is cleared.
  close_returns :
      (s : Lifecycle)
      → s.closing ≡ waiting
      → s.running ≡ 0
      → LifeStep s (record s { closing = returned; cache = clear s.cache })

pub data Reaches : Lifecycle → Lifecycle → Type 0 where
  here : (s : Lifecycle) → Reaches s s
  next : (s t u : Lifecycle) → LifeStep s t → Reaches t u → Reaches s u

-- Once the first call of `Close` has returned nothing runs and the cache is empty. It is there as
-- soon as the prefetcher is closed, and no other call has returned before it is.
pub record IsConsistent (s : Lifecycle) : Type 0 where
  pub open_until : s.closed ≡ false → s.closing ≡ unclosed
  pub closed_since : s.closed ≡ true → s.closing ≢ unclosed
  pub alone : s.closed ≡ false → s.others ≡ 0
  pub quiet : s.closing ≡ returned → s.running ≡ 0
  pub empty : s.closing ≡ returned → (s.cache.chunk_map ≡ []) × (s.cache.interval_tree ≡ leaf)

LifeStep-IsConsistent : {s t : Lifecycle} → LifeStep s t → IsConsistent s → IsConsistent t
unfolding clear
LifeStep-IsConsistent (begins s e) v = record {
  open_until = v.open_until;
  closed_since = v.closed_since;
  alone = v.alone;
  quiet = λ r. absurd (let k = v.open_until e in cc);
  empty = v.empty;
}
LifeStep-IsConsistent (refused_to_begin s _) v = v
LifeStep-IsConsistent (works s c p) v = record {
  open_until = v.open_until;
  closed_since = v.closed_since;
  alone = v.alone;
  quiet = v.quiet;
  empty = λ r. absurd (let k = v.quiet r in omega (arith, k));
}
LifeStep-IsConsistent (ends s p) v = record {
  open_until = v.open_until;
  closed_since = v.closed_since;
  alone = v.alone;
  quiet = λ r. absurd (let k = v.quiet r in omega (arith, k));
  empty = v.empty;
}
LifeStep-IsConsistent (close_starts s e) v = record {
  open_until = λ bad. absurd cc;
  closed_since = λ _ bad. absurd cc;
  alone = λ bad. absurd cc;
  quiet = λ bad. absurd cc;
  empty = λ bad. absurd cc;
}
LifeStep-IsConsistent (close_again s c) v = record {
  open_until = v.open_until;
  closed_since = v.closed_since;
  alone = λ o. absurd cc;
  quiet = v.quiet;
  empty = v.empty;
}
LifeStep-IsConsistent (close_returns s w z) v = record {
  open_until = λ o. absurd (let k = v.open_until o in cc);
  closed_since = λ _ bad. absurd cc;
  alone = v.alone;
  quiet = λ r. z;
  empty = λ r. (refl, refl);
}

-- From a consistent state, however operations and calls of `Close` interleave: once the first call
-- of `Close`, the one that found the prefetcher open, has returned, no operation runs and the cache
-- is empty; that call waits or has returned exactly if the prefetcher is closed, and while it is
-- open no other call of `Close` has returned. A later call returns at once, and nothing is said of
-- what runs then.
pub Reaches-IsConsistent : {s t : Lifecycle} → Reaches s t → IsConsistent s → IsConsistent t
Reaches-IsConsistent (here s) v = v
Reaches-IsConsistent (next s t u first rest) v =
    Reaches-IsConsistent rest (LifeStep-IsConsistent first v)
