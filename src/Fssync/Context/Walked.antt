-- ===== src/Fssync/Context/Walked.antt =====
-- `FS.Walk` of pkg/fssync/walk.go with a callback that never skips: the walk of the cached context
-- through the walker visits one list.
use container_builder_shim.Common.{
  Bool-cases, Option, none, some, Option-cases, List, [], ◌∷◌, ◌≡◌, refl, inl, inr, map,
}
use container_builder_shim.Common.Bytes.{Bytes}
use container_builder_shim.Common.Path.{lt_bytes}
use container_builder_shim.Fssync.Walk.{
  Visit, path_text, SyntheticEntry, visit_of, Stop, skip_dir, skip_all, failed, and_then, emit_next,
  emit_before, visit_after, walk_entry, finish, visit_each,
}
use container_builder_shim.Fssync.Walk.Merge.{merge_before, merged}
use container_builder_shim.Fssync.Context.{
  Found, cached_visit, Met, met, go_on, walk_met, finish_after,
}

-- The visits of what a walk finds.
abbrev pub or_skip : Option Visit → List Visit → List Visit
or_skip none visits = visits
or_skip (some v) visits = v ∷ visits

abbrev pub visits_of : List Found → List Visit
visits_of [] = []
visits_of (f ∷ found) = or_skip (cached_visit f) (visits_of found)

-- A walk in which nothing fails to be read.
abbrev pub readable : {E : Type 0} → List Found → List (Met E)
readable [] = []
readable (f ∷ found) = met f ∷ readable found

pub and_then-cong :
    {S E : Type 0} (r : S × Option (Stop E)) (f g : S → S × Option (Stop E))
    → ((s : S) → f s ≡ g s)
    → and_then r f ≡ and_then r g
and_then-cong (s, none) f g h = h s
and_then-cong (s, some x) f g h = refl

-- The callback goes on, or fails with an error that is none of the two that skip.
abbrev pub IsKept {ℓ} : {E : Type ℓ} → Option (Stop E) → Type 0
IsKept none = Unit
IsKept (some skip_dir) = ⊥
IsKept (some skip_all) = ⊥
IsKept (some (failed e)) = Unit

module _ {S E : Type 0} (fn : Visit → S → S × Option (Stop E))
    (kept : (v : Visit) (s : S) → IsKept (fn v s).1) where
  finish-visit_each :
      (entries : List SyntheticEntry) (s : S)
      → finish fn entries s ≡ visit_each fn (map visit_of entries) s
  unfolding finish visit_each
  finish-visit_each [] s = refl
  finish-visit_each (e ∷ entries) s =
      and_then-cong (fn (visit_of e) s) _ _ (finish-visit_each entries)

  -- What follows of the walker's last call for a visit.
  abbrev Rest : Type 0
  Rest = Option (List Bytes) → List SyntheticEntry × S → (List SyntheticEntry × S) × Option E

  last_call :
      (v : Visit) (left : List SyntheticEntry) (r : S × Option (Stop E)) (k : Rest)
      (more : S → S × Option (Stop E))
      → IsKept r.1
      → ((s : S) → finish_after fn (k none (left, s)) ≡ more s)
      → finish_after fn (go_on (walk_entry fn) v ((left, r.0), r.1) k) ≡ and_then r more
  last_call v left (s, none) k more ok h = h s
  last_call v left (s, some (failed e)) k more ok h = refl
  last_call v left (s, some skip_dir) k more ok h = absurd ok
  last_call v left (s, some skip_all) k more ok h = absurd ok

  emitted :
      (v : Visit) (entries : List SyntheticEntry) (r : S × Option (Stop E)) (k : Rest)
      (loop : S → (List SyntheticEntry × S) × Option (Stop E)) (more : S → S × Option (Stop E))
      → IsKept r.1
      → ((s : S) → finish_after fn (go_on (walk_entry fn) v (visit_after fn v (loop s)) k) ≡ more s)
      → finish_after fn (go_on (walk_entry fn) v (visit_after fn v (emit_next fn entries r loop)) k)
        ≡ and_then r more
  emitted v entries (s, none) k loop more ok h = h s
  emitted v entries (s, some (failed e)) k loop more ok h = refl
  emitted v entries (s, some skip_dir) k loop more ok h = absurd ok
  emitted v entries (s, some skip_all) k loop more ok h = absurd ok

  -- The walker at one visit, and what follows, is a walk of the entries before it, of the visit, and
  -- of what follows.
  pub visit-visit_each :
      (v : Visit) (entries : List SyntheticEntry) (s : S) (k : Rest)
      (more : List SyntheticEntry → List Visit)
      → ((left : List SyntheticEntry) (s : S)
          → finish_after fn (k none (left, s)) ≡ visit_each fn (more left) s)
      → finish_after fn (
          go_on
            (walk_entry fn)
            v
            (visit_after fn v (emit_before fn (path_text v.names) entries s))
            k)
        ≡ visit_each fn (merge_before v more entries) s
  unfolding emit_before visit_each
  visit-visit_each v [] s k more h =
      last_call v [] (fn v s) k (visit_each fn (more [])) (kept v s) (h [])
  visit-visit_each v (e ∷ entries) s k more h =
      elim (Bool-cases (lt_bytes (path_text e.names) (path_text v.names))) [
        | inl c ↦
            rw (c, emit_before, merge_before)
              (emitted v (e ∷ entries) (fn (visit_of e) s) k
                (emit_before fn (path_text v.names) entries)
                (visit_each fn (merge_before v more entries)) (kept (visit_of e) s)
                (λ s'. visit-visit_each v entries s' k more h))
        | inr c ↦
            rw (c, emit_before, merge_before)
              (last_call v (e ∷ entries) (fn v s) k (visit_each fn (more (e ∷ entries))) (kept v s)
                (h (e ∷ entries)))
      ]

  pub whole-visit_each :
      (found : List Found) (entries : List SyntheticEntry) (s : S)
      → finish_after fn (walk_met (walk_entry fn) none (readable found) (entries, s))
        ≡ visit_each fn (merged (visits_of found) entries) s
  unfolding walk_met walk_entry
  whole-visit_each [] entries s = finish-visit_each entries s
  whole-visit_each (f ∷ found) entries s = elim (Option-cases (cached_visit f)) [
    | inl skipped ↦ rw (skipped, walk_met, visits_of) (whole-visit_each found entries s)
    | inr (v, seen) ↦
        rw (seen, walk_met, visits_of)
          (visit-visit_each v entries s (λ dir. walk_met (walk_entry fn) dir (readable found))
            (merged (visits_of found)) (whole-visit_each found))
  ]
