-- ===== src/Archive/Cache/Publish.antt =====
-- `publishTar` of pkg/fileutils/tarxfer.go: what another process can see while it runs, and after.
use container_builder_shim.Common.{
  ℕ, Bool, true, false, Bool-cases, Option, none, some, Option-cases, List, [], ◌≡◌, ◌≢◌, refl, ap,
  inl, inr, ◌⊎◌, All, of_equal, arith, bytes_eq,
}
use container_builder_shim.Common.Dict.{lookup, insert, lookup-insert}
use container_builder_shim.Common.Path.{path_eq}
use container_builder_shim.Common.Fallible.{Fallible, value, failure, >>=-value}
use container_builder_shim.Archive.Tree.{Node, directory, regular, symlink, Tree, Error}
use container_builder_shim.Archive.Unpack.{Header, unpack}
use container_builder_shim.Archive.Cache.{
  Slot, vacant, holds, marker_path, cache_completion_value, is_complete, check_cache, Calls, locked,
  lock_is_symlink, lock_is_inaccessible, lock_is_refused, State, at_marker, write_marker, fill,
  Outcome, rename_filled, replace, under_lock, LockCall, replace_if, publish_tar, settled,
}

-- The slot has the whole archive, unpacked, and the marker.
abbrev pub IsWhole : List (Option Header) → Slot → Type 0
IsWhole headers slot =
    (t : Tree) × (m : ℕ) × (unpack [] headers ≡ value t)
    × (slot ≡ holds (insert marker_path (regular cache_completion_value m) t))

at_marker_value :
    (t : Tree) (o : Option Node) (u : Tree)
    → at_marker t o ≡ value u
    → (m : ℕ) × (u ≡ insert marker_path (regular cache_completion_value m) t)
at_marker_value t none u e = (384, cc)
at_marker_value t (some (regular _ mode)) u e = (mode, cc)
at_marker_value t (some directory) u e = absurd cc
at_marker_value t (some (symlink _)) u e = absurd cc

fill_value :
    (writes : Bool) (headers : List (Option Header)) (u : Tree)
    → fill writes headers ≡ value u
    → IsWhole headers (holds u)
unfolding fill write_marker
fill_value false headers u e = let (t, a, b) = >>=-value (unpack [] headers) _ e in absurd cc
fill_value true headers u e =
    let (t, a, b) = >>=-value (unpack [] headers) (λ t. write_marker true t) e in
    let (m, c) = at_marker_value t (lookup marker_path t) u b in (t, m, a, ap holds c)

complete_value : is_complete cache_completion_value ≡ true
unfolding is_complete
complete_value = of_equal cache_completion_value cache_completion_value refl

marked : (t : Tree) (n : Node) → lookup marker_path (insert marker_path n t) ≡ some n
marked t n = ground (arith, lookup-insert marker_path marker_path n t)

-- A tree with the marker is complete.
pub whole_is_complete :
    (headers : List (Option Header)) (slot : Slot)
    → IsWhole headers slot
    → check_cache slot ≡ value true
unfolding check_cache
whole_is_complete headers slot (t, m, _, e) =
    rw (e, marked t (regular cache_completion_value m)) (ap value complete_value)

-- What holds of each state that others see: a slot that counts as complete is whole.
abbrev pub Trusted : List (Option Header) → State → Type 0
Trusted headers s = check_cache s.slot ≡ value true → IsWhole headers s.slot

empty_trusted :
    (headers : List (Option Header)) → check_cache vacant ≡ value true → IsWhole headers vacant
unfolding check_cache
empty_trusted headers e = absurd cc

rename_filled-All :
    (renames : Bool) (headers : List (Option Header)) (r : Fallible Error Tree)
    → ((u : Tree) → r ≡ value u → IsWhole headers (holds u))
    → All (Trusted headers) (rename_filled renames r).0
rename_filled-All renames headers (failure e) h =
    (empty_trusted headers, (empty_trusted headers, (empty_trusted headers, tt)))
rename_filled-All true headers (value t) h =
    ((λ _. h t refl), (empty_trusted headers, (empty_trusted headers, tt)))
rename_filled-All false headers (value t) h =
    (empty_trusted headers, (empty_trusted headers, (empty_trusted headers, tt)))

replace-All :
    (calls : Calls) (headers : List (Option Header))
    → ((left : Slot) → calls.removal ≡ some left → check_cache left ≢ value true)
    → All (Trusted headers) (replace calls headers).0
unfolding replace
replace-All calls headers leaves = elim (Option-cases calls.removal) [
  | inr (left, e) ↦ rw e ((λ h. absurd (leaves left e h)), tt)
  | inl e ↦ rw e (elim (Bool-cases calls.makes_temp) [
    | inl f ↦ rw f (
        rename_filled-All calls.renames headers (fill calls.writes_marker headers)
          (fill_value calls.writes_marker headers))
    | inr f ↦ rw f (empty_trusted headers, tt)
  ])
]

replace_if-All :
    (headers : List (Option Header)) (r : Fallible Error Bool) (o : Outcome)
    → All (Trusted headers) o.0
    → All (Trusted headers) (replace_if r o).0
replace_if-All headers (failure e) o h = tt
replace_if-All headers (value true) o h = tt
replace_if-All headers (value false) o h = h

under_lock-All :
    (headers : List (Option Header)) (l : LockCall) (o : Outcome)
    → All (Trusted headers) o.0
    → All (Trusted headers) (under_lock l o).0
under_lock-All headers locked o h = h
under_lock-All headers lock_is_symlink o h = tt
under_lock-All headers lock_is_inaccessible o h = tt
under_lock-All headers lock_is_refused o h = tt

-- If a removal that fails leaves nothing complete, then in every state that the calls of
-- `publishTar` go through, a slot that counts as complete holds the whole archive, unpacked, and
-- the marker. So neither a crash nor a failed call leaves a cached context that is complete in name only.
pub publish_tar-All :
    (calls : Calls) (slot : Slot) (headers : List (Option Header))
    → ((left : Slot) → calls.removal ≡ some left → check_cache left ≢ value true)
    → All (Trusted headers) (publish_tar calls slot headers).0
unfolding publish_tar
publish_tar-All calls slot headers leaves = under_lock-All headers calls.lock _ (
    replace_if-All headers (check_cache slot) (replace calls headers)
      (replace-All calls headers leaves))

-- At the end there is no temporary directory, and where there is no error the slot is complete.
abbrev pub IsSettled : Slot → Outcome → Type 0
IsSettled slot o =
    ((settled slot o.0).temp ≡ false)
    × (o.1 ≡ none → check_cache (settled slot o.0).slot ≡ value true)

rename_filled-IsSettled :
    (slot : Slot) (renames : Bool) (headers : List (Option Header)) (r : Fallible Error Tree)
    → ((u : Tree) → r ≡ value u → IsWhole headers (holds u))
    → IsSettled slot (rename_filled renames r)
rename_filled-IsSettled slot renames headers (failure e) h = (refl, λ f. absurd cc)
rename_filled-IsSettled slot true headers (value t) h =
    (refl, λ _. whole_is_complete headers (holds t) (h t refl))
rename_filled-IsSettled slot false headers (value t) h = (refl, λ f. absurd cc)

replace-IsSettled :
    (calls : Calls) (slot : Slot) (headers : List (Option Header))
    → IsSettled slot (replace calls headers)
unfolding replace
replace-IsSettled calls slot headers = elim (Option-cases calls.removal) [
  | inr (left, e) ↦ rw e (refl, λ f. absurd cc)
  | inl e ↦ rw e (elim (Bool-cases calls.makes_temp) [
    | inl f ↦ rw f (
        rename_filled-IsSettled slot calls.renames headers (fill calls.writes_marker headers)
          (fill_value calls.writes_marker headers))
    | inr f ↦ rw f (refl, λ f. absurd cc)
  ])
]

replace_if-IsSettled :
    (slot : Slot) (r : Fallible Error Bool) (o : Outcome)
    → check_cache slot ≡ r
    → IsSettled slot o
    → IsSettled slot (replace_if r o)
replace_if-IsSettled slot (failure e) o at h = (refl, λ f. absurd cc)
replace_if-IsSettled slot (value true) o at h = (refl, λ f. at)
replace_if-IsSettled slot (value false) o at h = h

under_lock-IsSettled :
    (slot : Slot) (l : LockCall) (o : Outcome) → IsSettled slot o → IsSettled slot (under_lock l o)
under_lock-IsSettled slot locked o h = h
under_lock-IsSettled slot lock_is_symlink o h = (refl, λ f. absurd cc)
under_lock-IsSettled slot lock_is_inaccessible o h = (refl, λ f. absurd cc)
under_lock-IsSettled slot lock_is_refused o h = (refl, λ f. absurd cc)

-- Whatever the calls answer, and if the deferred removal of the temporary directory succeeds,
-- `publishTar` leaves no such directory; where it returns no error the slot counts as complete.
pub publish_tar-IsSettled :
    (calls : Calls) (slot : Slot) (headers : List (Option Header))
    → IsSettled slot (publish_tar calls slot headers)
unfolding publish_tar
publish_tar-IsSettled calls slot headers = under_lock-IsSettled slot calls.lock _ (
    replace_if-IsSettled slot (check_cache slot) (replace calls headers) refl
      (replace-IsSettled calls slot headers))

-- What success says: the context was complete, or the archive was put in the slot.
abbrev pub Succeeds : List (Option Header) → Slot → Outcome → Type 0
Succeeds headers slot o =
    o.1 ≡ none
    → ((check_cache slot ≡ value true) × (o.0 ≡ [])) ⊎ IsWhole headers (settled slot o.0).slot

rename_filled-Succeeds :
    (slot : Slot) (renames : Bool) (headers : List (Option Header)) (r : Fallible Error Tree)
    → ((u : Tree) → r ≡ value u → IsWhole headers (holds u))
    → Succeeds headers slot (rename_filled renames r)
rename_filled-Succeeds slot renames headers (failure e) h f = absurd cc
rename_filled-Succeeds slot true headers (value t) h f = inr (h t refl)
rename_filled-Succeeds slot false headers (value t) h f = absurd cc

replace-Succeeds :
    (calls : Calls) (slot : Slot) (headers : List (Option Header))
    → Succeeds headers slot (replace calls headers)
unfolding replace
replace-Succeeds calls slot headers = elim (Option-cases calls.removal) [
  | inr (left, e) ↦ rw e (λ f. absurd cc)
  | inl e ↦ rw e (elim (Bool-cases calls.makes_temp) [
    | inl f ↦ rw f (
        rename_filled-Succeeds slot calls.renames headers (fill calls.writes_marker headers)
          (fill_value calls.writes_marker headers))
    | inr f ↦ rw f (λ f. absurd cc)
  ])
]

replace_if-Succeeds :
    (headers : List (Option Header)) (slot : Slot) (r : Fallible Error Bool) (o : Outcome)
    → check_cache slot ≡ r
    → Succeeds headers slot o
    → Succeeds headers slot (replace_if r o)
replace_if-Succeeds headers slot (failure e) o at h f = absurd cc
replace_if-Succeeds headers slot (value true) o at h f = inl (at, refl)
replace_if-Succeeds headers slot (value false) o at h f = h f

under_lock-Succeeds :
    (headers : List (Option Header)) (slot : Slot) (l : LockCall) (o : Outcome)
    → Succeeds headers slot o
    → Succeeds headers slot (under_lock l o)
under_lock-Succeeds headers slot locked o h f = h f
under_lock-Succeeds headers slot lock_is_symlink o h f = absurd cc
under_lock-Succeeds headers slot lock_is_inaccessible o h f = absurd cc
under_lock-Succeeds headers slot lock_is_refused o h f = absurd cc

pub publish_tar-Succeeds :
    (calls : Calls) (slot : Slot) (headers : List (Option Header))
    → Succeeds headers slot (publish_tar calls slot headers)
unfolding publish_tar
publish_tar-Succeeds calls slot headers = under_lock-Succeeds headers slot calls.lock _ (
    replace_if-Succeeds headers slot (check_cache slot) (replace calls headers) refl
      (replace-Succeeds calls slot headers))
