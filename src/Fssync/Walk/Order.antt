-- ===== src/Fssync/Walk/Order.antt =====
-- The order of the merged walk of pkg/fssync/walk.go: a directory before what is in it, and the names
-- of a directory in the order of their bytes, which is the order that BuildKit's receiver asks for.
use container_builder_shim.Common.{
  append_nil, append_assoc, Bool, true, false, Bool-cases, Option, none, some, List, [], ◌∷◌, ◌++◌,
  ◌≡◌, ◌≢◌, refl, sym, ◌∙◌, subst, ◌⊎◌, inl, inr, map, All, if◌then◌else◌, ◌==◌, bytes_eq, nat_eq,
  arith, not, ◌&&◌,
}
use container_builder_shim.Common.Bytes.{Bytes}
use container_builder_shim.Common.Text.{join}
use container_builder_shim.Common.Path.{lt_bytes, slash, path_eq}
use container_builder_shim.Archive.Unpack.{dockerfile_staging}
use container_builder_shim.Fssync.Walk.{
  Visit, path_text, SyntheticEntry, Proxy, visit_of, synthetic_entries, is_requested, staging_entry,
  below_staging, staged_dockerfile, staged_dockerignore,
}
use container_builder_shim.Fssync.Walk.Merge.{Interleaves, merge_before, merged, merged-Interleaves}

-- The order of a walk, name by name.
unfoldable pub lt_path : List Bytes → List Bytes → Bool
unfolding bytes_eq
lt_path [] [] = false
lt_path [] (_ ∷ _) = true
lt_path (_ ∷ _) [] = false
lt_path (a ∷ p) (b ∷ q) = if a == b then lt_path p q else lt_bytes a b

abbrev pub Precedes : Visit → List Visit → Type 0
Precedes v [] = Unit
Precedes v (w ∷ _) = lt_path v.names w.names ≡ true

-- Each visit is before the next.
abbrev pub Ordered : List Visit → Type 0
Ordered [] = Unit
Ordered (v ∷ visits) = Precedes v visits × Ordered visits

-- The names differ at some byte that both have.
abbrev pub Apart : Bytes → Bytes → Type 0
Apart [] t = ⊥
Apart (b ∷ s) [] = ⊥
Apart (b ∷ s) (c ∷ t) = (b ≢ c) ⊎ ((b ≡ c) × Apart s t)

lt-Apart : (s t x y : Bytes) → Apart s t → lt_bytes (s ++ x) (t ++ y) ≡ lt_bytes s t
unfolding lt_bytes
lt-Apart [] t x y h = absurd h
lt-Apart (b ∷ s) [] x y h = absurd h
lt-Apart (b ∷ s) (c ∷ t) x y (inl other) = ground arith
lt-Apart (b ∷ s) (c ∷ t) x y (inr (same, h)) = ground (arith, lt-Apart s t x y h)

lt-total : (s t : Bytes) → Apart s t → lt_bytes s t ≡ false → lt_bytes t s ≡ true
unfolding lt_bytes
lt-total [] t h e = absurd h
lt-total (b ∷ s) [] h e = absurd h
lt-total (b ∷ s) (c ∷ t) (inl other) e = ground arith
lt-total (b ∷ s) (c ∷ t) (inr (same, h)) e = ground (arith, lt-total s t h)

Apart-differ : (s t : Bytes) → Apart s t → s ≢ t
Apart-differ [] t h e = h
Apart-differ (b ∷ s) [] h e = h
Apart-differ (b ∷ s) (c ∷ t) (inl other) e = other cc
Apart-differ (b ∷ s) (c ∷ t) (inr (same, h)) e = Apart-differ s t h cc

-- A path starts with its first name.
path_text_first : (c : Bytes) (p : List Bytes) → (x : Bytes) × (path_text (c ∷ p) ≡ c ++ x)
unfolding path_text join
path_text_first c [] = ([], sym (append_nil c))
path_text_first c (d ∷ p) =
    (slash ∷ join (slash ∷ []) (d ∷ p), append_assoc c (slash ∷ []) (join (slash ∷ []) (d ∷ p)))

-- Where the first names are apart the order of the bytes is that of the walk.
text-eq-path :
    (c d : Bytes) (p q : List Bytes)
    → Apart c d
    → lt_bytes (path_text (c ∷ p)) (path_text (d ∷ q)) ≡ lt_path (c ∷ p) (d ∷ q)
unfolding lt_path
text-eq-path c d p q h =
    let (x, e) = path_text_first c p in
    let (y, f) = path_text_first d q in
    let differ = Apart-differ c d h in rw (e, f, lt-Apart c d x y h) (ground arith)

path-total :
    (c d : Bytes) (p q : List Bytes)
    → Apart c d
    → lt_path (c ∷ p) (d ∷ q) ≡ false
    → lt_path (d ∷ q) (c ∷ p) ≡ true
unfolding lt_path
path-total c d p q h e = let differ = Apart-differ c d h in ground (arith, lt-total c d h)

-- A path of the staging directory, and a path that is apart from it.
abbrev pub IsStaged : List Bytes → Type 0
IsStaged names = (p : List Bytes) × (names ≡ dockerfile_staging ∷ p)

abbrev pub IsApart : Visit → Type 0
IsApart v = (d : Bytes) × (q : List Bytes) × (v.names ≡ d ∷ q) × Apart dockerfile_staging d

visit_names : (e : SyntheticEntry) → (visit_of e).names ≡ e.names
unfolding visit_of
visit_names e = ground arith

Precedes-merged :
    (u : Visit) (visits : List Visit) (entries : List SyntheticEntry)
    → Precedes u visits
    → Precedes u (map visit_of entries)
    → Precedes u (merged visits entries)
Precedes-merged u [] entries h k = k
Precedes-merged u (v ∷ visits) [] h k = h
Precedes-merged u (v ∷ visits) (e ∷ entries) h k =
    elim (Bool-cases (lt_bytes (path_text e.names) (path_text v.names))) [
      | inl c ↦ rw (c, merge_before) k
      | inr c ↦ rw (c, merge_before) h
    ]

-- The entry goes before the visit where its path is less, and after it where it is not.
entry_first :
    (e : SyntheticEntry) (v : Visit)
    → IsStaged e.names
    → IsApart v
    → lt_bytes (path_text e.names) (path_text v.names) ≡ true
    → lt_path (visit_of e).names v.names ≡ true
entry_first e v (p, a) (d, q, b, apart) c =
    rw (visit_names e, a, b)
      (sym (text-eq-path dockerfile_staging d p q apart)
        ∙ subst (λ n. lt_bytes (path_text n) (path_text (d ∷ q)) ≡ true) a
            (subst (λ n. lt_bytes (path_text e.names) (path_text n) ≡ true) b c))

entry_last :
    (e : SyntheticEntry) (v : Visit)
    → IsStaged e.names
    → IsApart v
    → lt_bytes (path_text e.names) (path_text v.names) ≡ false
    → lt_path v.names (visit_of e).names ≡ true
entry_last e v (p, a) (d, q, b, apart) c =
    rw (visit_names e, a, b)
      (path-total dockerfile_staging d p q apart (
        sym (text-eq-path dockerfile_staging d p q apart)
        ∙ subst (λ n. lt_bytes (path_text n) (path_text (d ∷ q)) ≡ false) a
            (subst (λ n. lt_bytes (path_text e.names) (path_text n) ≡ false) b c)))

merge_before-Ordered :
    (v : Visit) (visits : List Visit) (entries : List SyntheticEntry)
    → Precedes v visits
    → IsApart v
    → ((left : List SyntheticEntry)
        → All (λ e. IsStaged e.names) left
        → Ordered (map visit_of left)
        → Ordered (merged visits left))
    → All (λ e. IsStaged e.names) entries
    → Ordered (map visit_of entries)
    → Ordered (merged (v ∷ visits) entries)
merge_before-Ordered v visits [] next apart more staged ordered =
    (Precedes-merged v visits [] next tt, more [] tt tt)
merge_before-Ordered v visits (e ∷ entries) next apart more staged ordered =
    elim (Bool-cases (lt_bytes (path_text e.names) (path_text v.names))) [
      | inl c ↦
          rw (c, merge_before)
            (
              Precedes-merged (visit_of e) (v ∷ visits) entries (entry_first e v staged.0 apart c)
                  ordered.0,
              merge_before-Ordered v visits entries next apart more staged.1 ordered.1,
            )
      | inr c ↦
          rw (c, merge_before)
            (
              Precedes-merged v visits (e ∷ entries) next (entry_last e v staged.0 apart c),
              more (e ∷ entries) staged ordered,
            )
    ]

merged-Ordered :
    (visits : List Visit) (entries : List SyntheticEntry)
    → All (λ e. IsStaged e.names) entries
    → Ordered (map visit_of entries)
    → Ordered visits
    → All IsApart visits
    → Ordered (merged visits entries)
merged-Ordered [] entries staged ordered sorted apart = ordered
merged-Ordered (v ∷ visits) entries staged ordered sorted apart =
    merge_before-Ordered v visits entries sorted.0 apart.0
      (λ left a b. merged-Ordered visits left a b sorted.1 apart.1) staged ordered

abbrev IsStagedWalk : List SyntheticEntry → Type 0
IsStagedWalk entries = All (λ e. IsStaged e.names) entries × Ordered (map visit_of entries)

entry_before :
    (e f : SyntheticEntry)
    → lt_path e.names f.names ≡ true
    → lt_path (visit_of e).names (visit_of f).names ≡ true
entry_before e f h = rw (visit_names e, visit_names f) h

staging_first :
    (lt_path staging_entry.names staged_dockerfile ≡ true)
    × (lt_path staging_entry.names staged_dockerignore ≡ true)
    × (lt_path staged_dockerfile staged_dockerignore ≡ true)
unfolding lt_path lt_bytes
staging_first = (refl, refl, refl)

picked :
    (first second : Bool) (contents ignore : Bytes)
    → (let f : SyntheticEntry = record { names = staged_dockerfile; contents = contents } in
        let g : SyntheticEntry = record { names = staged_dockerignore; contents = ignore } in
        let rest : List SyntheticEntry = if second then g ∷ [] else [] in
        IsStagedWalk (below_staging (if first then f ∷ rest else rest)))
picked false false contents ignore = (tt, tt)
picked true false contents ignore =
    (((_, refl), ((_, refl), tt)), (entry_before staging_entry _ staging_first.0, (tt, tt)))
picked false true contents ignore =
    (((_, refl), ((_, refl), tt)), (entry_before staging_entry _ staging_first.1, (tt, tt)))
picked true true contents ignore = (
  ((_, refl), ((_, refl), ((_, refl), tt))),
  (entry_before staging_entry _ staging_first.0, (entry_before _ _ staging_first.2, (tt, tt))),
)

synthetic_entries-Ordered :
    (proxy : Option Proxy) (requested : List Bytes)
    → IsStagedWalk (synthetic_entries proxy requested)
unfolding synthetic_entries
synthetic_entries-Ordered none requested = (tt, tt)
synthetic_entries-Ordered (some proxy) requested =
    picked (is_requested requested staged_dockerfile && not (proxy.dockerfile == []))
      (is_requested requested staged_dockerignore && not (proxy.dockerignore == []))
      proxy.dockerfile proxy.dockerignore

-- The merged list has every visit of the cache and one of every synthetic entry, and is in order
-- where the cached context is, and where each of its first names differs from the staging
-- directory's at a byte that both have.
pub merged_staged-Ordered :
    (proxy : Option Proxy) (requested : List Bytes) (visits : List Visit)
    → Ordered visits
    → All IsApart visits
    → Interleaves
        (map visit_of (synthetic_entries proxy requested))
        visits
        (merged visits (synthetic_entries proxy requested))
      × Ordered (merged visits (synthetic_entries proxy requested))
merged_staged-Ordered proxy requested visits sorted apart =
    let entries = synthetic_entries proxy requested in
    let (staged, ordered) = synthetic_entries-Ordered proxy requested in
    (merged-Interleaves visits entries, merged-Ordered visits entries staged ordered sorted apart)
