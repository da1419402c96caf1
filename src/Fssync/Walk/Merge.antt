-- ===== src/Fssync/Walk/Merge.antt =====
-- `syntheticDockerfileWalker` of pkg/fssync/walk.go is a merge of two walks.
use container_builder_shim.Common.{true, false, Bool-cases, List, [], ◌∷◌, inl, inr, map}
use container_builder_shim.Common.Path.{lt_bytes}
use container_builder_shim.Fssync.Walk.{Visit, path_text, SyntheticEntry, visit_of}

-- The third list is the first two, each in its order.
pub data Interleaves : List Visit → List Visit → List Visit → Type 0 where
  neither : Interleaves [] [] []
  of_first : (v : Visit) (a b c : List Visit) → Interleaves a b c → Interleaves (v ∷ a) b (v ∷ c)
  of_second : (v : Visit) (a b c : List Visit) → Interleaves a b c → Interleaves a (v ∷ b) (v ∷ c)

-- A visit after the entries before it, and what follows of those that are left.
abbrev pub merge_before :
    Visit → (List SyntheticEntry → List Visit) → List SyntheticEntry → List Visit
merge_before v more [] = v ∷ more []
merge_before v more (e ∷ entries) = elim (lt_bytes (path_text e.names) (path_text v.names)) [
  | true ↦ visit_of e ∷ merge_before v more entries
  | false ↦ v ∷ more (e ∷ entries)
]

abbrev pub merged : List Visit → List SyntheticEntry → List Visit
merged [] entries = map visit_of entries
merged (v ∷ visits) entries = merge_before v (merged visits) entries

only_first :
    (entries : List SyntheticEntry) → Interleaves (map visit_of entries) [] (map visit_of entries)
only_first [] = neither
only_first (e ∷ entries) = of_first (visit_of e) _ _ _ (only_first entries)

merge_before-Interleaves :
    (v : Visit) (visits : List Visit) (entries : List SyntheticEntry)
    → ((left : List SyntheticEntry) → Interleaves (map visit_of left) visits (merged visits left))
    → Interleaves (map visit_of entries) (v ∷ visits) (merge_before v (merged visits) entries)
merge_before-Interleaves v visits [] h = of_second v _ _ _ (h [])
merge_before-Interleaves v visits (e ∷ entries) h =
    elim (Bool-cases (lt_bytes (path_text e.names) (path_text v.names))) [
      | inl c ↦
          rw (c, merge_before)
            (of_first (visit_of e) _ _ _ (merge_before-Interleaves v visits entries h))
      | inr c ↦ rw (c, merge_before) (of_second v _ _ _ (h (e ∷ entries)))
    ]

pub merged-Interleaves :
    (visits : List Visit) (entries : List SyntheticEntry)
    → Interleaves (map visit_of entries) visits (merged visits entries)
merged-Interleaves [] entries = only_first entries
merged-Interleaves (v ∷ visits) entries =
    merge_before-Interleaves v visits entries (merged-Interleaves visits)
