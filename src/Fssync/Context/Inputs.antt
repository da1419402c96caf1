-- ===== src/Fssync/Context/Inputs.antt =====
-- Which Dockerfile inputs `FS.Walk` lists, told apart from the code.
use container_builder_shim.Common.{
  Bool, true, false, ◌&&◌, not, Option, none, some, List, [], ◌∷◌, ◌++◌, ◌≡◌, ◌≢◌, refl, sym, ap,
  ap₂, ◌∙◌, subst, ◌⊎◌, inl, inr, if◌then◌else◌, ◌==◌, bytes_eq, equal_of, of_equal, Bool-cases,
  map, length, arith,
}
use container_builder_shim.Common.Bytes.{Bytes, codes}
use container_builder_shim.Common.Text.{join, trim_space}
use container_builder_shim.Common.Path.{split, comma, clean_text, path_eq}
use container_builder_shim.Fssync.Walk.{
  Visit, path_text, SyntheticEntry, Proxy, visit_of, staged_dockerfile, staged_dockerignore,
  is_staged, is_requested, keep_staged, requested_synthetic_dockerfile_paths, synthetic_entries,
  below_staging,
}
use container_builder_shim.Fssync.Context.{WalkMetadata, follow_paths_for}

-- The paths to follow are the request's, or those of the Dockerfile where it has none.
pub data Follows (md : WalkMetadata) (p : Proxy) : Bytes → Type 0 where
  of_request : md.follow_paths ≢ [] → Follows md p md.follow_paths
  of_dockerfile : md.follow_paths ≡ [] → Follows md p (join (comma ∷ []) p.added_globs)

-- One of the paths, without spaces around it and cleaned, is this path.
abbrev pub Asks : List Bytes → Bytes → Type 0
Asks [] path = ⊥
Asks (f ∷ fields) path = (clean_text (trim_space f) ≡ path) ⊎ Asks fields path

abbrev pub staging_visit : Visit
staging_visit = record {
  names = codes ".com.apple.container" ∷ [];
  size = 0;
  mode = 2147484141;
  is_dir = true;
  link_name = [];
}

abbrev pub input_visit : Bytes → Bytes → Visit
input_visit name contents = record {
  names = codes ".com.apple.container" ∷ name ∷ [];
  size = length contents;
  mode = 420;
  is_dir = false;
  link_name = [];
}

-- An input is listed exactly if it is asked for and has contents.
pub data IsPart (fields : List Bytes) (path name contents : Bytes) : List Visit → Type 0 where
  present :
      Asks fields path
      → contents ≢ []
      → IsPart fields path name contents (input_visit name contents ∷ [])
  absent : (Asks fields path → contents ≡ []) → IsPart fields path name contents []

-- The staging directory comes before its files, and only with one.
pub data IsStagedList : List Visit → List Visit → Type 0 where
  no_file : IsStagedList [] []
  with_files : (v : Visit) (vs : List Visit) → IsStagedList (v ∷ vs) (staging_visit ∷ v ∷ vs)

pub data Inputs (md : WalkMetadata) : Option Proxy → List Visit → Type 0 where
  without : Inputs md none []
  inputs :
      (p : Proxy) (follow : Bytes) (a b out : List Visit)
      → Follows md p follow
      → IsPart
          (split comma follow)
          (codes ".com.apple.container/Dockerfile")
          (codes "Dockerfile")
          p.dockerfile
          a
      → IsPart
          (split comma follow)
          (codes ".com.apple.container/Dockerfile.dockerignore")
          (codes "Dockerfile.dockerignore")
          p.dockerignore
          b
      → IsStagedList (a ++ b) out
      → Inputs md (some p) out

requested-Asks :
    (fields names : List Bytes)
    → is_requested (keep_staged fields) names ≡ true
    → Asks fields (path_text names)
unfolding is_requested
requested-Asks [] names e = absurd cc
requested-Asks (f ∷ fields) names e = elim (Bool-cases (is_staged (clean_text (trim_space f)))) [
  | inr c ↦ inr (requested-Asks fields names (simp c at e))
  | inl c ↦ elim (Bool-cases (clean_text (trim_space f) == path_text names)) [
    | inl d ↦ inl (equal_of (clean_text (trim_space f)) (path_text names) d)
    | inr d ↦ inr (requested-Asks fields names (simp (c, d, is_requested) at e))
  ]
]

Asks-requested :
    (fields names : List Bytes)
    → is_staged (path_text names) ≡ true
    → Asks fields (path_text names)
    → is_requested (keep_staged fields) names ≡ true
unfolding is_requested
Asks-requested [] names staged asked = absurd asked
Asks-requested (f ∷ fields) names staged (inl here) =
    let c : is_staged (clean_text (trim_space f)) ≡ true =
      subst (λ x. is_staged x ≡ true) (sym here) staged in
    let d = of_equal (clean_text (trim_space f)) (path_text names) here in
    rw (c, is_requested) (rw d refl)
Asks-requested (f ∷ fields) names staged (inr there) =
    let rest = Asks-requested fields names staged there in
    elim (Bool-cases (is_staged (clean_text (trim_space f)))) [
      | inr c ↦ rw c rest
      | inl c ↦ elim (Bool-cases (clean_text (trim_space f) == path_text names)) [
        | inl d ↦ rw (c, is_requested) (rw d refl)
        | inr d ↦ rw (c, is_requested) (rw d rest)
      ]
    ]

abbrev listed_if : Bool → Visit → List Visit
listed_if b v = if b then v ∷ [] else []

part-eq :
    (fields names : List Bytes) (name contents : Bytes) (part : List Visit)
    → is_staged (path_text names) ≡ true
    → IsPart fields (path_text names) name contents part
    → part
      ≡ listed_if
          (is_requested (keep_staged fields) names && not (contents == []))
          (input_visit name contents)
part-eq fields names name contents _ staged (present asked full) =
    let a = Asks-requested fields names staged asked in
    elim (Bool-cases (contents == [])) [
      | inl e ↦ absurd (full (equal_of contents [] e))
      | inr e ↦ rw (a, e) refl
    ]
part-eq fields names name contents _ staged (absent h) =
    elim (Bool-cases (is_requested (keep_staged fields) names)) [
      | inr a ↦ rw a refl
      | inl a ↦ let e = of_equal contents [] (h (requested-Asks fields names a)) in rw (a, e) refl
    ]

abbrev with_staging : List Visit → List Visit
with_staging [] = []
with_staging (v ∷ vs) = staging_visit ∷ v ∷ vs

staged-eq : {vs out : List Visit} → IsStagedList vs out → out ≡ with_staging vs
staged-eq no_file = refl
staged-eq (with_files v vs) = refl

entries-eq :
    (first second : Bool) (contents ignore : Bytes)
    → (let f : SyntheticEntry = record { names = staged_dockerfile; contents = contents } in
        let g : SyntheticEntry = record { names = staged_dockerignore; contents = ignore } in
        let rest : List SyntheticEntry = if second then g ∷ [] else [] in
        with_staging (
          listed_if first (input_visit (codes "Dockerfile") contents)
          ++ listed_if second (input_visit (codes "Dockerfile.dockerignore") ignore))
        ≡ map visit_of (below_staging (if first then f ∷ rest else rest)))
unfolding visit_of path_eq
entries-eq true true contents ignore = refl
entries-eq true false contents ignore = refl
entries-eq false true contents ignore = refl
entries-eq false false contents ignore = refl

follow_paths_for-eq :
    (md : WalkMetadata) (p : Proxy) {follow : Bytes}
    → Follows md p follow
    → follow_paths_for md (some p) ≡ follow
unfolding follow_paths_for
follow_paths_for-eq md p (of_request e) = ground arith
follow_paths_for-eq md p (of_dockerfile e) = rw e refl

are_staged :
    (is_staged (path_text staged_dockerfile) ≡ true)
    × (is_staged (path_text staged_dockerignore) ≡ true)
unfolding is_staged path_text
are_staged = (refl, refl)

-- The synthetic entries of a walk.
abbrev pub entries_for : WalkMetadata → Option Proxy → List SyntheticEntry
entries_for md proxy =
    synthetic_entries proxy (requested_synthetic_dockerfile_paths (follow_paths_for md proxy))

staged_entries-eq :
    (p : Proxy) (follow : Bytes) (a b out : List Visit)
    → IsPart
        (split comma follow)
        (codes ".com.apple.container/Dockerfile")
        (codes "Dockerfile")
        p.dockerfile
        a
    → IsPart
        (split comma follow)
        (codes ".com.apple.container/Dockerfile.dockerignore")
        (codes "Dockerfile.dockerignore")
        p.dockerignore
        b
    → IsStagedList (a ++ b) out
    → out ≡ map visit_of (synthetic_entries (some p) (requested_synthetic_dockerfile_paths follow))
unfolding synthetic_entries requested_synthetic_dockerfile_paths path_text
staged_entries-eq p follow a b out first second staged =
    let fields = split comma follow in
    staged-eq staged
    ∙ ap₂ (λ x y. with_staging (x ++ y))
        (part-eq fields staged_dockerfile (codes "Dockerfile") p.dockerfile a are_staged.0 first)
        (part-eq fields staged_dockerignore (codes "Dockerfile.dockerignore") p.dockerignore b
          are_staged.1 second)
    ∙ entries-eq (is_requested (keep_staged fields) staged_dockerfile && not (p.dockerfile == []))
        (is_requested (keep_staged fields) staged_dockerignore && not (p.dockerignore == []))
        p.dockerfile p.dockerignore

pub Inputs-eq :
    {md : WalkMetadata} {proxy : Option Proxy} {out : List Visit}
    → Inputs md proxy out
    → out ≡ map visit_of (entries_for md proxy)
unfolding synthetic_entries
Inputs-eq without = refl
Inputs-eq {md} (inputs p follow a b out f first second staged) =
    staged_entries-eq p follow a b out first second staged
    ∙ ap (λ x. map visit_of (synthetic_entries (some p) (requested_synthetic_dockerfile_paths x)))
        (sym (follow_paths_for-eq md p f))
