-- ===== src/Archive/Unpack/Reserved.antt =====
-- `tarTarget` of pkg/fileutils/tarxfer.go: the paths that an archive may write.
use container_builder_shim.Common.{
  ◌+◌, List, [], ◌∷◌, ◌≡◌, ◌≢◌, refl, ap, sym, subst, ◌∙◌, ◌⊎◌, inl, inr, All, Bool, true, false,
  Bool-cases, arith, length, bytes_eq,
}
use container_builder_shim.Common.Bytes.{Bytes}
use container_builder_shim.Common.Path.{IsName, clean, is_local, clean-All}
use container_builder_shim.Common.Fallible.{Fallible, value, failure}
use container_builder_shim.Archive.Tree.{
  TarPath, Node, directory, Error, follows_symlink, invalid_path, reserved_path,
}
use container_builder_shim.Archive.Unpack.{
  dockerfile_staging, cache_completion_marker, last_first, is_reserved, accepted, tar_target,
}

-- The path is not below the directory of the staged Dockerfile, nor that directory.
abbrev pub IsOutsideStaging : TarPath → Type 0
IsOutsideStaging [] = Unit
IsOutsideStaging (c ∷ []) = c ≢ dockerfile_staging
IsOutsideStaging (c ∷ d ∷ p) = IsOutsideStaging (d ∷ p)

-- What may be an entry: a path of names outside the staging directory, where only a directory has
-- the name of the completion marker.
abbrev pub IsAllowed : TarPath → Node → Type 0
IsAllowed p n =
    All IsName p × IsOutsideStaging p × (p ≡ cache_completion_marker ∷ [] → n ≡ directory)

pub parent-IsAllowed :
    (c d : Bytes) (p : TarPath) (n : Node) → IsAllowed (c ∷ d ∷ p) n → IsAllowed (d ∷ p) directory
parent-IsAllowed c d p n (names, outside, marker) = (names.1, outside, λ _. refl)

last_first-All :
    (acc s : List Bytes) → All IsName acc → All IsName s → All IsName (last_first acc s)
last_first-All acc [] h k = h
last_first-All acc (c ∷ s) h k = last_first-All (c ∷ acc) s (k.0, h) k.1

last_first-IsOutsideStaging :
    (d : Bytes) (acc s : List Bytes)
    → IsOutsideStaging (d ∷ acc)
    → IsOutsideStaging (last_first (d ∷ acc) s)
last_first-IsOutsideStaging d acc [] h = h
last_first-IsOutsideStaging d acc (c ∷ s) h = last_first-IsOutsideStaging c (d ∷ acc) s h

last_first_onto :
    (c : Bytes) (acc s : List Bytes)
    → (d : Bytes) × (p : TarPath) × (last_first (c ∷ acc) s ≡ d ∷ p)
      × (length p ≡ length acc + length s)
last_first_onto c acc [] = (c, acc, refl, omega arith)
last_first_onto c acc (b ∷ s) =
    let (d, p, e, n) = last_first_onto b (c ∷ acc) s in (d, p, e, omega (arith, n))

not_reserved :
    (c : Bytes) (names : List Bytes) → is_reserved (c ∷ names) ≡ false → c ≢ dockerfile_staging
unfolding is_reserved
not_reserved c [] h = ground arith
not_reserved c (_ ∷ _) h = ground arith

not_marker :
    (c : Bytes) (names : List Bytes)
    → is_reserved (c ∷ names) ≡ false
    → last_first [] (c ∷ names) ≢ cache_completion_marker ∷ []
unfolding is_reserved
not_marker c [] h e = let same : c ≡ cache_completion_marker = cc in ground arith
not_marker c (b ∷ names) h e =
    let (d, p, f, n) = last_first_onto b (c ∷ []) names in
    let m : length (d ∷ p) ≡ 1 = ap length (sym f ∙ e) in omega (arith, n, m)

-- A path that is accepted has a name, and may be any entry; no other outcome is the tree's.
abbrev pub AcceptsOrFails : Fallible Error TarPath → Type 0
AcceptsOrFails r =
    ((c : Bytes) × (p : TarPath) × (r ≡ value (c ∷ p)) × ((n : Node) → IsAllowed (c ∷ p) n))
    ⊎ ((e : Error) × (r ≡ failure e) × (e ≢ follows_symlink))

accepted-cases :
    (local : Bool) (names : List Bytes) → All IsName names → AcceptsOrFails (accepted local names)
accepted-cases local [] h = inr (invalid_path, refl, λ e. cc)
accepted-cases false (c ∷ names) h = inr (invalid_path, refl, λ e. cc)
accepted-cases true (c ∷ names) h = elim (Bool-cases (is_reserved (c ∷ names))) [
  | inl e ↦ inr (reserved_path, rw e refl, λ e. cc)
  | inr e ↦
      let (d, p, f, _) = last_first_onto c [] names in
      let all : All IsName (d ∷ p) = subst (All IsName) f (last_first-All [] (c ∷ names) tt h) in
      let outside : IsOutsideStaging (d ∷ p) =
        subst IsOutsideStaging f
          (last_first-IsOutsideStaging c [] names (not_reserved c names e)) in
      inl (d, p, rw e (ap value f), λ n. (all, outside, λ g. absurd (not_marker c names e (f ∙ g))))
]

pub tar_target-cases : (name : Bytes) → AcceptsOrFails (tar_target name)
unfolding tar_target
tar_target-cases name = accepted-cases (is_local (clean name)) (clean name).names (clean-All name)
