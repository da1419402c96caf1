-- ===== src/Build/Export/Configured.antt =====
-- pkg/build/build.go: the exports that a build is given, and its temporary file.
use container_builder_shim.Common.{
  suc, ◌<◌, ◌≡◌, ◌≢◌, ◌↔◌, equal_of, of_equal, refl, sym, ap, ◌∙◌, subst, Bool, true, false, not,
  ◌||◌, Option, none, some, List, [], ◌∷◌, if◌then◌else◌, ◌==◌, bytes_eq, length, All, if-cases,
  Bool-cases, Option-cases, inl, inr, arith,
}
use container_builder_shim.Common.Bytes.{Bytes, codes}
use container_builder_shim.Common.Dict.{lookup, lookup-insert}
use container_builder_shim.Common.Fallible.{Fallible, value, failure, >>=-value, Fallible-cases}
use container_builder_shim.Build.{Error, Strings, Externals}
use container_builder_shim.Build.Request.{is_empty}
use container_builder_shim.Common.Fallible.{value-injective}
use container_builder_shim.Build.Request.Maps.{or_else, or_else-none}
use container_builder_shim.Build.Export.{
  ExportEntry, FileSystem, ExportOptions, is_local, set_absent, set_default_export_attributes,
  image_name_annotation, export_path, to_archive, to_directory, with_defaults, configure_export,
  configure_all, needs_writer, or_oci, keep_or_discard, parse_output, write_exports,
  configured_exports,
}

lookup-set_absent :
    (key at tag : Bytes) (attrs : Strings)
    → lookup key (set_absent at tag attrs)
      ≡ or_else (lookup key attrs) (if key == at then some tag else none)
unfolding set_absent
lookup-set_absent key at tag attrs = elim (Option-cases (lookup at attrs)) [
  | inr (v, e) ↦
      rw (e, set_absent)
        (elim (Bool-cases (key == at)) [
          | inl f ↦
              let p : key ≡ at = ground arith in
              let q : lookup key attrs ≡ some v = ap (λ k. lookup k attrs) p ∙ e in rw q refl
          | inr f ↦ rw f (sym (or_else-none (lookup key attrs)))
        ])
  | inl e ↦
      rw (e, set_absent)
        (lookup-insert key at tag attrs ∙ elim (Bool-cases (key == at)) [
          | inl f ↦
              let p : key ≡ at = ground arith in
              let q : lookup key attrs ≡ none = ap (λ k. lookup k attrs) p ∙ e in rw (q, f) refl
          | inr f ↦ rw f (sym (or_else-none (lookup key attrs)))
        ])
]

or_else-two :
    (o : Option Bytes) (a b : Bool) (t : Bytes)
    → or_else (or_else o (if a then some t else none)) (if b then some t else none)
      ≡ or_else o (if a || b then some t else none)
or_else-two (some _) a b t = refl
or_else-two none true b t = refl
or_else-two none false b t = refl

-- The defaults of an export keep every attribute that is there, and add the tag as the name and
-- as the annotation of the image's name where these are missing.
pub lookup-set_default_export_attributes :
    (key tag : Bytes) (attrs : Strings)
    → lookup key (set_default_export_attributes tag attrs)
      ≡ or_else
          (lookup key attrs)
          (if key == codes "name" || key == image_name_annotation then some tag else none)
unfolding set_default_export_attributes
lookup-set_default_export_attributes key tag attrs =
    lookup-set_absent key image_name_annotation tag (set_absent (codes "name") tag attrs)
    ∙ ap (λ o. or_else o (if key == image_name_annotation then some tag else none))
        (lookup-set_absent key (codes "name") tag attrs)
    ∙ or_else-two (lookup key attrs) (key == codes "name") (key == image_name_annotation) tag

-- Where an export goes: to a local directory, or to the archive of the build.
pub record IsPlaced (build_id : Bytes) (e : ExportEntry) : Type 0 where
  pub directory :
      e.kind ≡ codes "local"
      → (lookup (codes "dest") e.attrs ≡ some (export_path build_id (codes "local")))
        × (e.output_dir ≢ [])
  pub archive :
      e.kind ≢ codes "local"
      → (lookup (codes "output") e.attrs ≡ some (export_path build_id (codes "out.tar")))
        × (e.output ≡ true)

abbrev pub AreLocal : List ExportEntry → Type 0
AreLocal = All (λ e. e.kind ≡ codes "local")

local_kind : (e : ExportEntry) → is_local e ≡ true → e.kind ≡ codes "local"
local_kind e h = equal_of e.kind (codes "local") h

kind_local : (e : ExportEntry) → e.kind ≡ codes "local" → is_local e ≡ true
kind_local e h = of_equal e.kind (codes "local") h

needs_writer-AreLocal : (es : List ExportEntry) → needs_writer es ≡ false → AreLocal es
unfolding needs_writer
needs_writer-AreLocal [] h = tt
needs_writer-AreLocal (e ∷ es) h = elim (Bool-cases (is_local e)) [
  | inl f ↦ (local_kind e f, needs_writer-AreLocal es (simp f at h))
  | inr f ↦ absurd (let bad = simp f at h in cc)
]

AreLocal-needs_writer : (es : List ExportEntry) → AreLocal es → needs_writer es ≡ false
unfolding needs_writer
AreLocal-needs_writer [] h = refl
AreLocal-needs_writer (e ∷ es) (h, hs) = rw (kind_local e h) (AreLocal-needs_writer es hs)

same_key : (key : Bytes) → (key == key) ≡ true
same_key key = ground arith

lookup-with_defaults :
    (key tag v : Bytes) (e : ExportEntry)
    → lookup key e.attrs ≡ some v
    → lookup key (with_defaults tag e).attrs ≡ some v
unfolding with_defaults
lookup-with_defaults key tag v e h =
    lookup-set_default_export_attributes key tag e.attrs ∙ rw h refl

directory_dest :
    (build_id : Bytes) (e : ExportEntry)
    → lookup (codes "dest") (to_directory build_id e).attrs
      ≡ some (export_path build_id (codes "local"))
unfolding to_directory
directory_dest build_id e =
    lookup-insert (codes "dest") (codes "dest") (export_path build_id (codes "local")) e.attrs
    ∙ rw (same_key (codes "dest")) refl

archive_output :
    (build_id : Bytes) (e : ExportEntry)
    → lookup (codes "output") (to_archive build_id e).attrs
      ≡ some (export_path build_id (codes "out.tar"))
unfolding to_archive
archive_output build_id e =
    lookup-insert (codes "output") (codes "output") (export_path build_id (codes "out.tar")) e.attrs
    ∙ rw (same_key (codes "output")) refl

filled : (b : Bytes) → is_empty b ≡ false → b ≢ []
filled [] f = absurd cc
filled (_ ∷ _) f = λ bad. absurd cc

directory_filled : (build_id : Bytes) (e : ExportEntry) → (to_directory build_id e).output_dir ≢ []
unfolding to_directory
directory_filled build_id e = elim (Bool-cases (is_empty e.output_dir)) [
  | inl f ↦ rw (f, to_directory) (λ bad. absurd cc)
  | inr f ↦ rw (f, to_directory) (filled e.output_dir f)
]

configure_export-Placed :
    (fs : FileSystem) (build_id tag : Bytes) (e later : ExportEntry)
    → configure_export fs build_id tag e ≡ value later
    → IsPlaced build_id later × (is_local later ≡ is_local e)
unfolding configure_export with_defaults to_directory to_archive
configure_export-Placed fs build_id tag e later h = elim (if-cases (is_local e) _ _ h) [
  | inl (here, k) ↦ elim (Option-cases (fs.mkdir_all (export_path build_id (codes "local")))) [
    | inr (x, f) ↦ absurd (let bad = simp f at k in cc)
    | inl f ↦
        let k' = simp f at k in
        subst (λ x. IsPlaced build_id x × (is_local x ≡ is_local e)) (value-injective k')
          (
            record {
              directory = λ _. (
                lookup-with_defaults (codes "dest") tag _ (to_directory build_id e)
                    (directory_dest build_id e),
                directory_filled build_id e,
              );
              archive = λ bad. absurd (bad (local_kind e here));
            },
            refl,
          )
  ]
  | inr (away, k) ↦
      subst (λ x. IsPlaced build_id x × (is_local x ≡ is_local e)) (value-injective k)
        (
          record {
            directory = λ bad. absurd (let k = kind_local e bad in cc);
            archive = λ _. (
              lookup-with_defaults (codes "output") tag _ (to_archive build_id e)
                  (archive_output build_id e),
              refl,
            );
          },
          refl,
        )
]

configure_all-Placed :
    (fs : FileSystem) (build_id tag : Bytes) (es later : List ExportEntry)
    → configure_all fs build_id tag es ≡ value later
    → All (IsPlaced build_id) later
      × (needs_writer later ≡ needs_writer es)
      × (length later ≡ length es)
unfolding configure_all needs_writer
configure_all-Placed fs build_id tag [] [] h = (tt, refl, refl)
configure_all-Placed fs build_id tag [] (_ ∷ _) h = absurd cc
configure_all-Placed fs build_id tag (e ∷ es) later h =
    let (e', h1, k1) = >>=-value (configure_export fs build_id tag e) _ h in
    let (es', h2, k2) = >>=-value (configure_all fs build_id tag es) _ k1 in
    let (placed, same) = configure_export-Placed fs build_id tag e e' h1 in
    let (all, writer, lengths) = configure_all-Placed fs build_id tag es es' h2 in
    subst
      (λ xs.
        All (IsPlaced build_id) xs
        × (needs_writer xs ≡ (not (is_local e) || needs_writer es))
        × (length xs ≡ suc (length es)))
      (value-injective k2) ((placed, all), rw (same, writer) refl, ap suc lengths)

length-or_oci : (es : List ExportEntry) → 0 < length (or_oci es)
unfolding or_oci
length-or_oci [] = omega arith
length-or_oci (_ ∷ _) = omega arith

kept :
    (made : Bool) (r : Fallible Error (List ExportEntry)) (es : List ExportEntry) (left : Bool)
    → keep_or_discard made r ≡ (value es, left)
    → (r ≡ value es) × (left ≡ made)
unfolding keep_or_discard
kept made (value xs) es left h = (ap (λ p. p.0) h, sym (ap (λ p. p.1) h))
kept made (failure x) es left h = absurd (let bad = ap (λ p. p.0) h in cc)

write_exports-Placed :
    (ext : Externals) (fs : FileSystem) (build_id tag : Bytes) (es later : List ExportEntry)
    (left : Bool)
    → write_exports ext fs build_id tag es ≡ (value later, left)
    → All (IsPlaced build_id) later × (left ≡ needs_writer later) × (length later ≡ length es)
unfolding write_exports
write_exports-Placed ext fs build_id tag es later left h = elim (if-cases (needs_writer es) _ _ h) [
  | inl (needed, k) ↦ elim (Option-cases fs.create_temp) [
    | inr (x, f) ↦ absurd (let bad = ap (λ p. p.0) (simp f at k) in cc)
    | inl f ↦
        let (k', made) = kept true (configure_all fs build_id tag es) later left (simp f at k) in
        let (placed, writer, lengths) = configure_all-Placed fs build_id tag es later k' in
        (placed, made ∙ sym (writer ∙ needed), lengths)
  ]
  | inr (not_needed, k) ↦
      let (placed, writer, lengths) =
        configure_all-Placed fs build_id tag es later (ap (λ p. p.0) k) in
      (placed, sym (ap (λ p. p.1) k) ∙ sym (writer ∙ not_needed), lengths)
]

-- Unless the request only checks the Dockerfile, its exports are configured to at least one entry;
-- each entry of type `local` has the build's directory as its destination and some output
-- directory, each other one writes to the build's archive; and the temporary file is absent after
-- it exactly if all entries are of type `local`.
pub configured_exports-Placed :
    (ext : Externals) (fs : FileSystem) (opts : ExportOptions) (es : List ExportEntry) (left : Bool)
    → opts.check ≡ false
    → configured_exports ext fs opts ≡ (value es, left)
    → All (IsPlaced opts.build_id) es × ((left ≡ false) ↔ AreLocal es) × (0 < length es)
unfolding configured_exports
configured_exports-Placed ext fs opts es left c h = elim (if-cases opts.check _ _ h) [
  | inl (bad, _) ↦ absurd cc
  | inr (_, k) ↦ elim (Fallible-cases (parse_output ext opts.outputs)) [
    | inr (x, f) ↦ absurd (let bad = ap (λ p. p.0) (simp f at k) in cc)
    | inl (parsed, f) ↦
        let (placed, writer, lengths) =
          write_exports-Placed ext fs opts.build_id opts.tag (or_oci parsed) es left
            (simp f at k) in
        (
          placed,
          (
            λ gone. needs_writer-AreLocal es (sym writer ∙ gone),
            λ all. writer ∙ AreLocal-needs_writer es all,
          ),
          omega (arith, lengths, length-or_oci parsed),
        )
  ]
]

discarded :
    (made : Bool) (r : Fallible Error (List ExportEntry)) (x : Error) (left : Bool)
    → keep_or_discard made r ≡ (failure x, left)
    → left ≡ false
unfolding keep_or_discard
discarded made (value xs) x left h = absurd (let bad = ap (λ p. p.0) h in cc)
discarded made (failure y) x left h = sym (ap (λ p. p.1) h)

-- Where the configuration of the exports fails, no temporary file is left behind.
pub configured_exports-discards :
    (ext : Externals) (fs : FileSystem) (opts : ExportOptions) (x : Error) (left : Bool)
    → configured_exports ext fs opts ≡ (failure x, left)
    → left ≡ false
unfolding configured_exports write_exports
configured_exports-discards ext fs opts x left h = elim (if-cases opts.check _ _ h) [
  | inl (_, k) ↦ sym (ap (λ p. p.1) k)
  | inr (_, k) ↦ elim (Fallible-cases (parse_output ext opts.outputs)) [
    | inr (y, f) ↦ sym (ap (λ p. p.1) (simp f at k))
    | inl (parsed, f) ↦
        let k' = simp (f, write_exports) at k in
        elim (if-cases (needs_writer (or_oci parsed)) _ _ k') [
          | inr (_, j) ↦ sym (ap (λ p. p.1) j)
          | inl (_, j) ↦ elim (Option-cases fs.create_temp) [
            | inr (y, g) ↦ sym (ap (λ p. p.1) (simp g at j))
            | inl g ↦
                discarded true (configure_all fs opts.build_id opts.tag (or_oci parsed)) x left
                  (simp g at j)
          ]
        ]
  ]
]
