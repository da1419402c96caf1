-- ===== src/Fssync/Walk.antt =====
-- pkg/fssync/walk.go: the walk of the build context, with the Dockerfile inputs that the request
-- carries merged into it.
-- A walk is the list of its visits in their order; a path is the list of its names. The callback is an
-- argument: from the state that it keeps to the next one and an error or nil. `fs.SkipDir` and
-- `fs.SkipAll` are errors that `filepath.Walk` does not end with.
pub mod Merge
pub mod Order
use container_builder_shim.Common.{
  ℕ, Bool, true, false, ◌&&◌, ◌||◌, Option, none, some, List, [], ◌∷◌, ◌++◌, if◌then◌else◌, ◌==◌,
  length, map, bytes_eq, not,
}
use container_builder_shim.Common.Bytes.{Bytes, codes}
use container_builder_shim.Common.Text.{join, trim_space}
use container_builder_shim.Common.Path.{split, slash, comma, clean_text, lt_bytes, path_eq}
use container_builder_shim.Archive.Unpack.{dockerfile_staging}

-- What the callback is told of an entry.
pub record Visit : Type 0 where
  pub names : List Bytes
  pub size : ℕ
  pub mode : ℕ
  pub is_dir : Bool
  pub link_name : Bytes

unfoldable pub path_text : List Bytes → Bytes
unfolding join
path_text names = join (slash ∷ []) names

pub record SyntheticEntry : Type 0 where
  pub names : List Bytes
  pub contents : Bytes

-- What a walk uses of the proxy.
pub record Proxy : Type 0 where
  pub dockerfile : Bytes
  pub dockerignore : Bytes
  pub added_globs : List Bytes

abbrev pub staged_dockerfile : List Bytes
staged_dockerfile = dockerfile_staging ∷ codes "Dockerfile" ∷ []

abbrev pub staged_dockerignore : List Bytes
staged_dockerignore = dockerfile_staging ∷ codes "Dockerfile.dockerignore" ∷ []

unfoldable pub is_staged : Bytes → Bool
unfolding bytes_eq path_text
is_staged path = path == path_text staged_dockerfile || path == path_text staged_dockerignore

abbrev pub keep_staged : List Bytes → List Bytes
keep_staged [] = []
keep_staged (f ∷ fields) =
    let rest = keep_staged fields in
    let path = clean_text (trim_space f) in if is_staged path then path ∷ rest else rest

-- `requestedSyntheticDockerfilePaths`; the set is a list.
unfoldable pub requested_synthetic_dockerfile_paths : Bytes → List Bytes
unfolding split clean_text trim_space is_staged
requested_synthetic_dockerfile_paths follow_paths = keep_staged (split comma follow_paths)

unfoldable pub is_requested : List Bytes → List Bytes → Bool
unfolding bytes_eq path_text
is_requested [] names = false
is_requested (p ∷ requested) names = p == path_text names || is_requested requested names

-- The requested files that have data.
abbrev pub with_data : List Bytes → List SyntheticEntry → List SyntheticEntry
with_data requested [] = []
with_data requested (f ∷ files) =
    let rest = with_data requested files in
    if is_requested requested f.names && not (f.contents == []) then f ∷ rest else rest

abbrev pub staging_entry : SyntheticEntry
staging_entry = record { names = dockerfile_staging ∷ []; contents = [] }

-- The directory comes before its files, and only with one.
abbrev pub below_staging : List SyntheticEntry → List SyntheticEntry
below_staging [] = []
below_staging (f ∷ files) = staging_entry ∷ f ∷ files

-- `newSyntheticDockerfileWalker`: its entries.
unfoldable pub synthetic_entries : Option Proxy → List Bytes → List SyntheticEntry
unfolding is_requested bytes_eq
synthetic_entries none requested = []
synthetic_entries (some proxy) requested = below_staging (
    with_data requested (
      record { names = staged_dockerfile; contents = proxy.dockerfile }
      ∷ record { names = staged_dockerignore; contents = proxy.dockerignore }
      ∷ []))

-- What `emit` tells the callback: mode bits `fs.ModeDir | 0o755`, or `0o644`.
unfoldable pub visit_of : SyntheticEntry → Visit
unfolding path_eq
visit_of e =
    if e.names == dockerfile_staging ∷ []
    then record { names = e.names; size = 0; mode = 2147484141; is_dir = true; link_name = [] }
    else record {
      names = e.names;
      size = length e.contents;
      mode = 420;
      is_dir = false;
      link_name = [];
    }

-- What `filepath.Walk` takes an error for: `fs.SkipDir`, `fs.SkipAll`, or any other.
pub data Stop {ℓ} (E : Type ℓ) : Type ℓ where
  skip_dir skip_all : Stop E
  failed : E → Stop E

-- What follows on a nil error.
abbrev pub and_then {ℓ} :
    {S E : Type ℓ} → S × Option (Stop E) → (S → S × Option (Stop E)) → S × Option (Stop E)
and_then (s, none) more = more s
and_then (s, some x) more = (s, some x)

module _ {S E : Type 0} (fn : Visit → S → S × Option (Stop E)) where
  -- The walker after `emit`: after an error the entry is still the next one.
  abbrev pub emit_next :
      List SyntheticEntry
      → S × Option (Stop E)
      → (S → (List SyntheticEntry × S) × Option (Stop E))
      → (List SyntheticEntry × S) × Option (Stop E)
  emit_next entries (s, none) more = more s
  emit_next entries (s, some x) more = ((entries, s), some x)

  -- The loop of `syntheticDockerfileWalker.Walk`: the entries that are left, the state, the error.
  unfoldable pub emit_before :
      Bytes → List SyntheticEntry → S → (List SyntheticEntry × S) × Option (Stop E)
  unfolding lt_bytes visit_of path_text
  emit_before path [] s = (([], s), none)
  emit_before path (e ∷ entries) s = elim (lt_bytes (path_text e.names) path) [
    | true ↦ emit_next (e ∷ entries) (fn (visit_of e) s) (emit_before path entries)
    | false ↦ ((e ∷ entries, s), none)
  ]

  abbrev pub visit_after :
      Visit
      → (List SyntheticEntry × S) × Option (Stop E)
      → (List SyntheticEntry × S) × Option (Stop E)
  visit_after v ((left, s), none) = ((left, (fn v s).0), (fn v s).1)
  visit_after v (r, some x) = (r, some x)

  -- `syntheticDockerfileWalker.Walk`
  unfoldable pub walk_entry :
      Visit → List SyntheticEntry × S → (List SyntheticEntry × S) × Option (Stop E)
  unfolding emit_before
  walk_entry v (entries, s) = visit_after v (emit_before (path_text v.names) entries s)

  -- `Finish`
  unfoldable pub finish : List SyntheticEntry → S → S × Option (Stop E)
  unfolding visit_of
  finish [] s = (s, none)
  finish (e ∷ entries) s = and_then (fn (visit_of e) s) (finish entries)

  -- A walk of a list.
  unfoldable pub visit_each : List Visit → S → S × Option (Stop E)
  visit_each [] s = (s, none)
  visit_each (v ∷ visits) s = and_then (fn v s) (visit_each visits)
