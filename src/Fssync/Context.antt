-- ===== src/Fssync/Context.antt =====
-- pkg/fssync/walk.go, `FS.Walk` with the metadata that asks for it, pkg/fssync/diffcopy.go,
-- `excludePatternsForWalk`, and the walk of a cached context of pkg/fileutils/tarxfer.go.
-- What `filepath.Walk` finds, in its order, is an argument, and so is the receiver of the archive.
pub mod Walked
pub mod Listed
pub mod Inputs
pub mod Whole
use container_builder_shim.Common.{
  ℕ, Bool, true, false, ◌||◌, ◌&&◌, Option, none, some, List, [], ◌∷◌, ◌++◌, if◌then◌else◌, ◌==◌,
  bytes_eq,
}
use container_builder_shim.Common.Bytes.{Bytes, codes}
use container_builder_shim.Common.Dict.{Dict, lookup}
use container_builder_shim.Common.Text.{join}
use container_builder_shim.Common.Path.{comma, path_eq}
use container_builder_shim.Common.Fallible.{Fallible, value, failure}
use container_builder_shim.Archive.Unpack.{cache_completion_marker}
use container_builder_shim.Fssync.Walk.{
  Visit, path_text, SyntheticEntry, Proxy, staged_dockerfile, staged_dockerignore,
  requested_synthetic_dockerfile_paths, is_requested, synthetic_entries, walk_entry, finish, Stop,
  skip_dir, skip_all, failed,
}

-- The only mode that there is, `ModeTAR`, is not listed.
pub record WalkMetadata : Type 0 where
  pub include_patterns : Bytes
  pub excluded_patterns : List Bytes
  pub follow_paths : Bytes
  pub dir_name : Bytes

abbrev or_empty : Option (List Bytes) → List Bytes
or_empty none = []
or_empty (some values) = values

-- The values of a key of the incoming metadata.
unfoldable pub incoming_values : Dict Bytes (List Bytes) → Bytes → List Bytes
unfolding lookup bytes_eq
incoming_values m key = or_empty (lookup key m)

unfoldable pub joined_values : Dict Bytes (List Bytes) → Bytes → Bytes
unfolding join incoming_values
joined_values m key = join (comma ∷ []) (incoming_values m key)

-- `unmarshalWalkMetadata`; an invalid mode is an error.
unfoldable pub unmarshal_walk_metadata : Option (Dict Bytes (List Bytes)) → Option WalkMetadata
unfolding joined_values incoming_values bytes_eq
unmarshal_walk_metadata none =
    some
      (record { include_patterns = []; excluded_patterns = []; follow_paths = []; dir_name = [] })
unmarshal_walk_metadata (some m) =
    let mode = joined_values m (codes "mode") in
    if mode == [] || mode == codes "tar"
    then some (record {
      include_patterns = joined_values m (codes "include-patterns");
      excluded_patterns = incoming_values m (codes "exclude-patterns");
      follow_paths = joined_values m (codes "followpaths");
      dir_name = joined_values m (codes "dir-name");
    })
    else none

-- The paths to follow: the request's, or those of the Dockerfile.
unfoldable pub follow_paths_for : WalkMetadata → Option Proxy → Bytes
unfolding join
follow_paths_for md proxy = elim md.follow_paths [
  | ◌∷◌ c s ↦ c ∷ s
  | [] ↦ elim proxy [ some p ↦ join (comma ∷ []) p.added_globs | none ↦ [] ]
]

abbrev kept_pattern : List Bytes → List Bytes → List Bytes
kept_pattern requested names =
    if is_requested requested names then (33 ∷ path_text names) ∷ [] else []

abbrev with_kept : List Bytes → List Bytes → List Bytes
with_kept [] requested = []
with_kept (p ∷ patterns) requested =
    (p ∷ patterns)
    ++ kept_pattern requested staged_dockerfile
    ++ kept_pattern requested staged_dockerignore

-- `excludePatternsForWalk`; 33 is `!`.
unfoldable pub exclude_patterns_for_walk : WalkMetadata → Option Proxy → List Bytes
unfolding requested_synthetic_dockerfile_paths follow_paths_for is_requested path_text
exclude_patterns_for_walk md proxy =
    with_kept md.excluded_patterns
      (requested_synthetic_dockerfile_paths (follow_paths_for md proxy))

abbrev dir_name_for : WalkMetadata → List Bytes → Bytes
dir_name_for md [] = md.dir_name
dir_name_for md (_ ∷ _) = codes "context"

-- The metadata of the request that `Walk` sends.
unfoldable pub walk_request : WalkMetadata → Option Proxy → Dict Bytes Bytes
unfolding requested_synthetic_dockerfile_paths follow_paths_for
walk_request md proxy =
    let follow = follow_paths_for md proxy in
    (codes "os", codes "linux")
    ∷ (codes "stage", codes "fssync")
    ∷ (codes "method", codes "Walk")
    ∷ (codes "dir-name", dir_name_for md (requested_synthetic_dockerfile_paths follow))
    ∷ (codes "include-patterns", md.include_patterns)
    ∷ (codes "followpaths", follow)
    ∷ (codes "mode", codes "tar")
    ∷ []

pub data FileKind : Type 0 where
  regular_file directory_file other_file : FileKind
  symbolic_link : Bytes → FileKind

-- What `filepath.Walk` finds at a path below the cached context.
pub record Found : Type 0 where
  pub names : List Bytes
  pub size : ℕ
  pub mode : ℕ
  pub kind : FileKind

-- `walkCachedEntry` and `isSupportedCacheEntry`: the visit, if there is one.
unfoldable pub cached_entry : Found → Option Visit
cached_entry f =
    let visit : Bool → Bytes → Visit =
      λ d l. record { names = f.names; size = f.size; mode = f.mode; is_dir = d; link_name = l } in
    elim f.kind [
      | regular_file ↦ some (visit false [])
      | directory_file ↦ some (visit true [])
      | symbolic_link target ↦ some (visit false target)
      | other_file ↦ none
    ]

-- The directory itself and the completion marker are not visited.
unfoldable pub cached_visit : Found → Option Visit
unfolding cached_entry path_eq
cached_visit f =
    if f.names == [] || f.names == cache_completion_marker ∷ [] then none else cached_entry f

-- What `filepath.Walk` meets: an entry, or a path whose entry, or whose link, it fails to read.
pub data Met (E : Type 0) : Type 0 where
  met : Found → Met E
  unreadable : List Bytes → E → Met E

abbrev pub names_of : {E : Type 0} → Met E → List Bytes
names_of (met f) = f.names
names_of (unreadable names e) = names

abbrev pub parent_of : List Bytes → List Bytes
parent_of [] = []
parent_of (n ∷ []) = []
parent_of (n ∷ m ∷ names) = n ∷ parent_of (m ∷ names)

-- The path is in the directory.
unfoldable pub is_below : List Bytes → List Bytes → Bool
unfolding bytes_eq
is_below [] names = true
is_below (d ∷ dir) [] = false
is_below (d ∷ dir) (n ∷ names) = d == n && is_below dir names

abbrev pub is_skipped : Option (List Bytes) → List Bytes → Bool
is_skipped none names = false
is_skipped (some dir) names = is_below dir names

-- What `fs.SkipDir` at a visit skips: the directory, or the rest of the directory of a file.
abbrev pub skipped_by : Visit → List Bytes
skipped_by v = if v.is_dir then v.names else parent_of v.names

module _ {T E : Type 0} (fn : Visit → T → T × Option (Stop E)) where
  -- How `filepath.Walk` goes on; the argument of the continuation is the directory that is skipped.
  abbrev pub go_on :
      Visit → T × Option (Stop E) → (Option (List Bytes) → T → T × Option E) → T × Option E
  go_on v (t, none) more = more none t
  go_on v (t, some skip_dir) more = more (some (skipped_by v)) t
  go_on v (t, some skip_all) more = (t, none)
  go_on v (t, some (failed e)) more = (t, some e)

  unfoldable pub walk_met : Option (List Bytes) → List (Met E) → T → T × Option E
  unfolding cached_visit is_below
  walk_met skip [] t = (t, none)
  walk_met skip (unreadable names e ∷ rest) t =
      let after = walk_met skip rest t in if is_skipped skip names then after else (t, some e)
  walk_met skip (met f ∷ rest) t =
      let after = walk_met skip rest t in
      let entered : T × Option E = elim (cached_visit f) [
        | none ↦ walk_met none rest t
        | some v ↦ go_on v (fn v t) (λ dir. walk_met dir rest)
      ] in
      if is_skipped skip f.names then after else entered

  -- `walkCachedContext`, of what `filepath.Walk` meets.
  unfoldable pub walk_cached_context : List (Met E) → T → T × Option E
  unfolding walk_met
  walk_cached_context = walk_met none

module _ {S E : Type 0} (fn : Visit → S → S × Option (Stop E)) where
  -- `Finish`, if the receiver returned no error.
  abbrev pub finish_after : (List SyntheticEntry × S) × Option E → S × Option (Stop E)
  finish_after ((left, s), none) = finish fn left s
  finish_after ((left, s), some e) = (s, some (failed e))

  abbrev pub walk_received :
      List SyntheticEntry → S → Fallible E (List (Met E)) → S × Option (Stop E)
  walk_received entries s (failure e) = (s, some (failed e))
  walk_received entries s (value found) =
      finish_after (walk_cached_context (walk_entry fn) found (entries, s))

  -- `Walk` from the reply to its request on: the receiver fails, or it has the cached context.
  unfoldable pub fs_walk :
      WalkMetadata → Option Proxy → Fallible E (List (Met E)) → S → S × Option (Stop E)
  unfolding walk_cached_context walk_entry finish synthetic_entries
      requested_synthetic_dockerfile_paths follow_paths_for
  fs_walk md proxy received s =
      walk_received
        (synthetic_entries proxy (requested_synthetic_dockerfile_paths (follow_paths_for md proxy)))
        s received
