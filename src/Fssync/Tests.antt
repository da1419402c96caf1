-- ===== src/Fssync/Tests.antt =====
-- A context with a file before the staging directory and one after it.
use container_builder_shim.Common.{
  ℕ, ◌≡◌, refl, Option, none, some, List, [], ◌∷◌, All, map, inl, inr, arith, if◌then◌else◌,
}
use container_builder_shim.Common.Bytes.{Bytes, codes}
use container_builder_shim.Common.Dict.{erase}
use container_builder_shim.Common.Fallible.{value}
use container_builder_shim.Common.Path.{lt_bytes, path_eq, split, clean_text}
use container_builder_shim.Common.Text.{trim_space}
use container_builder_shim.Archive.Unpack.{cache_completion_marker}
use container_builder_shim.Fssync.Walk.{
  Visit, path_text, Proxy, visit_of, visit_each, synthetic_entries, Stop, skip_dir,
  requested_synthetic_dockerfile_paths,
}
use container_builder_shim.Fssync.Walk.Merge.{Interleaves}
use container_builder_shim.Fssync.Walk.Order.{lt_path, Ordered, IsApart}
use container_builder_shim.Fssync.Context.{
  WalkMetadata, Found, regular_file, directory_file, cached_visit, fs_walk, follow_paths_for,
}
use container_builder_shim.Fssync.Context.Walked.{readable, visits_of}
use container_builder_shim.Fssync.Context.Listed.{Lists, nothing, root, listed, of_file}
use container_builder_shim.Fssync.Context.Inputs.{
  Inputs, inputs, of_request, present, absent, with_files, input_visit, entries_for,
}
use container_builder_shim.Fssync.Context.Whole.{fs_walk-Ordered}
use container_builder_shim.Fssync.Sender.{
  Stat, Sender, new_sender, walk_stat, queue, walks, queues, Reaches, starts, steps, send_file,
}
use container_builder_shim.Fssync.Sender.Contents.{
  Sends, the_dockerfile, dockerfile_of, send_file-Sends,
}
use container_builder_shim.Fssync.Sender.Once.{IsSound, Reaches-IsSound}

abbrev file_at : Bytes → Found
file_at name = record { names = name ∷ []; size = 1; mode = 420; kind = regular_file }

abbrev found : List Found
found =
    record { names = []; size = 0; mode = 493; kind = regular_file }
    ∷ file_at (codes "-a")
    ∷ file_at (codes "b")
    ∷ []

abbrev metadata : WalkMetadata
metadata = record {
  include_patterns = [];
  excluded_patterns = [];
  follow_paths = codes "x, ./.com.apple.container/Dockerfile";
  dir_name = [];
}

abbrev the_inputs : Proxy
the_inputs = record { dockerfile = codes "FROM a"; dockerignore = []; added_globs = [] }

abbrev proxy : Option Proxy
proxy = some the_inputs

-- A callback that keeps the paths.
abbrev log : Visit → List Bytes → List Bytes × Option (Stop ℕ)
log v paths = (path_text v.names ∷ paths, none)

-- One that skips directories.
abbrev log_files : Visit → List Bytes → List Bytes × Option (Stop ℕ)
log_files v paths = if v.is_dir then (paths, some skip_dir) else (path_text v.names ∷ paths, none)

requests :
    requested_synthetic_dockerfile_paths metadata.follow_paths
    ≡ codes ".com.apple.container/Dockerfile" ∷ []
unfolding requested_synthetic_dockerfile_paths
requests = refl

runs : fs_walk log metadata proxy (value (readable found)) [] ≡ (
  codes "b"
      ∷ codes ".com.apple.container/Dockerfile"
      ∷ codes ".com.apple.container"
      ∷ codes "-a"
      ∷ [],
  none,
)
unfolding fs_walk
runs = refl

-- A directory that is skipped takes its contents with it.
skips :
    fs_walk log_files metadata none
      (value (
        readable (
          record { names = codes "d" ∷ []; size = 0; mode = 493; kind = directory_file }
          ∷ record { names = codes "d" ∷ codes "x" ∷ []; size = 1; mode = 420; kind = regular_file }
          ∷ file_at (codes "e")
          ∷ [])))
      []
    ≡ (codes "e" ∷ [], none)
unfolding fs_walk
skips = refl

-- `fs.SkipDir` for the staging directory, which the walker emits at a file of the context, skips the
-- rest of the context, and is the error of the walk in the end.
staging_skipped :
    fs_walk log_files metadata proxy
      (value (readable (file_at (codes "b") ∷ file_at (codes "c") ∷ [])))
      []
    ≡ ([], some skip_dir)
unfolding fs_walk
staging_skipped = refl

found-Ordered : Ordered (visits_of found)
unfolding cached_visit lt_path lt_bytes
found-Ordered = (refl, (tt, tt))

found-IsApart : All IsApart (visits_of found)
unfolding cached_visit
found-IsApart =
    ((codes "-a", [], refl, inl (omega arith)), ((codes "b", [], refl, inl (omega arith)), tt))

found-Lists : Lists found (visits_of found)
unfolding cached_visit path_eq
found-Lists = root _ _ _ refl (
    listed _ _ _ _ _ (λ e. absurd cc)
      (λ e. absurd (let bad : codes "-a" ≡ cache_completion_marker = cc in cc)) of_file
      (listed _ _ _ _ _ (λ e. absurd cc)
        (λ e. absurd (let bad : codes "b" ≡ cache_completion_marker = cc in cc)) of_file nothing))

proxy-Inputs : Inputs metadata proxy (map visit_of (entries_for metadata proxy))
unfolding visit_of path_eq synthetic_entries split clean_text trim_space
    requested_synthetic_dockerfile_paths follow_paths_for
proxy-Inputs =
    inputs the_inputs metadata.follow_paths (input_visit (codes "Dockerfile") (codes "FROM a") ∷ [])
      [] _ (of_request (λ e. absurd cc)) (present (inr (inl refl)) (λ e. absurd cc))
      (absent (λ asked. refl)) (with_files _ _)

fs_walk-Ordered_example :
    (out : List Visit) × Interleaves
      (map visit_of (entries_for metadata proxy))
      (visits_of found)
      out
    × Ordered out
    × (fs_walk log metadata proxy (value (readable found)) [] ≡ visit_each log out [])
fs_walk-Ordered_example =
    fs_walk-Ordered log (λ v s. tt) metadata proxy found (visits_of found)
      (map visit_of (entries_for metadata proxy)) [] found-Lists proxy-Inputs found-Ordered
      found-IsApart

-- A file `.com.apple.container-x` of the context comes between the staging directory and its file:
-- the order of the bytes is not that of the walk.
staging_is_split :
    fs_walk log metadata proxy (value (readable (file_at (codes ".com.apple.container-x") ∷ []))) []
    ≡ (
      codes ".com.apple.container/Dockerfile"
          ∷ codes ".com.apple.container-x"
          ∷ codes ".com.apple.container"
          ∷ [],
      none,
    )
unfolding fs_walk
staging_is_split = refl

abbrev request_inputs : Proxy
request_inputs = record { dockerfile = codes "FROM a"; dockerignore = codes "b"; added_globs = [] }

send_file-Sends_example :
    Sends 0
      (codes "FROM a")
      (send_file (some request_inputs) (λ _. none) (record { id = 0; names = the_dockerfile })).0
unfolding send_file
send_file-Sends_example =
    send_file-Sends (λ _. none) (some request_inputs) 0 the_dockerfile (codes "FROM a")
      (dockerfile_of request_inputs) refl

abbrev stat : Stat
stat = record { names = codes "a" ∷ []; mode = 420 }

abbrev queued : Sender
queued = record {
  files = [];
  pipeline = record { id = 0; names = codes "a" ∷ [] } ∷ [];
  walked = stat ∷ [];
  taken = [];
}

queued_once : queue 0 (walk_stat stat new_sender) ≡ some queued
unfolding queue walk_stat erase
queued_once = refl

queued-Reaches : Reaches queued
queued-Reaches =
    steps (walk_stat stat new_sender) queued
      (steps new_sender (walk_stat stat new_sender) starts (walks new_sender stat))
      (queues (walk_stat stat new_sender) queued 0 queued_once)

Reaches-IsSound_example : IsSound [] (stat ∷ []) (record { id = 0; names = codes "a" ∷ [] } ∷ [])
Reaches-IsSound_example = Reaches-IsSound queued-Reaches (omega arith)
