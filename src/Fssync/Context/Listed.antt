-- ===== src/Fssync/Context/Listed.antt =====
-- What `FS.Walk` lists of a cached context, told apart from the code.
use container_builder_shim.Common.{
  Bool, true, false, none, some, List, [], ◌∷◌, ◌≡◌, ◌≢◌, refl, ap, arith,
}
use container_builder_shim.Common.Bytes.{Bytes}
use container_builder_shim.Common.Path.{path_eq}
use container_builder_shim.Archive.Unpack.{cache_completion_marker}
use container_builder_shim.Fssync.Walk.{Visit}
use container_builder_shim.Fssync.Context.{
  FileKind, regular_file, directory_file, symbolic_link, Found, cached_entry, cached_visit,
}
use container_builder_shim.Fssync.Context.Walked.{visits_of}

-- The kinds that a walk lists, with what is told of a directory and of a link.
pub data IsListed : FileKind → Bool → Bytes → Type 0 where
  of_file : IsListed regular_file false []
  of_directory : IsListed directory_file true []
  of_link : (target : Bytes) → IsListed (symbolic_link target) false target

-- The visits of a cached context: all but its root, the completion marker, and what is no file,
-- directory or link.
pub data Lists : List Found → List Visit → Type 0 where
  nothing : Lists [] []
  root :
      (f : Found) (found : List Found) (visits : List Visit)
      → f.names ≡ []
      → Lists found visits
      → Lists (f ∷ found) visits
  marker :
      (f : Found) (found : List Found) (visits : List Visit)
      → f.names ≡ cache_completion_marker ∷ []
      → Lists found visits
      → Lists (f ∷ found) visits
  special :
      (f : Found) (found : List Found) (visits : List Visit)
      → f.kind ≡ FileKind.other_file
      → Lists found visits
      → Lists (f ∷ found) visits
  listed :
      (f : Found) (found : List Found) (visits : List Visit) (is_dir : Bool) (link : Bytes)
      → f.names ≢ []
      → f.names ≢ cache_completion_marker ∷ []
      → IsListed f.kind is_dir link
      → Lists found visits
      → Lists (f ∷ found) (
          record {
            names = f.names;
            size = f.size;
            mode = f.mode;
            is_dir = is_dir;
            link_name = link;
          }
          ∷ visits)

skips_root : (f : Found) → f.names ≡ [] → cached_visit f ≡ none
unfolding cached_visit
skips_root f e = ground arith

skips_marker : (f : Found) → f.names ≡ cache_completion_marker ∷ [] → cached_visit f ≡ none
unfolding cached_visit
skips_marker f e = ground arith

skips_special : (f : Found) → f.kind ≡ FileKind.other_file → cached_visit f ≡ none
unfolding cached_visit cached_entry
skips_special f e = rw (e, cached_entry) (ground arith)

lists_entry :
    (f : Found) (is_dir : Bool) (link : Bytes)
    → f.names ≢ []
    → f.names ≢ cache_completion_marker ∷ []
    → (kind : FileKind) → f.kind ≡ kind
    → IsListed kind is_dir link
    → cached_visit f
      ≡ some (record {
        names = f.names;
        size = f.size;
        mode = f.mode;
        is_dir = is_dir;
        link_name = link;
      })
unfolding cached_visit cached_entry
lists_entry f _ _ n m _ e of_file = rw (e, cached_entry) (ground arith)
lists_entry f _ _ n m _ e of_directory = rw (e, cached_entry) (ground arith)
lists_entry f _ _ n m _ e (of_link target) = rw (e, cached_entry) (ground arith)

pub Lists-visits_of :
    {found : List Found} {visits : List Visit} → Lists found visits → visits ≡ visits_of found
Lists-visits_of nothing = refl
Lists-visits_of (root f found visits e rest) = rw (skips_root f e, visits_of) (Lists-visits_of rest)
Lists-visits_of (marker f found visits e rest) =
    rw (skips_marker f e, visits_of) (Lists-visits_of rest)
Lists-visits_of (special f found visits e rest) =
    rw (skips_special f e, visits_of) (Lists-visits_of rest)
Lists-visits_of (listed f found visits is_dir link n m k rest) =
    rw (lists_entry f is_dir link n m f.kind refl k, visits_of)
      (ap
        (λ vs.
          record {
            names = f.names;
            size = f.size;
            mode = f.mode;
            is_dir = is_dir;
            link_name = link;
          }
          ∷ vs)
        (Lists-visits_of rest))
