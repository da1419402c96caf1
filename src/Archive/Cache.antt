-- ===== src/Archive/Cache.antt =====
-- pkg/fileutils/tarxfer.go: the digest that names a cached context, the check that a context is
-- complete, and `publishTar`, which unpacks one and moves it into place.
-- What the calls of the operating system answer is an argument; the calls that change the directory
-- of the cache give the states that another process, or the next run after a crash, can see.
pub mod Digest
pub mod Publish
use container_builder_shim.Common.{
  ℕ, Bool, true, false, ◌&&◌, ◌||◌, Option, none, some, List, [], ◌∷◌, if◌then◌else◌, ◌==◌, leb,
  nat_eq, bytes_eq, length,
}
use container_builder_shim.Common.Bytes.{Bytes, codes}
use container_builder_shim.Common.Dict.{lookup, insert}
use container_builder_shim.Common.Text.{to_lower}
use container_builder_shim.Common.Path.{path_eq}
use container_builder_shim.Common.Fallible.{Fallible, value, failure, ◌>>=◌}
use container_builder_shim.Archive.Tree.{
  TarPath, Node, directory, regular, symlink, Tree, Error, conflicts, not_regular, follows_symlink,
  unreadable, call_failed, lock_failed,
}
use container_builder_shim.Archive.Unpack.{cache_completion_marker, Header, unpack}

-- A digit that `hex.DecodeString` takes.
abbrev pub is_hex : ℕ → Bool
is_hex c = (leb 48 c && leb c 57) || (leb 97 c && leb c 102) || (leb 65 c && leb c 70)

unfoldable pub decodes : Bytes → Bool
decodes [] = true
decodes (c ∷ s) = is_hex c && decodes s

-- `validateContextDigest`
unfoldable pub validate_context_digest : Bytes → Bool
validate_context_digest checksum =
    length checksum == 64 && to_lower checksum == checksum && decodes checksum

-- What is at the path of a cached context.
pub data Slot : Type 0 where
  vacant : Slot
  holds : Tree → Slot
  occupied : Slot
  inaccessible : Slot

abbrev pub marker_path : TarPath
marker_path = cache_completion_marker ∷ []

abbrev pub cache_completion_value : Bytes
cache_completion_value = codes "complete\n"

unfoldable pub is_complete : Bytes → Bool
unfolding bytes_eq
is_complete contents = contents == cache_completion_value

abbrev pub check_marker : Option Node → Fallible Error Bool
check_marker none = value false
check_marker (some (regular contents mode)) = value (is_complete contents)
check_marker (some directory) = failure not_regular
check_marker (some (symlink target)) = failure not_regular

-- `checkCache`
unfoldable pub check_cache : Slot → Fallible Error Bool
unfolding lookup path_eq
check_cache vacant = value false
check_cache inaccessible = failure unreadable
check_cache occupied = failure conflicts
check_cache (holds t) = check_marker (lookup marker_path t)

-- What the calls of the lock end in.
pub data LockCall : Type 0 where
  locked : LockCall
  lock_is_symlink lock_is_inaccessible lock_is_refused : LockCall

-- What the calls answer that `publishTar` makes. A removal that fails leaves something in the slot.
pub record Calls : Type 0 where
  pub lock : LockCall
  pub removal : Option Slot
  pub makes_temp : Bool
  pub writes_marker : Bool
  pub renames : Bool

-- The directory of the cache: the slot of the context, and whether there is a temporary directory.
pub record State : Type 0 where
  pub slot : Slot
  pub temp : Bool

abbrev pub at_marker : Tree → Option Node → Fallible Error Tree
at_marker t none = value (insert marker_path (regular cache_completion_value 384) t)
at_marker t (some (regular _ mode)) =
    value (insert marker_path (regular cache_completion_value mode) t)
at_marker t (some directory) = failure call_failed
at_marker t (some (symlink _)) = failure follows_symlink

-- `os.WriteFile` of the completion marker
unfoldable pub write_marker : Bool → Tree → Fallible Error Tree
unfolding lookup insert path_eq
write_marker false t = failure call_failed
write_marker true t = at_marker t (lookup marker_path t)

-- The tree that the temporary directory has before it is renamed.
unfoldable pub fill : Bool → List (Option Header) → Fallible Error Tree
unfolding unpack write_marker
fill writes headers = do t ← unpack [] headers; write_marker writes t

-- The states after each call that changes the directory, the last one first, and the error.
abbrev pub Outcome : Type 0
Outcome = List State × Option Error

abbrev pub empty_slot : State
empty_slot = record { slot = vacant; temp = false }

abbrev pub unpacking : State
unpacking = record { slot = vacant; temp = true }

-- From the temporary directory on; the deferred call removes it where it is not renamed.
abbrev pub rename_filled : Bool → Fallible Error Tree → Outcome
rename_filled renames (failure e) = (empty_slot ∷ unpacking ∷ empty_slot ∷ [], some e)
rename_filled true (value t) =
    (record { slot = holds t; temp = false } ∷ unpacking ∷ empty_slot ∷ [], none)
rename_filled false (value t) = (empty_slot ∷ unpacking ∷ empty_slot ∷ [], some call_failed)

-- From the removal of what is in the slot on.
unfoldable pub replace : Calls → List (Option Header) → Outcome
unfolding fill
replace calls headers = elim calls.removal [
  | some left ↦ (record { slot = left; temp = false } ∷ [], some call_failed)
  | none ↦
      if calls.makes_temp
      then rename_filled calls.renames (fill calls.writes_marker headers)
      else (empty_slot ∷ [], some call_failed)
]

abbrev pub replace_if : Fallible Error Bool → Outcome → Outcome
replace_if (failure e) o = ([], some e)
replace_if (value true) o = ([], none)
replace_if (value false) o = o

-- The rest runs where the lock is taken.
abbrev pub under_lock : LockCall → Outcome → Outcome
under_lock locked o = o
under_lock lock_is_symlink o = ([], some lock_failed)
under_lock lock_is_inaccessible o = ([], some call_failed)
under_lock lock_is_refused o = ([], some lock_failed)

-- `publishTar`; an archive that cannot be opened is one whose first header cannot be read.
unfoldable pub publish_tar : Calls → Slot → List (Option Header) → Outcome
unfolding check_cache replace
publish_tar calls slot headers =
    under_lock calls.lock (replace_if (check_cache slot) (replace calls headers))

-- The slot at the end.
abbrev pub settled : Slot → List State → State
settled slot [] = record { slot = slot; temp = false }
settled slot (s ∷ _) = s
