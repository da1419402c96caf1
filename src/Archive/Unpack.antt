-- ===== src/Archive/Unpack.antt =====
-- `unpackTar` of pkg/fileutils/tarxfer.go, from where it reads the archive's headers: the paths that
-- it accepts, the parents that it makes, and the entries that it writes.
-- Permissions are those that the call asks for, before the process's mask.
-- `dest` is the tree; reading a header, or a file's data, may fail, also because the context ended.
mod Parents
pub mod Written
pub mod Reserved
use container_builder_shim.Common.{
  ℕ, ◌%◌, Bool, true, false, ◌||◌, not, Option, none, some, List, [], ◌∷◌, if◌then◌else◌, ◌==◌,
  bytes_eq,
}
use container_builder_shim.Common.Bytes.{Bytes, codes}
use container_builder_shim.Common.Path.{CleanPath, clean, is_local}
use container_builder_shim.Common.Fallible.{Fallible, value, failure, ◌>>=◌}
use container_builder_shim.Archive.Tree.{
  TarPath, Node, directory, regular, symlink, Tree, Error, invalid_path, reserved_path,
  crosses_non_directory, conflicts, already_exists, not_regular, unsupported_type, unreadable,
  no_entry, not_a_directory, follows_symlink, Look, missing, found, no_parent, below_file,
  below_symlink, lstat, add,
}

-- `DockerfileStaging`
abbrev pub dockerfile_staging : Bytes
dockerfile_staging = codes ".com.apple.container"

abbrev pub cache_completion_marker : Bytes
cache_completion_marker = codes ".container-builder-shim-complete"

abbrev pub last_first : List Bytes → List Bytes → TarPath
last_first acc [] = acc
last_first acc (c ∷ s) = last_first (c ∷ acc) s

-- The names of a path that the shim keeps for itself.
unfoldable pub is_reserved : List Bytes → Bool
unfolding bytes_eq
is_reserved [] = false
is_reserved (c ∷ []) = c == dockerfile_staging || c == cache_completion_marker
is_reserved (c ∷ _ ∷ _) = c == dockerfile_staging

abbrev accepted : Bool → List Bytes → Fallible Error TarPath
accepted local [] = failure invalid_path
accepted false (c ∷ names) = failure invalid_path
accepted true (c ∷ names) =
    if is_reserved (c ∷ names) then failure reserved_path else value (last_first [] (c ∷ names))

-- `tarTarget`
unfoldable pub tar_target : Bytes → Fallible Error TarPath
unfolding clean is_local is_reserved
tar_target name = accepted (is_local (clean name)) (clean name).names

-- One component of the loop of `ensurePathParent`, for what `Lstat` finds at its path.
abbrev pub ensure_at : Tree → TarPath → Look → Fallible Error Tree
ensure_at t p missing = add t p directory
ensure_at t p no_parent = add t p directory
ensure_at t p (found directory) = value t
ensure_at t p (found (regular _ _)) = failure crosses_non_directory
ensure_at t p (found (symlink _)) = failure crosses_non_directory
ensure_at t p below_file = failure not_a_directory
ensure_at t p below_symlink = failure follows_symlink

-- The loop, from the root down to the path.
unfoldable pub ensure_path : Tree → TarPath → Fallible Error Tree
unfolding lstat add
ensure_path t [] = value t
ensure_path t (c ∷ p) = do t' ← ensure_path t p; ensure_at t' (c ∷ p) (lstat t' (c ∷ p))

-- `ensurePathParent`
unfoldable pub ensure_path_parent : Tree → TarPath → Fallible Error Tree
unfolding ensure_path
ensure_path_parent t [] = value t
ensure_path_parent t (c ∷ p) = ensure_path t p

abbrev pub directory_at : Tree → TarPath → Look → Fallible Error Tree
directory_at t p missing = add t p directory
directory_at t p no_parent = add t p directory
directory_at t p (found directory) = value t
directory_at t p (found (regular _ _)) = failure conflicts
directory_at t p (found (symlink _)) = failure conflicts
directory_at t p below_file = failure not_a_directory
directory_at t p below_symlink = failure follows_symlink

-- `ensureDirectory`
unfoldable pub ensure_directory : Tree → TarPath → Fallible Error Tree
unfolding ensure_path_parent lstat
ensure_directory t p = do t' ← ensure_path_parent t p; directory_at t' p (lstat t' p)

abbrev pub new_at : Tree → Look → Fallible Error Tree
new_at t missing = value t
new_at t no_parent = value t
new_at t (found _) = failure already_exists
new_at t below_file = failure not_a_directory
new_at t below_symlink = failure follows_symlink

-- `ensureNewPath`
unfoldable pub ensure_new_path : Tree → TarPath → Fallible Error Tree
unfolding ensure_path_parent lstat
ensure_new_path t p = do t' ← ensure_path_parent t p; new_at t' (lstat t' p)

pub data Typeflag : Type 0 where
  type_dir type_reg type_symlink type_link type_other : Typeflag

-- A header of the archive, with the data that follows it, none where reading it fails.
pub record Header : Type 0 where
  pub name : Bytes
  pub typeflag : Typeflag
  pub mode : ℕ
  pub linkname : Bytes
  pub data_of : Option Bytes

-- The node that a hard link shares.
abbrev pub regular_at : Look → Fallible Error Node
regular_at (found (regular contents mode)) = value (regular contents mode)
regular_at (found directory) = failure not_regular
regular_at (found (symlink _)) = failure not_regular
regular_at missing = failure no_entry
regular_at no_parent = failure no_entry
regular_at below_file = failure not_a_directory
regular_at below_symlink = failure follows_symlink

-- A file is made before its data is read.
unfoldable pub write_regular : Tree → TarPath → ℕ → Option Bytes → Fallible Error Tree
unfolding ensure_new_path add
write_regular t p mode contents = do
  t' ← ensure_new_path t p
  filled ← add t' p (regular (elim contents [ some b ↦ b | none ↦ [] ]) (mode % 512))
  elim contents [ some b ↦ value filled | none ↦ failure unreadable ]

unfoldable pub write_symlink : Tree → TarPath → Bytes → Fallible Error Tree
unfolding ensure_new_path add
write_symlink t p linkname = do t' ← ensure_new_path t p; add t' p (symlink linkname)

unfoldable pub write_link : Tree → TarPath → Bytes → Fallible Error Tree
unfolding tar_target ensure_path_parent ensure_new_path add lstat
write_link t p linkname = do
  q ← tar_target linkname
  t' ← ensure_path_parent t q
  n ← regular_at (lstat t' q)
  t'' ← ensure_new_path t' p
  add t'' p n

-- The switch on the header's type.
unfoldable pub write_entry : Tree → TarPath → Header → Fallible Error Tree
unfolding ensure_directory write_regular write_symlink write_link
write_entry t p h = elim h.typeflag [
  | type_dir ↦ ensure_directory t p
  | type_reg ↦ write_regular t p h.mode h.data_of
  | type_symlink ↦ write_symlink t p h.linkname
  | type_link ↦ write_link t p h.linkname
  | type_other ↦ failure unsupported_type
]

unfoldable pub unpack_entry : Tree → Header → Fallible Error Tree
unfolding tar_target write_entry
unpack_entry t h = do p ← tar_target h.name; write_entry t p h

-- The loop of `unpackTar`; a header that cannot be read is `none`.
unfoldable pub unpack : Tree → List (Option Header) → Fallible Error Tree
unfolding unpack_entry
unpack t [] = value t
unpack t (none ∷ rest) = failure unreadable
unpack t (some h ∷ rest) = do t' ← unpack_entry t h; unpack t' rest
