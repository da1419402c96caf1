-- ===== src/Archive/Tree.antt =====
-- The entries below a directory, and the calls of package os on them, as pkg/fileutils/tarxfer.go
-- uses them: `Lstat`, `Mkdir`, `OpenFile` with `O_EXCL`, `Symlink` and `Link`.
-- A call on a path below a symbolic link, which would leave the tree, is an error of its own.
use container_builder_shim.Common.{Option, none, some, List, [], ◌∷◌, ◌≡◌, refl, ℕ, arith}
use container_builder_shim.Common.Bytes.{Bytes}
use container_builder_shim.Common.Dict.{Dict, lookup, insert, lookup-insert}
use container_builder_shim.Common.Path.{path_eq}
use container_builder_shim.Common.Fallible.{Fallible, value, failure}

abbrev pub TarPath : Type 0
TarPath = List Bytes

-- A regular file is its data and its permissions. Hard links to it share them; no call writes to a
-- file that exists.
pub data Node : Type 0 where
  directory : Node
  regular : Bytes → ℕ → Node
  symlink : Bytes → Node

abbrev pub Tree : Type 0
Tree = Dict TarPath Node

pub data Error : Type 0 where
  invalid_path reserved_path crosses_non_directory conflicts already_exists : Error
  not_regular unsupported_type unreadable : Error
  no_entry not_a_directory follows_symlink : Error
  call_failed lock_failed invalid_digest not_cached digest_mismatch : Error
  stream_ended server_error unexpected_packet cancelled receive_failed : Error

-- What `Lstat` finds.
pub data Look : Type 0 where
  missing : Look
  found : Node → Look
  no_parent below_file below_symlink : Look

abbrev pub entry : Option Node → Look
entry none = missing
entry (some n) = found n

-- From what the parent is to what the path is.
abbrev pub go_on : Look → Look → Look
go_on missing e = no_parent
go_on (found directory) e = e
go_on (found (regular data_ mode)) e = below_file
go_on (found (symlink target)) e = below_symlink
go_on no_parent e = no_parent
go_on below_file e = below_file
go_on below_symlink e = below_symlink

unfoldable pub lstat : Tree → TarPath → Look
unfolding lookup path_eq
lstat t [] = found directory
lstat t (c ∷ p) = go_on (lstat t p) (entry (lookup (c ∷ p) t))

-- A call that makes an entry, for what `Lstat` finds at its path.
abbrev pub add_at : Tree → TarPath → Node → Look → Fallible Error Tree
add_at t p n missing = value (insert p n t)
add_at t p n (found _) = failure already_exists
add_at t p n no_parent = failure no_entry
add_at t p n below_file = failure not_a_directory
add_at t p n below_symlink = failure follows_symlink

unfoldable pub add : Tree → TarPath → Node → Fallible Error Tree
unfolding lstat insert path_eq
add t p n = add_at t p n (lstat t p)

-- Every entry of the one tree is an entry of the other.
abbrev pub Extends : Tree → Tree → Type 0
Extends t t' = (p : TarPath) (n : Node) → lookup p t ≡ some n → lookup p t' ≡ some n

pub Extends-trans : (s t u : Tree) → Extends s t → Extends t u → Extends s u
Extends-trans s t u h k p n e = k p n (h p n e)

pub insert-Extends :
    (t : Tree) (q : TarPath) (m : Node) → lookup q t ≡ none → Extends t (insert q m t)
insert-Extends t q m free p n e = ground (arith, lookup-insert p q m t)

-- What an entry that is found says of its parent.
pub go_on-found :
    (l : Look) (o : Option Node) (n : Node)
    → go_on l (entry o) ≡ found n
    → (l ≡ found directory) × (o ≡ some n)
go_on-found (found directory) none n e = absurd cc
go_on-found (found directory) (some m) n e = (refl, cc)
go_on-found (found (regular _ _)) o n e = absurd cc
go_on-found (found (symlink _)) o n e = absurd cc
go_on-found missing o n e = absurd cc
go_on-found no_parent o n e = absurd cc
go_on-found below_file o n e = absurd cc
go_on-found below_symlink o n e = absurd cc

-- `Lstat` still finds what it found.
pub lstat-Extends :
    (t t' : Tree) (p : TarPath) (n : Node)
    → Extends t t'
    → lstat t p ≡ found n
    → lstat t' p ≡ found n
unfolding lstat
lstat-Extends t t' [] n h e = e
lstat-Extends t t' (c ∷ p) n h e =
    let (up, here) = go_on-found (lstat t p) (lookup (c ∷ p) t) n e in
    rw (lstat-Extends t t' p directory h up, h (c ∷ p) n here) refl

-- What is found below a directory.
pub lstat_below :
    (t : Tree) (c : Bytes) (p : TarPath)
    → lstat t p ≡ found directory
    → lstat t (c ∷ p) ≡ entry (lookup (c ∷ p) t)
unfolding lstat
lstat_below t c p e = rw e refl

-- An entry below a directory is found.
pub lstat-found :
    (t t' : Tree) (c : Bytes) (p : TarPath) (n : Node)
    → Extends t t'
    → lstat t p ≡ found directory
    → lookup (c ∷ p) t' ≡ some n
    → lstat t' (c ∷ p) ≡ found n
lstat-found t t' c p n ext up here =
    rw (lstat_below t' c p (lstat-Extends t t' p directory ext up), here) refl
