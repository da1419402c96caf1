-- ===== src/Archive/Unpack/Written.antt =====
-- `unpackTar` of pkg/fileutils/tarxfer.go: what a header leaves in the tree.
use container_builder_shim.Common.{
  ℕ, ◌%◌, List, [], ◌∷◌, ◌≡◌, ◌≢◌, refl, inl, inr, Option, none, some, Option-cases,
}
use container_builder_shim.Common.Bytes.{Bytes}
use container_builder_shim.Common.Dict.{lookup}
use container_builder_shim.Common.Fallible.{value, failure, ◌>>=◌}
use container_builder_shim.Archive.Tree.{
  TarPath, Node, directory, regular, symlink, Tree, follows_symlink, unsupported_type, found, lstat,
  add, Extends, lstat_below,
}
use container_builder_shim.Archive.Unpack.{
  tar_target, Typeflag, ensure_path, ensure_path_parent, ensure_new_path, ensure_directory,
  Typeflag, type_dir, type_reg, type_symlink, type_link, type_other, Header, write_regular,
  write_symlink, write_link, write_entry, unpack_entry, unpack,
}
use container_builder_shim.Archive.Unpack.Parents.{
  Grows, Grows->>=, Grows-mono, Grows-value, Grows-failure, IsSound, add-Grows,
  parent-MayBeDirectory, ensure_path-Grows, IsFree, ensure_new_path-Grows, ensure_directory-Grows,
}
use container_builder_shim.Archive.Unpack.Reserved.{IsAllowed, parent-IsAllowed, tar_target-cases}
use container_builder_shim.Common.Path.{path_eq}

-- The entry that a header of a type asks for, at its path.
abbrev pub Holds : Tree → TarPath → Header → Typeflag → Type 0
Holds t p h type_dir = lookup p t ≡ some directory
Holds t p h type_reg =
    (b : Bytes) × (h.data_of ≡ some b) × (lookup p t ≡ some (regular b (h.mode % 512)))
Holds t p h type_symlink = lookup p t ≡ some (symlink h.linkname)
Holds t p h type_link =
    (q : TarPath) × (n : Node) × (tar_target h.linkname ≡ value q)
    × (lookup q t ≡ some n)
    × (lookup p t ≡ some n)
Holds t p h type_other = ⊥

-- The tree has what the header asks for.
abbrev pub HasEntry : Tree → Header → Type 0
HasEntry t h = (p : TarPath) × (tar_target h.name ≡ value p) × Holds t p h h.typeflag

Holds-Extends :
    (t t' : Tree) (p : TarPath) (h : Header) (f : Typeflag)
    → Extends t t'
    → Holds t p h f
    → Holds t' p h f
Holds-Extends t t' p h type_dir ext e = ext p directory e
Holds-Extends t t' p h type_reg ext (b, read, e) = (b, read, ext p (regular b (h.mode % 512)) e)
Holds-Extends t t' p h type_symlink ext e = ext p _ e
Holds-Extends t t' p h type_link ext (q, n, to, a, b) = (q, n, to, ext q n a, ext p n b)
Holds-Extends t t' p h type_other ext e = e

HasEntry-Extends : (t t' : Tree) (h : Header) → Extends t t' → HasEntry t h → HasEntry t' h
HasEntry-Extends t t' h ext (p, to, holds) = (p, to, Holds-Extends t t' p h h.typeflag ext holds)

-- Entries that may be there, below directories.
abbrev pub IsArchive : Tree → Type 0
IsArchive t = IsSound IsAllowed t

abbrev Ready : Bytes → TarPath → Tree → Type 0
Ready c p t = IsFree IsAllowed parent-IsAllowed c p t

abbrev Done : TarPath → Node → Tree → Type 0
Done p n t = IsArchive t × (lookup p t ≡ some n)

write_new :
    (t : Tree) (c : Bytes) (p : TarPath) (n : Node)
    → Ready c p t
    → IsAllowed (c ∷ p) n
    → Grows (Done (c ∷ p) n) t (add t (c ∷ p) n)
write_new t c p n (s, up, free) ok = add-Grows IsAllowed t c p n s ok up free

write_symlink-Grows :
    (t : Tree) (c : Bytes) (p : TarPath) (linkname : Bytes)
    → IsArchive t
    → ((n : Node) → IsAllowed (c ∷ p) n)
    → Grows (Done (c ∷ p) (symlink linkname)) t (write_symlink t (c ∷ p) linkname)
unfolding write_symlink
write_symlink-Grows t c p linkname s ok =
    Grows->>= (Ready c p) _ t (ensure_new_path t (c ∷ p)) _
      (ensure_new_path-Grows IsAllowed parent-IsAllowed t c p directory s (ok directory))
      (λ t' ext q. write_new t' c p (symlink linkname) q (ok (symlink linkname)))

write_regular-Grows :
    (t : Tree) (c : Bytes) (p : TarPath) (mode : ℕ) (contents : Option Bytes)
    → IsArchive t
    → ((n : Node) → IsAllowed (c ∷ p) n)
    → Grows
        (λ t'.
          IsArchive t'
          × ((b : Bytes) × (contents ≡ some b)
              × (lookup (c ∷ p) t' ≡ some (regular b (mode % 512)))))
        t
        (write_regular t (c ∷ p) mode contents)
unfolding write_regular
write_regular-Grows t c p mode (some b) s ok =
    Grows->>= (Ready c p) _ t (ensure_new_path t (c ∷ p)) _
      (ensure_new_path-Grows IsAllowed parent-IsAllowed t c p directory s (ok directory))
      (λ t' ext q.
        Grows->>= (Done (c ∷ p) (regular b (mode % 512))) _ t'
          (add t' (c ∷ p) (regular b (mode % 512))) _
          (write_new t' c p (regular b (mode % 512)) q (ok (regular b (mode % 512))))
          (λ t'' ext' r. ((λ q n e. e), (r.0, (b, refl, r.1)))))
write_regular-Grows t c p mode none s ok =
    Grows->>= (Ready c p) _ t (ensure_new_path t (c ∷ p)) _
      (ensure_new_path-Grows IsAllowed parent-IsAllowed t c p directory s (ok directory))
      (λ t' ext q.
        Grows->>= (Done (c ∷ p) (regular [] (mode % 512))) _ t'
          (add t' (c ∷ p) (regular [] (mode % 512))) _
          (write_new t' c p (regular [] (mode % 512)) q (ok (regular [] (mode % 512))))
          (λ t'' ext' r. λ e. cc))

abbrev Linked : TarPath → Bytes → Tree → Type 0
Linked p linkname t =
    IsArchive t
    × ((q : TarPath) × (n : Node) × (tar_target linkname ≡ value q)
        × (lookup q t ≡ some n)
        × (lookup p t ≡ some n))

-- A link to a regular file that is there.
link_to :
    (t : Tree) (c : Bytes) (p q : TarPath) (linkname : Bytes) (n : Node)
    → IsArchive t
    → ((m : Node) → IsAllowed (c ∷ p) m)
    → tar_target linkname ≡ value q
    → lookup q t ≡ some n
    → Grows (Linked (c ∷ p) linkname) t (ensure_new_path t (c ∷ p) >>= λ t'. add t' (c ∷ p) n)
link_to t c p q linkname n s ok to there =
    Grows-mono (λ t'. Done (c ∷ p) n t') _ t _ (λ t' ext r. (r.0, (q, n, to, ext q n there, r.1)))
      (Grows->>= (Ready c p) _ t (ensure_new_path t (c ∷ p)) _
        (ensure_new_path-Grows IsAllowed parent-IsAllowed t c p directory s (ok directory))
        (λ t' ext r. write_new t' c p n r (ok n)))

write_link-Grows :
    (t : Tree) (c : Bytes) (p : TarPath) (linkname : Bytes)
    → IsArchive t
    → ((n : Node) → IsAllowed (c ∷ p) n)
    → Grows (Linked (c ∷ p) linkname) t (write_link t (c ∷ p) linkname)
unfolding write_link ensure_path_parent
write_link-Grows t c p linkname s ok = elim (tar_target-cases linkname) [
  | inr (e, to, other) ↦ rw to (λ f. other cc)
  | inl (d, r, to, allowed) ↦ rw to (
      Grows->>= (λ t'. IsArchive t' × (lstat t' r ≡ found directory)) _ t (ensure_path t r) _
        (ensure_path-Grows IsAllowed parent-IsAllowed t r s
          (parent-MayBeDirectory IsAllowed parent-IsAllowed d r directory (allowed directory)))
        (λ t' ext q. elim (Option-cases (lookup (d ∷ r) t')) [
          | inl free ↦ rw (lstat_below t' d r q.1, free) (λ e. cc)
          | inr (directory, here) ↦ rw (lstat_below t' d r q.1, here) (λ e. cc)
          | inr (symlink _, here) ↦ rw (lstat_below t' d r q.1, here) (λ e. cc)
          | inr (regular b m, here) ↦
              rw (lstat_below t' d r q.1, here)
                (link_to t' c p (d ∷ r) linkname (regular b m) q.0 ok to here)
        ]))
]

-- A header's step, for each of the types.
write_entry-Grows :
    (t : Tree) (c : Bytes) (p : TarPath) (h : Header)
    → IsArchive t
    → ((n : Node) → IsAllowed (c ∷ p) n)
    → Grows (λ t'. IsArchive t' × Holds t' (c ∷ p) h h.typeflag) t (write_entry t (c ∷ p) h)
unfolding write_entry
write_entry-Grows t c p h s ok =
    elim h.typeflag
      as (λ f.
        Grows (λ t'. IsArchive t' × Holds t' (c ∷ p) h f) t
          (elim f [
            | type_dir ↦ ensure_directory t (c ∷ p)
            | type_reg ↦ write_regular t (c ∷ p) h.mode h.data_of
            | type_symlink ↦ write_symlink t (c ∷ p) h.linkname
            | type_link ↦ write_link t (c ∷ p) h.linkname
            | type_other ↦ failure unsupported_type
          ])) [
            | type_dir ↦ ensure_directory-Grows IsAllowed parent-IsAllowed t c p s (ok directory)
            | type_reg ↦ write_regular-Grows t c p h.mode h.data_of s ok
            | type_symlink ↦ write_symlink-Grows t c p h.linkname s ok
            | type_link ↦ write_link-Grows t c p h.linkname s ok
            | type_other ↦ λ e. cc
          ]

unpack_entry-Grows :
    (t : Tree) (h : Header)
    → IsArchive t
    → Grows (λ t'. IsArchive t' × HasEntry t' h) t (unpack_entry t h)
unfolding unpack_entry
unpack_entry-Grows t h s = elim (tar_target-cases h.name) [
  | inr (e, to, other) ↦ rw to (λ f. other cc)
  | inl (c, p, to, allowed) ↦ rw to (
      Grows-mono (λ t'. IsArchive t' × Holds t' (c ∷ p) h h.typeflag) _ t (write_entry t (c ∷ p) h)
        (λ t' ext q. (q.0, (c ∷ p, refl, q.1))) (write_entry-Grows t c p h s allowed))
]

-- What the headers ask for, a header that cannot be read never.
abbrev pub HasEntries : List (Option Header) → Tree → Type 0
HasEntries [] t = Unit
HasEntries (none ∷ rest) t = ⊥
HasEntries (some h ∷ rest) t = HasEntry t h × HasEntries rest t

unpack-Grows :
    (t : Tree) (headers : List (Option Header))
    → IsArchive t
    → Grows (λ t'. IsArchive t' × HasEntries headers t') t (unpack t headers)
unfolding unpack
unpack-Grows t [] s = ((λ q n e. e), (s, tt))
unpack-Grows t (none ∷ rest) s = λ e. cc
unpack-Grows t (some h ∷ rest) s =
    Grows->>= (λ t'. IsArchive t' × HasEntry t' h) _ t (unpack_entry t h) _
      (unpack_entry-Grows t h s)
      (λ t' ext q.
        Grows-mono (λ u. IsArchive u × HasEntries rest u) _ t' (unpack t' rest)
          (λ u on r. (r.0, (HasEntry-Extends t' u h on q.1, r.1))) (unpack-Grows t' rest q.0))

empty-IsArchive : IsArchive []
unfolding lookup
empty-IsArchive c p n e = absurd cc

-- Whatever an archive holds, unpacking it into an empty directory never goes through a symbolic
-- link: no call is made below one, so nothing outside the directory is read or written.
pub unpack-follows_nothing :
    (headers : List (Option Header)) → unpack [] headers ≢ failure follows_symlink
unpack-follows_nothing headers e =
    absurd (Grows-failure _ [] (unpack [] headers) (unpack-Grows [] headers empty-IsArchive) e)

-- If unpacking an archive into an empty directory succeeds, every header was read and the tree has
-- what each asks for: the directory, the file with its data and its permissions, the symbolic link
-- with its target, or the hard link's file at both paths.
pub unpack-HasEntries :
    (headers : List (Option Header)) (t : Tree) → unpack [] headers ≡ value t → HasEntries headers t
unpack-HasEntries headers t e =
    (Grows-value _ [] (unpack [] headers) t (unpack-Grows [] headers empty-IsArchive) e).1.1

-- If unpacking an archive into an empty directory succeeds, the parent of every entry is a
-- directory, every path is made of names other than `.` and `..`, none is the staging directory of
-- the Dockerfile or below it, and only a directory has the name of the completion marker.
pub unpack-IsArchive :
    (headers : List (Option Header)) (t : Tree) → unpack [] headers ≡ value t → IsArchive t
unpack-IsArchive headers t e =
    (Grows-value _ [] (unpack [] headers) t (unpack-Grows [] headers empty-IsArchive) e).1.0
