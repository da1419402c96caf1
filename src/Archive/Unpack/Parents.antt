-- ===== src/Archive/Unpack/Parents.antt =====
-- `ensurePathParent` of pkg/fileutils/tarxfer.go: the parents of a path.
use container_builder_shim.Common.{
  [], ◌∷◌, ◌≡◌, ◌≢◌, refl, inl, inr, none, some, Option-cases, arith, subst, sym, ◌∙◌,
}
use container_builder_shim.Common.Bytes.{Bytes}
use container_builder_shim.Common.Dict.{lookup, insert, lookup-insert_cases, lookup-insert}
use container_builder_shim.Common.Fallible.{Fallible, value, failure, ◌>>=◌}
use container_builder_shim.Archive.Tree.{
  TarPath, Node, directory, regular, symlink, Tree, Error, follows_symlink, found, lstat, add,
  Extends, Extends-trans, insert-Extends, lstat-Extends, lstat_below, lstat-found,
}
use container_builder_shim.Archive.Unpack.{
  ensure_at, ensure_path, ensure_path_parent, ensure_new_path, ensure_directory,
}
use container_builder_shim.Common.Path.{path_eq}

-- A call that keeps every entry, ends in what it promises, and never goes through a symbolic link.
abbrev pub Grows : (Tree → Type 0) → Tree → Fallible Error Tree → Type 0
Grows Q t (value t') = Extends t t' × Q t'
Grows Q t (failure e) = e ≢ follows_symlink

Grows-trans :
    (R : Tree → Type 0) (t t' : Tree) (r : Fallible Error Tree)
    → Extends t t'
    → Grows R t' r
    → Grows R t r
Grows-trans R t t' (value t'') ext (ext', q) = (Extends-trans t t' t'' ext ext', q)
Grows-trans R t t' (failure e) ext h = h

pub Grows->>= :
    (Q R : Tree → Type 0) (t : Tree) (m : Fallible Error Tree) (f : Tree → Fallible Error Tree)
    → Grows Q t m
    → ((t' : Tree) → Extends t t' → Q t' → Grows R t' (f t'))
    → Grows R t (m >>= f)
Grows->>= Q R t (failure e) f h k = h
Grows->>= Q R t (value t') f (ext, q) k = Grows-trans R t t' (f t') ext (k t' ext q)

pub Grows-mono :
    (Q R : Tree → Type 0) (t : Tree) (r : Fallible Error Tree)
    → ((t' : Tree) → Extends t t' → Q t' → R t')
    → Grows Q t r
    → Grows R t r
Grows-mono Q R t (value t') h (ext, q) = (ext, h t' ext q)
Grows-mono Q R t (failure e) h k = k

pub Grows-value :
    (Q : Tree → Type 0) (t : Tree) (r : Fallible Error Tree) (t' : Tree)
    → Grows Q t r
    → r ≡ value t'
    → Extends t t' × Q t'
Grows-value Q t r t' h e = subst (Grows Q t) e h

pub Grows-failure :
    (Q : Tree → Type 0) (t : Tree) (r : Fallible Error Tree)
    → Grows Q t r
    → r ≢ failure follows_symlink
Grows-failure Q t r h e = (subst (Grows Q t) e h) refl

-- What may be an entry, closed under parents.
module _ (P : TarPath → Node → Type 0) where
  -- Every entry may be one, and its parent is a directory.
  abbrev pub IsSound : Tree → Type 0
  IsSound t =
      (c : Bytes) (p : TarPath) (n : Node)
      → lookup (c ∷ p) t ≡ some n
      → P (c ∷ p) n × (lstat t p ≡ found directory)

  pub insert-IsSound :
      (t : Tree) (c : Bytes) (p : TarPath) (n : Node)
      → IsSound t
      → P (c ∷ p) n
      → lstat t p ≡ found directory
      → lookup (c ∷ p) t ≡ none
      → IsSound (insert (c ∷ p) n t)
  insert-IsSound t c p n s ok up free d q m e =
      let ext = insert-Extends t (c ∷ p) n free in
      elim (lookup-insert_cases (d ∷ q) (c ∷ p) n m t e) [
        | inl (same, at) ↦
            let parents : q ≡ p = cc in
            let above : lstat t q ≡ found directory =
              subst (λ r. lstat t r ≡ found directory) (sym parents) up in
            (
              subst (λ r. P r m) (sym same) (subst (P (c ∷ p)) at ok),
              lstat-Extends t (insert (c ∷ p) n t) q directory ext above,
            )
        | inr old ↦
            let (fits, above) = s d q m old in
            (fits, lstat-Extends t (insert (c ∷ p) n t) q directory ext above)
      ]

  -- A call that makes an entry at a free path below a directory.
  pub add-Grows :
      (t : Tree) (c : Bytes) (p : TarPath) (n : Node)
      → IsSound t
      → P (c ∷ p) n
      → lstat t p ≡ found directory
      → lookup (c ∷ p) t ≡ none
      → Grows (λ t'. IsSound t' × (lookup (c ∷ p) t' ≡ some n)) t (add t (c ∷ p) n)
  unfolding add
  add-Grows t c p n s ok up free =
      rw (lstat_below t c p up, free)
        (
          insert-Extends t (c ∷ p) n free,
          (insert-IsSound t c p n s ok up free, ground (arith, lookup-insert (c ∷ p) (c ∷ p) n t)),
        )

  module _
      (parent : (c d : Bytes) (p : TarPath) (n : Node)
        → P (c ∷ d ∷ p) n
        → P (d ∷ p) directory) where
    ensure_at-Grows :
        (t : Tree) (c : Bytes) (p : TarPath)
        → IsSound t
        → P (c ∷ p) directory
        → lstat t p ≡ found directory
        → Grows
            (λ t'. IsSound t' × (lstat t' (c ∷ p) ≡ found directory))
            t
            (ensure_at t (c ∷ p) (lstat t (c ∷ p)))
    ensure_at-Grows t c p s ok up = elim (Option-cases (lookup (c ∷ p) t)) [
      | inl free ↦
          rw (lstat_below t c p up, free)
            (Grows-mono (λ t'. IsSound t' × (lookup (c ∷ p) t' ≡ some directory)) _ t
              (add t (c ∷ p) directory)
              (λ t' ext q. (q.0, lstat-found t t' c p directory ext up q.1))
              (add-Grows t c p directory s ok up free))
      | inr (directory, here) ↦
          rw (lstat_below t c p up, here) ((λ q n e. e), (s, lstat_below t c p up ∙ rw here refl))
      | inr (regular _ _, here) ↦ rw (lstat_below t c p up, here) (λ e. cc)
      | inr (symlink _, here) ↦ rw (lstat_below t c p up, here) (λ e. cc)
    ]

    -- The path may be a directory; the root is one.
    abbrev pub MayBeDirectory : TarPath → Type 0
    MayBeDirectory [] = Unit
    MayBeDirectory (c ∷ p) = P (c ∷ p) directory

    pub parent-MayBeDirectory :
        (c : Bytes) (p : TarPath) (n : Node) → P (c ∷ p) n → MayBeDirectory p
    parent-MayBeDirectory c [] n ok = tt
    parent-MayBeDirectory c (d ∷ p) n ok = parent c d p n ok

    pub ensure_path-Grows :
        (t : Tree) (p : TarPath)
        → IsSound t
        → MayBeDirectory p
        → Grows (λ t'. IsSound t' × (lstat t' p ≡ found directory)) t (ensure_path t p)
    unfolding ensure_path lstat
    ensure_path-Grows t [] s ok = ((λ q n e. e), (s, refl))
    ensure_path-Grows t (c ∷ p) s ok =
        Grows->>= (λ t'. IsSound t' × (lstat t' p ≡ found directory)) _ t (ensure_path t p) _
          (ensure_path-Grows t p s (parent-MayBeDirectory c p directory ok))
          (λ t' ext q. ensure_at-Grows t' c p q.0 ok q.1)

    -- What the calls after `ensureNewPath` need: the parent is a directory and the path is free.
    abbrev pub IsFree : Bytes → TarPath → Tree → Type 0
    IsFree c p t = IsSound t × (lstat t p ≡ found directory) × (lookup (c ∷ p) t ≡ none)

    pub ensure_new_path-Grows :
        (t : Tree) (c : Bytes) (p : TarPath) (n : Node)
        → IsSound t
        → P (c ∷ p) n
        → Grows (IsFree c p) t (ensure_new_path t (c ∷ p))
    unfolding ensure_new_path ensure_path_parent
    ensure_new_path-Grows t c p n s ok =
        Grows->>= (λ t'. IsSound t' × (lstat t' p ≡ found directory)) _ t (ensure_path t p) _
          (ensure_path-Grows t p s (parent-MayBeDirectory c p n ok))
          (λ t' ext q. elim (Option-cases (lookup (c ∷ p) t')) [
            | inl free ↦ rw (lstat_below t' c p q.1, free) ((λ q n e. e), (q.0, q.1, free))
            | inr (m, here) ↦ rw (lstat_below t' c p q.1, here) (λ e. cc)
          ])

    pub ensure_directory-Grows :
        (t : Tree) (c : Bytes) (p : TarPath)
        → IsSound t
        → P (c ∷ p) directory
        → Grows
            (λ t'. IsSound t' × (lookup (c ∷ p) t' ≡ some directory))
            t
            (ensure_directory t (c ∷ p))
    unfolding ensure_directory ensure_path_parent
    ensure_directory-Grows t c p s ok =
        Grows->>= (λ t'. IsSound t' × (lstat t' p ≡ found directory)) _ t (ensure_path t p) _
          (ensure_path-Grows t p s (parent-MayBeDirectory c p directory ok))
          (λ t' ext q. elim (Option-cases (lookup (c ∷ p) t')) [
            | inl free ↦
                rw (lstat_below t' c p q.1, free) (add-Grows t' c p directory q.0 ok q.1 free)
            | inr (directory, here) ↦ rw (lstat_below t' c p q.1, here) ((λ q n e. e), (q.0, here))
            | inr (regular _ _, here) ↦ rw (lstat_below t' c p q.1, here) (λ e. cc)
            | inr (symlink _, here) ↦ rw (lstat_below t' c p q.1, here) (λ e. cc)
          ])
