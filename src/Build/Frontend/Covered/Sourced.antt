-- ===== src/Build/Frontend/Covered/Sourced.antt =====
-- `resolve` of pkg/build/frontend.go: the image that a name stands for has its state.
use container_builder_shim.Common.{
  Bool, true, false, Option, none, some, Option-cases, [], ◌++◌, ◌≡◌, refl, sym, ap, subst, ◌⊎◌,
  inl, inr, if-cases, bytes_eq, arith, ◌==◌, equal_of, ◌||◌,
}
use container_builder_shim.Common.Bytes.{Bytes, codes}
use container_builder_shim.Common.Text.{to_lower, trim_suffix}
use container_builder_shim.Common.Dict.{lookup, insert, lookup-insert}
use container_builder_shim.Common.Fallible.{value, >>=-value, ◌>>=◌}
use container_builder_shim.Build.{Platform}
use container_builder_shim.Common.Fallible.{value-injective}
use container_builder_shim.Build.Frontend.{
  Sources, StateMeta, States, source_of, put, resolve, Reference, Answer, answered, object_required,
  refused, Image, resolved_image_state, state_name, image_source, reference_source, equal_fold,
}

-- The states have an entry of the name.
abbrev pub IsPresent : Bytes → States → Type 0
IsPresent k states = (s : StateMeta) × (lookup k states ≡ some s)

pub or-cases : (a b : Bool) → (a || b) ≡ true → (a ≡ true) ⊎ (b ≡ true)
or-cases true b e = inl refl
or-cases false b e = inr e

-- Every name of the one is a name of the other.
abbrev pub Grows : States → States → Type 0
Grows s t = (k : Bytes) → IsPresent k s → IsPresent k t

insert-Grows : (k : Bytes) (m : StateMeta) (s : States) → Grows s (insert k m s)
insert-Grows k m s j (v, e) = elim (Option-cases (lookup j (insert k m s))) [
  | inr (w, f) ↦ (w, f)
  | inl f ↦ absurd (let at = lookup-insert j k m s in ground (arith, at))
]

insert-IsPresent : (k : Bytes) (m : StateMeta) (s : States) → IsPresent k (insert k m s)
insert-IsPresent k m s = (m, ground (arith, lookup-insert k k m s))

module _ (lib : Sources) where
  -- The name stands for no image: it is reserved, no reference, or one whose image has no digest; or
  -- the states have an entry under the familiar name of its image and the platform.
  pub data IsCovered (name : Bytes) (platform : Platform) (states : States) : Type 0 where
    scratch : to_lower name ≡ codes "scratch" → IsCovered name platform states
    context : to_lower name ≡ codes "context" → IsCovered name platform states
    no_reference : lib.parse_reference name ≡ object_required → IsCovered name platform states
    no_image :
        lib.resolve_image_config name platform ≡ object_required → IsCovered name platform states
    no_digest :
        (image : Image)
        → lib.resolve_image_config name platform ≡ answered image
        → image.digest ≡ []
        → IsCovered name platform states
    stored :
        (ref : Reference) (image : Image) (familiar : Bytes)
        → lib.parse_reference name ≡ answered ref
        → lib.resolve_image_config name platform ≡ answered image
        → lib.familiar_name ref.text ≡ value familiar
        → IsPresent
            (trim_suffix (codes ":latest") familiar
              ++ codes "::"
              ++ lib.format_all (lib.normalize platform))
            states
        → IsCovered name platform states

  -- What a source says of its name, before it is in the states.
  abbrev IsFor : Bytes → Platform → Option (Bytes × StateMeta) → Type 0
  IsFor name platform none = (states : States) → IsCovered name platform states
  IsFor name platform (some (k, m)) =
      (states : States) → IsPresent k states → IsCovered name platform states

  resolved-IsFor :
      (name : Bytes) (platform : Platform) (ref : Reference) (image : Image)
      (o : Option (Bytes × StateMeta))
      → lib.parse_reference name ≡ answered ref
      → lib.resolve_image_config name platform ≡ answered image
      → (resolved_image_state lib ref image platform >>= λ entry. value (some entry)) ≡ value o
      → IsFor name platform o
  unfolding resolved_image_state state_name
  resolved-IsFor name platform ref image o r i e =
      let (entry, e', same) = >>=-value (resolved_image_state lib ref image platform) _ e in
      let (familiar, f, e'') = >>=-value (lib.familiar_name ref.text) _ e' in
      let (metadata, g, last) = >>=-value (lib.marshal_metadata image.config) _ e'' in
      let at = value-injective last in
      subst (IsFor name platform) (value-injective same) (λ states here.
        stored ref image familiar r i f
          (subst (λ k. IsPresent k states) (sym (ap (λ x. x.0) at)) here))

  image-IsFor :
      (name : Bytes) (platform : Platform) (ref : Reference) (a : Answer Image)
      (o : Option (Bytes × StateMeta))
      → lib.parse_reference name ≡ answered ref
      → lib.resolve_image_config name platform ≡ a
      → image_source lib ref platform a ≡ value o
      → IsFor name platform o
  image-IsFor name platform ref object_required o r i e =
      subst (IsFor name platform) (value-injective e) (λ states. no_image i)
  image-IsFor name platform ref (refused x) o r i e = absurd cc
  image-IsFor name platform ref (answered image) o r i e =
      elim (if-cases (image.digest == []) _ _ e) [
        | inl (empty, e') ↦
            subst (IsFor name platform) (value-injective e')
              (λ states. no_digest image i (equal_of image.digest [] empty))
        | inr (_, e') ↦ resolved-IsFor name platform ref image o r i e'
      ]

  reference-IsFor :
      (name : Bytes) (platform : Platform) (a : Answer Reference) (o : Option (Bytes × StateMeta))
      → lib.parse_reference name ≡ a
      → reference_source lib name platform a ≡ value o
      → IsFor name platform o
  reference-IsFor name platform object_required o r e =
      subst (IsFor name platform) (value-injective e) (λ states. no_reference r)
  reference-IsFor name platform (refused x) o r e = absurd cc
  reference-IsFor name platform (answered ref) o r e =
      image-IsFor name platform ref (lib.resolve_image_config name platform) o r refl e

  source-IsFor :
      (name : Bytes) (platform : Platform) (o : Option (Bytes × StateMeta))
      → source_of lib name platform ≡ value o
      → IsFor name platform o
  unfolding source_of equal_fold
  source-IsFor name platform o e =
      let is_scratch = to_lower name == codes "scratch" in
      let is_context = to_lower name == codes "context" in
      elim (if-cases (is_scratch || is_context) (value none)
        (reference_source lib name platform (lib.parse_reference name)) e) [
          | inl (reserved, e') ↦ subst (IsFor name platform) (value-injective e') (λ states.
              elim (or-cases is_scratch is_context reserved) [
                | inl s ↦ scratch (equal_of (to_lower name) (codes "scratch") s)
                | inr c ↦ context (equal_of (to_lower name) (codes "context") c)
              ])
          | inr (_, e') ↦ reference-IsFor name platform (lib.parse_reference name) o refl e'
        ]

  pub IsCovered-Grows :
      (name : Bytes) (platform : Platform) (s t : States)
      → Grows s t
      → IsCovered name platform s
      → IsCovered name platform t
  IsCovered-Grows name platform s t g (scratch e) = scratch e
  IsCovered-Grows name platform s t g (context e) = context e
  IsCovered-Grows name platform s t g (no_reference e) = no_reference e
  IsCovered-Grows name platform s t g (no_image e) = no_image e
  IsCovered-Grows name platform s t g (no_digest image i e) = no_digest image i e
  IsCovered-Grows name platform s t g (stored ref image familiar r i f here) =
      stored ref image familiar r i f (g _ here)

  put-IsCovered :
      (name : Bytes) (platform : Platform) (o : Option (Bytes × StateMeta)) (s : States)
      → source_of lib name platform ≡ value o
      → IsCovered name platform (put lib o s) × Grows s (put lib o s)
  put-IsCovered name platform none s e = (source-IsFor name platform none e s, λ k h. h)
  put-IsCovered name platform (some (k, m)) s e = (
    source-IsFor name platform (some (k, m)) e (insert k m s) (insert-IsPresent k m s),
    insert-Grows k m s,
  )

  pub resolve-IsCovered :
      (name : Bytes) (platform : Platform) (s t : States)
      → resolve lib name platform s ≡ value t
      → IsCovered name platform t × Grows s t
  unfolding resolve
  resolve-IsCovered name platform s t e =
      let (o, found, same) = >>=-value (source_of lib name platform) (λ o. value (put lib o s)) e in
      let at : put lib o s ≡ t = cc in
      subst (λ u. IsCovered name platform u × Grows s u) at (put-IsCovered name platform o s found)
