-- ===== src/Build/Request/Maps.antt =====
-- pkg/build/buildopts.go: the maps of a request, built by `m[key] = value` from left to right.
use container_builder_shim.Common.{
  ◌≡◌, refl, sym, ap, ◌∙◌, Bool, true, false, Option, none, some, List, [], ◌∷◌, if◌then◌else◌,
  ◌==◌, bytes_eq,
}
use container_builder_shim.Common.Bytes.{Bytes}
use container_builder_shim.Common.Text.{cut, equals_sign}
use container_builder_shim.Common.Dict.{lookup, insert, lookup-insert}
use container_builder_shim.Build.{Strings}
use container_builder_shim.Build.Request.{string_map_onto, extract_string_map}

-- `o`, or the other one where there is none.
abbrev pub or_else : Option Bytes → Option Bytes → Option Bytes
or_else (some v) other = some v
or_else none other = other

-- The value of the last entry for the key.
abbrev pub last_binding : Bytes → List Bytes → Option Bytes
last_binding key [] = none
last_binding key (raw ∷ values) =
    let (name, mapped, found) = cut equals_sign raw in
    or_else (last_binding key values)
      (if key == name then some (if found then mapped else []) else none)

or_else_assoc : (a b c : Option Bytes) → or_else (or_else a b) c ≡ or_else a (or_else b c)
or_else_assoc (some _) b c = refl
or_else_assoc none b c = refl

or_else-if :
    (t : Bool) (v : Option Bytes) (w : Bytes)
    → (if t then some w else v) ≡ or_else (if t then some w else none) v
or_else-if true v w = refl
or_else-if false v w = refl

lookup-string_map_onto :
    (key : Bytes) (result : Strings) (values : List Bytes)
    → lookup key (string_map_onto result values)
      ≡ or_else (last_binding key values) (lookup key result)
unfolding string_map_onto
lookup-string_map_onto key result [] = refl
lookup-string_map_onto key result (raw ∷ values) =
    let p = cut equals_sign raw in
    let v = if p.2 then p.1 else [] in
    lookup-string_map_onto key (insert p.0 v result) values
    ∙ ap (or_else (last_binding key values))
        (lookup-insert key p.0 v result ∙ or_else-if (key == p.0) (lookup key result) v)
    ∙ sym (
        or_else_assoc (last_binding key values) (if key == p.0 then some v else none)
          (lookup key result))

pub or_else-none : (o : Option Bytes) → or_else o none ≡ o
or_else-none none = refl
or_else-none (some _) = refl

-- A key of `labels` or `build-args` has the value of its last entry, and no key has a value
-- without an entry.
pub lookup-extract_string_map :
    (key : Bytes) (values : List Bytes)
    → lookup key (extract_string_map values) ≡ last_binding key values
unfolding extract_string_map lookup
lookup-extract_string_map key values =
    lookup-string_map_onto key [] values ∙ or_else-none (last_binding key values)
