-- ===== src/Common/Path.antt =====
-- Go's package path/filepath on Unix: a path is the list of its components, with a flag for a rooted one.
use container_builder_shim.Common.Equality.{Eq, ◌==◌, nat_eq, bytes_eq, bytes_discrete}
use container_builder_shim.Common.Tests.{if◌then◌else◌, ltb}
use container_builder_shim.Common.Lists.{All}
use container_builder_shim.Common.Bytes.{Bytes, codes}
use container_builder_shim.Common.Text.{join}
use Prim.Native.Nat.{ℕ, zero, suc}
use mathlib.Core.Logic.{◌≢◌, ite}
use mathlib.Core.Bool.{Bool, true, false, ◌&&◌, ◌||◌, not}
use mathlib.Core.List.{List, [], ◌∷◌}
use native.Mathlib.Omega.{arith}

abbrev pub slash : ℕ
slash = 47

abbrev pub comma : ℕ
comma = 44

-- The first field of what is split gets one more byte.
abbrev onto_first : ℕ → List Bytes → List Bytes
onto_first c [] = (c ∷ []) ∷ []
onto_first c (s ∷ fields) = (c ∷ s) ∷ fields

-- `strings.Split` at one byte.
unfoldable pub split : ℕ → Bytes → List Bytes
unfolding nat_eq
split sep [] = [] ∷ []
split sep (c ∷ s) = let rest = split sep s in if c == sep then [] ∷ rest else onto_first c rest

instance unfoldable pub path_eq : Eq (List Bytes)
unfolding bytes_discrete
path_eq = record { dec = hlevel bytes_discrete }

-- The order of `<` on strings.
unfoldable pub lt_bytes : Bytes → Bytes → Bool
unfolding nat_eq
lt_bytes [] [] = false
lt_bytes [] (_ ∷ _) = true
lt_bytes (_ ∷ _) [] = false
lt_bytes (b ∷ s) (c ∷ t) = if b == c then lt_bytes s t else ltb b c

-- What `filepath.Clean` leaves: `..` so many times, then names.
pub record CleanPath : Type 0 where
  pub rooted : Bool
  pub ups : ℕ
  pub names : List Bytes

abbrev reverse_onto : List Bytes → List Bytes → List Bytes
reverse_onto acc [] = acc
reverse_onto acc (c ∷ s) = reverse_onto (c ∷ acc) s

abbrev pub dot : Bytes
dot = codes "."

abbrev pub dot_dot : Bytes
dot_dot = codes ".."

-- A component `..` takes back the last name; the names here are last first.
abbrev go_up : Bool → ℕ → List Bytes → ℕ × List Bytes
go_up rooted ups (c ∷ names) = (ups, names)
go_up true ups [] = (ups, [])
go_up false ups [] = (suc ups, [])

unfoldable pub clean_step : Bool → ℕ × List Bytes → Bytes → ℕ × List Bytes
unfolding bytes_eq
clean_step rooted (ups, names) c =
    if c == [] || c == dot
    then (ups, names)
    else if c == dot_dot
    then go_up rooted ups names
    else (ups, c ∷ names)

unfoldable pub clean_onto : Bool → ℕ × List Bytes → List Bytes → ℕ × List Bytes
unfolding clean_step
clean_onto rooted (ups, names) [] = (ups, reverse_onto [] names)
clean_onto rooted (ups, names) (c ∷ fields) =
    clean_onto rooted (clean_step rooted (ups, names) c) fields

abbrev is_rooted : Bytes → Bool
is_rooted [] = false
is_rooted (c ∷ s) = ite (nat_eq.dec c slash) true false

-- `filepath.Clean`
unfoldable pub clean : Bytes → CleanPath
unfolding split clean_onto nat_eq
clean p =
    let (ups, names) = clean_onto (is_rooted p) (0, []) (split slash p) in
    record { rooted = is_rooted p; ups = ups; names = names }

-- `filepath.IsLocal` of a clean path.
unfoldable pub is_local : CleanPath → Bool
unfolding nat_eq
is_local p = not p.rooted && p.ups == 0

abbrev repeat : ℕ → Bytes → List Bytes → List Bytes
repeat zero c names = names
repeat (suc n) c names = c ∷ repeat n c names

abbrev or_dot : List Bytes → Bytes
or_dot [] = dot
or_dot (c ∷ names) = join (slash ∷ []) (c ∷ names)

abbrev show : CleanPath → Bytes
show p =
    if p.rooted then slash ∷ join (slash ∷ []) p.names else or_dot (repeat p.ups dot_dot p.names)

-- `filepath.Clean`, as text.
unfoldable pub clean_text : Bytes → Bytes
unfolding clean join
clean_text p = show (clean p)

-- A name of a directory's entry, as `Clean` leaves it.
abbrev pub IsName : Bytes → Type 0
IsName c = (c ≢ []) × (c ≢ dot) × (c ≢ dot_dot)

reverse_onto-All :
    (acc s : List Bytes) → All IsName acc → All IsName s → All IsName (reverse_onto acc s)
reverse_onto-All acc [] h k = h
reverse_onto-All acc (c ∷ s) h k = reverse_onto-All (c ∷ acc) s (k.0, h) k.1

clean_step-All :
    (rooted : Bool) (s : ℕ × List Bytes) (c : Bytes)
    → All IsName s.1
    → All IsName (clean_step rooted s c).1
unfolding clean_step bytes_eq
clean_step-All rooted (ups, []) c h = ground arith
clean_step-All rooted (ups, n ∷ names) c h = ground arith

clean_onto-All :
    (rooted : Bool) (s : ℕ × List Bytes) (fields : List Bytes)
    → All IsName s.1
    → All IsName (clean_onto rooted s fields).1
unfolding clean_onto
clean_onto-All rooted (ups, names) [] h = reverse_onto-All [] names tt h
clean_onto-All rooted (ups, names) (c ∷ fields) h =
    clean_onto-All rooted (clean_step rooted (ups, names) c) fields
      (clean_step-All rooted (ups, names) c h)

pub clean-All : (p : Bytes) → All IsName (clean p).names
unfolding clean
clean-All p = clean_onto-All (is_rooted p) (0, []) (split slash p) tt
