-- ===== src/Common/Text.antt =====
-- Go's package strings on ASCII text: what the shim's parsers use of it.
use container_builder_shim.Common.Equality.{◌==◌, nat_eq}
use container_builder_shim.Common.Tests.{leb, if◌then◌else◌}
use container_builder_shim.Common.Bytes.{Bytes}
use Prim.Native.Nat.{ℕ, ◌+◌, ◌-◌}
use mathlib.Core.Bool.{Bool, true, false, ◌&&◌, ◌||◌}
use mathlib.Core.List.{List, [], ◌∷◌, ◌++◌, map}
use container_builder_shim.Common.Lists.{length, take, drop}

abbrev pub equals_sign : ℕ
equals_sign = 61

-- `strings.Cut` at one byte: what stands before it, what stands after it, and whether it is there.
unfoldable pub cut : ℕ → Bytes → Bytes × Bytes × Bool
unfolding nat_eq
cut sep [] = ([], [], false)
cut sep (c ∷ s) =
    let (before, after, found) = cut sep s in
    if c == sep then ([], s, true) else (c ∷ before, after, found)

abbrev is_space : ℕ → Bool
is_space c = (leb 9 c && leb c 13) || (leb 32 c && leb c 32)

abbrev reverse_onto : Bytes → Bytes → Bytes
reverse_onto acc [] = acc
reverse_onto acc (c ∷ s) = reverse_onto (c ∷ acc) s

abbrev reverse : Bytes → Bytes
reverse s = reverse_onto [] s

unfoldable pub trim_left : Bytes → Bytes
trim_left [] = []
trim_left (c ∷ s) = let rest = trim_left s in if is_space c then rest else c ∷ s

-- `strings.TrimSpace`
unfoldable pub trim_space : Bytes → Bytes
unfolding trim_left
trim_space s = reverse (trim_left (reverse (trim_left s)))

-- `strings.ToLower`
unfoldable pub to_lower : Bytes → Bytes
to_lower s = map (λ c. if leb 65 c && leb c 90 then c + 32 else c) s

-- `strings.HasPrefix`, the prefix first.
unfoldable pub has_prefix : Bytes → Bytes → Bool
unfolding nat_eq
has_prefix [] s = true
has_prefix (_ ∷ _) [] = false
has_prefix (b ∷ p) (c ∷ s) = b == c && has_prefix p s

-- `strings.TrimPrefix`, the prefix first.
unfoldable pub trim_prefix : Bytes → Bytes → Bytes
unfolding has_prefix drop
trim_prefix p s = if has_prefix p s then drop (length p) s else s

-- `strings.HasSuffix`, the suffix first.
unfoldable pub has_suffix : Bytes → Bytes → Bool
unfolding has_prefix
has_suffix p s = has_prefix (reverse p) (reverse s)

-- `strings.Contains` for one byte.
unfoldable pub contains_byte : ℕ → Bytes → Bool
unfolding nat_eq
contains_byte c [] = false
contains_byte c (b ∷ s) = b == c || contains_byte c s

-- `strings.Join`
unfoldable pub join : Bytes → List Bytes → Bytes
join sep [] = []
join sep (s ∷ []) = s
join sep (s ∷ t ∷ rest) = s ++ sep ++ join sep (t ∷ rest)

-- `strings.TrimSuffix`, the suffix first.
unfoldable pub trim_suffix : Bytes → Bytes → Bytes
unfolding has_suffix take
trim_suffix p s = if has_suffix p s then take (length s - length p) s else s
