-- ===== src/Archive/Cache/Digest.antt =====
-- `validateContextDigest` of pkg/fileutils/tarxfer.go.
use container_builder_shim.Common.{
  ℕ, ◌≤◌, Bool, true, false, [], ◌∷◌, ◌≡◌, refl, ◌⊎◌, ◌↔◌, All, arith, length, bytes_eq, nat_eq,
  leb, equal_of, of_equal, ◌&&◌, ◌+◌, ap₂, if◌then◌else◌, ◌==◌,
}
use container_builder_shim.Common.Bytes.{Bytes}
use container_builder_shim.Common.Text.{to_lower}
use container_builder_shim.Archive.Cache.{is_hex, decodes, validate_context_digest}

-- A digit of a digest: 0 to 9, or a to f.
abbrev pub IsDigit : ℕ → Type 0
IsDigit c = ((48 ≤ c) × (c ≤ 57)) ⊎ ((97 ≤ c) × (c ≤ 102))

and-true : (a b : Bool) → (a && b) ≡ true → (a ≡ true) × (b ≡ true)
and-true true b h = (refl, h)
and-true false b h = absurd cc

true-and : (a b : Bool) → a ≡ true → b ≡ true → (a && b) ≡ true
true-and true b h k = k
true-and false b h k = absurd cc

lower-IsDigit :
    (c : ℕ) → (if leb 65 c && leb c 90 then c + 32 else c) ≡ c → is_hex c ≡ true → IsDigit c
lower-IsDigit c e h = ground arith

digit_lower :
    (c : ℕ) → IsDigit c → ((if leb 65 c && leb c 90 then c + 32 else c) ≡ c) × (is_hex c ≡ true)
digit_lower c h = ground arith

lower_digits : (s : Bytes) → to_lower s ≡ s → decodes s ≡ true → All IsDigit s
unfolding to_lower decodes
lower_digits [] e h = tt
lower_digits (c ∷ s) e h =
    let here : (if leb 65 c && leb c 90 then c + 32 else c) ≡ c = cc in
    let there : to_lower s ≡ s = cc in
    let (digit, rest) = and-true (is_hex c) (decodes s) h in
    (lower-IsDigit c here digit, lower_digits s there rest)

digits_lower : (s : Bytes) → All IsDigit s → (to_lower s ≡ s) × (decodes s ≡ true)
unfolding to_lower decodes
digits_lower [] h = (refl, refl)
digits_lower (c ∷ s) h =
    let (here, digit) = digit_lower c h.0 in
    let (there, rest) = digits_lower s h.1 in (ap₂ ◌∷◌ here there, rw (digit, rest) refl)

-- A digest is accepted exactly where it has sixty-four characters, each of 0 to 9 or a to f.
pub validate_context_digest-IsDigit :
    (s : Bytes) → (validate_context_digest s ≡ true) ↔ ((length s ≡ 64) × All IsDigit s)
unfolding validate_context_digest
validate_context_digest-IsDigit s = (
  (λ h.
      let (form, hex) = and-true (length s == 64 && to_lower s == s) (decodes s) h in
      let (len, lower) = and-true (length s == 64) (to_lower s == s) form in
      (equal_of (length s) 64 len, lower_digits s (equal_of (to_lower s) s lower) hex)),
  (λ h.
      let (lower, hex) = digits_lower s h.1 in
      true-and (length s == 64 && to_lower s == s) (decodes s)
        (true-and (length s == 64) (to_lower s == s) (of_equal (length s) 64 h.0)
          (of_equal (to_lower s) s lower))
        hex),
)
