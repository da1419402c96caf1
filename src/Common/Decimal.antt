-- ===== src/Common/Decimal.antt =====
-- Go's decimal numbers as text: `fmt` with `%d`, and `strconv.ParseInt` in base 10 with 64 bits.
use container_builder_shim.Common.Int.{ℤ, pos, negsuc, i64_half, neg_part, pos_part}
use container_builder_shim.Common.Tests.{leb, if◌then◌else◌, Bool-cases, le→leb}
use container_builder_shim.Common.Bytes.{Bytes}
use Prim.Native.Nat.{ℕ, zero, suc, ◌+◌, ◌-◌, ◌*◌, ◌/◌, ◌%◌, ◌≤◌, ◌<◌}
use mathlib.Core.Path.{◌≡◌, refl, ◌∙◌, ap, subst}
use mathlib.Core.Bool.{true, false, ◌&&◌}
use mathlib.Core.Option.{Option, none, some}
use mathlib.Core.List.{[], ◌∷◌, ◌++◌}
use mathlib.Core.Logic.{inl, inr}
use native.Mathlib.Omega.{arith}

-- On fuel: a number has fewer digits than one more than itself.
unfoldable pub digits : ℕ → ℕ → Bytes
digits zero n = []
digits (suc fuel) n =
    let rest = digits fuel (n / 10) in if leb n 9 then (48 + n) ∷ [] else rest ++ (48 + n % 10) ∷ []

unfoldable pub format_int : ℤ → Bytes
format_int (pos n) = digits (suc n) n
format_int (negsuc n) = 45 ∷ digits (suc (suc n)) (suc n)

unfoldable pub parse_onto : ℕ → Bytes → Option ℕ
parse_onto n [] = some n
parse_onto n (c ∷ s) = elim (leb 48 c && leb c 57) [
  | true ↦ parse_onto (n * 10 + (c - 48)) s
  | false ↦ none
]

-- A number without its sign; no digit is an error.
unfoldable pub parse_digits : Bytes → Option ℕ
unfolding parse_onto
parse_digits [] = none
parse_digits (c ∷ s) = parse_onto 0 (c ∷ s)

abbrev pub positive : Option ℕ → Option ℤ
positive none = none
positive (some n) = if leb (suc n) i64_half then some (pos n) else none

abbrev pub negative : Option ℕ → Option ℤ
negative none = none
negative (some zero) = some (pos 0)
negative (some (suc n)) = if leb (suc n) i64_half then some (negsuc n) else none

-- `strconv.ParseInt(s, 10, 64)`, with what stands before the digits.
abbrev pub parse_signed : ℕ → Bytes → Option ℤ
parse_signed c s =
    if leb c 45 && leb 45 c
    then negative (parse_digits s)
    else if leb c 43 && leb 43 c
    then positive (parse_digits s)
    else positive (parse_digits (c ∷ s))

unfoldable pub parse_int : Bytes → Option ℤ
unfolding parse_digits
parse_int [] = none
parse_int (c ∷ s) = parse_signed c s

parse_onto-snoc :
    (a n d : ℕ) (s : Bytes)
    → d ≤ 9
    → parse_onto a s ≡ some n
    → parse_onto a (s ++ (48 + d) ∷ []) ≡ some (n * 10 + d)
unfolding parse_onto
parse_onto-snoc a n d [] small e = ground arith
parse_onto-snoc a n d (c ∷ s) small e =
    ground (arith, parse_onto-snoc (a * 10 + (c - 48)) n d s small)

parse_onto-digits : (fuel n : ℕ) → n < fuel → parse_onto 0 (digits fuel n) ≡ some n
unfolding digits parse_onto
parse_onto-digits zero n h = absurd (omega arith)
parse_onto-digits (suc fuel) n h = elim (Bool-cases (leb n 9)) [
  | inl c ↦ rw c (ground arith)
  | inr c ↦
      let below : n / 10 < fuel = ground arith in
      let last : n % 10 ≤ 9 = omega arith in
      let whole : n / 10 * 10 + n % 10 ≡ n = omega arith in
      rw c (
        parse_onto-snoc 0 (n / 10) (n % 10) (digits fuel (n / 10)) last
          (parse_onto-digits fuel (n / 10) below)
        ∙ ap some whole)
]

snoc_cons : (s : Bytes) (d : ℕ) → (c : ℕ) × (t : Bytes) × (s ++ d ∷ [] ≡ c ∷ t)
snoc_cons [] d = (d, [], refl)
snoc_cons (c ∷ s) d = (c, s ++ d ∷ [], refl)

digits_cons : (fuel n : ℕ) → (c : ℕ) × (t : Bytes) × (digits (suc fuel) n ≡ c ∷ t)
unfolding digits
digits_cons fuel n = elim (Bool-cases (leb n 9)) [
  | inl e ↦ rw e (48 + n, [], refl)
  | inr e ↦ rw e (snoc_cons (digits fuel (n / 10)) (48 + n % 10))
]

first_digit : (c n : ℕ) (t : Bytes) → parse_onto 0 (c ∷ t) ≡ some n → 48 ≤ c
unfolding parse_onto
first_digit c n t e = ground arith

digit_first : (c n : ℕ) (t : Bytes) → parse_digits (c ∷ t) ≡ some n → 48 ≤ c
unfolding parse_digits
digit_first c n t e = first_digit c n t e

parse_digits-digits : (n : ℕ) → parse_digits (digits (suc n) n) ≡ some n
unfolding parse_digits
parse_digits-digits n =
    let (c, t, e) = digits_cons n n in
    let read = parse_onto-digits (suc n) n (omega arith) in
    rw e (subst (λ s. parse_onto 0 s ≡ some n) e read)

parse_unsigned :
    (c n : ℕ) (t : Bytes)
    → 48 ≤ c
    → parse_digits (c ∷ t) ≡ some n
    → n < i64_half
    → parse_int (c ∷ t) ≡ some (pos n)
unfolding parse_int
parse_unsigned c n t h e small =
    let e45 : (leb c 45 && leb 45 c) ≡ false = ground arith in
    let e43 : (leb c 43 && leb 43 c) ≡ false = ground arith in
    let fits : leb (suc n) i64_half ≡ true = le→leb (suc n) i64_half (omega (arith, small)) in
    rw (e45, e43, e) (rw fits refl)

parse_minus :
    (n : ℕ) (s : Bytes)
    → parse_digits s ≡ some (suc n)
    → suc n ≤ i64_half
    → parse_int (45 ∷ s) ≡ some (negsuc n)
unfolding parse_int
parse_minus n s e small =
    let fits : leb (suc n) i64_half ≡ true = le→leb (suc n) i64_half small in rw e (rw fits refl)

-- A 64-bit number is what its text is parsed to.
pub parse_int-format_int :
    (n : ℤ) → pos_part n < i64_half → neg_part n ≤ i64_half → parse_int (format_int n) ≡ some n
unfolding format_int
parse_int-format_int (pos n) h k =
    let (c, t, e) = digits_cons n n in
    let read = subst (λ s. parse_digits s ≡ some n) e (parse_digits-digits n) in
    rw e (parse_unsigned c n t (digit_first c n t read) read h)
parse_int-format_int (negsuc n) h k =
    parse_minus n (digits (suc (suc n)) (suc n)) (parse_digits-digits (suc n)) k
