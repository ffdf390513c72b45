-- ===== src/Text/Decimal.antt =====
-- strconv.ParseUint and strconv.FormatUint in base 10 with 64 bits, and strconv.Atoi.
use pi_bully.Prelude.{
  ℕ, zero, suc, ◌+◌, ◌-◌, ◌*◌, ◌/◌, ◌%◌, ◌<◌, ◌≡◌, ◌≢◌, refl, ◌∙◌, ap, Bool, true, false, ◌&&◌,
  Option, none, some, [], ◌∷◌, ltb, leb, ◌==◌, if◌then◌else◌, u64_mod, arith, Bool-cases, inl, inr,
  ℤ, pos, negsuc, ◌^◌,
}
use mathlib.Core.Option
use pi_bully.Text.{Text}

-- A digit or a value out of range ends the reading.
unfoldable pub parse_from : ℕ → Text → Option ℕ
parse_from n [] = some n
parse_from n (c ∷ s) =
    let next = n * 10 + (c - b'0') in
    elim (leb b'0' c && leb c b'9' && ltb next u64_mod) [ true ↦ parse_from next s | false ↦ none ]

unfoldable pub parse_uint : Text → Option ℕ
unfolding parse_from
parse_uint [] = none
parse_uint (c ∷ s) = parse_from 0 (c ∷ s)

-- The digits of a number, before a text; the fuel is more than the number.
unfoldable pub format_before : ℕ → ℕ → Text → Text
format_before zero n rest = rest
format_before (suc fuel) n rest = elim (ltb n 10) [
  | true ↦ (b'0' + n) ∷ rest
  | false ↦ format_before fuel (n / 10) ((b'0' + n % 10) ∷ rest)
]

unfoldable pub format_uint : ℕ → Text
unfolding format_before
format_uint n = format_before (suc n) n []

-- `strconv.Atoi`, of the value of the digits behind a sign.
abbrev signed : Bool → ℕ → Option ℤ
signed true n = if leb n (2 ^ 63) then some (if n == 0 then pos 0 else negsuc (n - 1)) else none
signed false n = if ltb n (2 ^ 63) then some (pos n) else none

unfoldable pub atoi : Text → Option ℤ
unfolding parse_uint
atoi [] = none
atoi (c ∷ s) =
    if c == b'-'
    then Option.bind (parse_uint s) (signed true)
    else (if c == b'+'
        then Option.bind (parse_uint s) (signed false)
        else Option.bind (parse_uint (c ∷ s)) (signed false))

parse_digit :
    (n d : ℕ) (s : Text)
    → d < 10
    → n * 10 + d < u64_mod
    → parse_from n ((b'0' + d) ∷ s) ≡ parse_from (n * 10 + d) s
unfolding parse_from
parse_digit n d s h k = ground arith

-- Reading the digits of a number reads the number.
parse-format_before :
    (fuel n : ℕ) (rest : Text)
    → n < fuel
    → n < u64_mod
    → parse_from 0 (format_before fuel n rest) ≡ parse_from n rest
unfolding format_before
parse-format_before zero n rest h k = elim h [ ]
parse-format_before (suc fuel) n rest h k = elim (Bool-cases (ltb n 10)) [
  | inl e ↦
      let value : 0 * 10 + n ≡ n = omega arith in
      rw (e, format_before)
        (parse_digit 0 n rest (ground arith) (omega arith) ∙ ap (λ m. parse_from m rest) value)
  | inr e ↦
      let whole : n / 10 * 10 + n % 10 ≡ n = omega arith in
      rw (e, format_before)
        (parse-format_before fuel (n / 10) ((b'0' + n % 10) ∷ rest) (ground arith) (omega arith)
          ∙ parse_digit (n / 10) (n % 10) rest (omega arith) (omega arith)
          ∙ ap (λ m. parse_from m rest) whole)
]

format_before-ne-nil : (fuel n c : ℕ) (rest : Text) → format_before fuel n (c ∷ rest) ≢ []
unfolding format_before
format_before-ne-nil zero n c rest h = cc
format_before-ne-nil (suc fuel) n c rest h = elim (Bool-cases (ltb n 10)) [
  | inl e ↦ ground arith
  | inr e ↦
      format_before-ne-nil fuel (n / 10) (b'0' + n % 10) (c ∷ rest) (rw (e, format_before) at h)
]

parse_uint-from : (s : Text) → s ≢ [] → parse_uint s ≡ parse_from 0 s
unfolding parse_uint
parse_uint-from [] h = absurd (h refl)
parse_uint-from (c ∷ s) h = refl

format_uint-ne-nil : (n : ℕ) → format_uint n ≢ []
unfolding format_uint format_before
format_uint-ne-nil n h = elim (Bool-cases (ltb n 10)) [
  | inl e ↦ ground arith
  | inr e ↦ format_before-ne-nil n (n / 10) (b'0' + n % 10) [] (rw (e, format_before) at h)
]

-- A 64-bit number that is written is read back.
pub parse_uint-format_uint : (n : ℕ) → n < u64_mod → parse_uint (format_uint n) ≡ some n
unfolding format_uint parse_from
parse_uint-format_uint n h =
    parse_uint-from (format_uint n) (format_uint-ne-nil n)
    ∙ parse-format_before (suc n) n [] (omega arith) h

parse_from-lt : (n v : ℕ) (s : Text) → n < u64_mod → parse_from n s ≡ some v → v < u64_mod
unfolding parse_from
parse_from-lt n v [] h e = ground arith
parse_from-lt n v (c ∷ s) h e = ground (arith, parse_from-lt (n * 10 + (c - b'0')) v s)

pub parse_uint-lt : (s : Text) (v : ℕ) → parse_uint s ≡ some v → v < u64_mod
unfolding parse_uint
parse_uint-lt [] v e = cc
parse_uint-lt (c ∷ s) v e = parse_from-lt 0 v (c ∷ s) (omega arith) e
