-- ===== src/Compare/Samples/Numbers.antt =====
-- The numbers of an annotation are bound with the values that TiDB printed.
use optimizer_canary_service.Base.{
  ℕ, zero, suc, ◌+◌, ◌-◌, ◌*◌, ◌/◌, ◌%◌, ◌^◌, ◌<◌, ◌≡◌, refl, ap, ◌∙◌, ◌≢◌, inl, inr, false, Option,
  none, some, [], ◌∷◌, ◌++◌, arith, ltb, ◌==◌, if◌then◌else◌, Bool-cases, ℤ, pos, negsuc,
}
use optimizer_canary_service.Text.{Bytes}
use optimizer_canary_service.Text.Decimal.{digits, itoa}
use optimizer_canary_service.Compare.Samples.Arguments.{
  Argument, int64, uint64, digits_from, parse_uint, parse_int, parse_number, below, positive,
  negative, or_int,
}

abbrev and_then : Option ℕ → Bytes → Option ℕ
and_then none t = none
and_then (some n) t = digits_from n t

digits_from-append : (m : ℕ) (s t : Bytes) → digits_from m (s ++ t) ≡ and_then (digits_from m s) t
unfolding digits_from
digits_from-append m [] t = refl
digits_from-append m (c ∷ s) t = ground (arith, digits_from-append (m * 10 + (c - b'0')) s t)

digits_from-digit : (m d : ℕ) → d < 10 → digits_from m ((48 + d) ∷ []) ≡ some (m * 10 + d)
unfolding digits_from
digits_from-digit m d h = ground arith

digits_from-digits : (fuel n : ℕ) → n < fuel → digits_from 0 (digits fuel n) ≡ some n
unfolding digits
digits_from-digits zero n h = absurd (omega arith)
digits_from-digits (suc fuel) n h = elim (Bool-cases (ltb n 10)) [
  | inl small ↦
      rw small
        (digits_from-digit 0 n (ground (arith, small)) ∙ ap (λ (k : ℕ). some k) (omega arith))
  | inr large ↦
      let ih = digits_from-digits fuel (n / 10) (ground (arith, large)) in
      rw large (
        digits_from-append 0 (digits fuel (n / 10)) ((48 + n % 10) ∷ [])
        ∙ ap (λ o. and_then o ((48 + n % 10) ∷ [])) ih
        ∙ digits_from-digit (n / 10) (n % 10) (omega arith)
        ∙ ap (λ (k : ℕ). some k) (omega arith))
]

append-ne-nil : (s : Bytes) (c : ℕ) → s ++ c ∷ [] ≢ []
append-ne-nil [] c h = cc
append-ne-nil (d ∷ s) c h = cc

itoa-ne-nil : (n : ℕ) → itoa n ≢ []
unfolding itoa digits
itoa-ne-nil n h = ground (arith, h, append-ne-nil (digits n (n / 10)) (48 + n % 10))

first_digit :
    (c m : ℕ) (s : Bytes) {n : ℕ}
    → digits_from m (c ∷ s) ≡ some n
    → (c == b'+' ≡ false) × (c == b'-' ≡ false)
unfolding digits_from
first_digit c m s h = (ground (arith, h), ground (arith, h))

parse_uint-digits :
    (n c : ℕ) (s : Bytes)
    → digits_from 0 (c ∷ s) ≡ some n
    → n < 2 ^ 64
    → parse_uint (c ∷ s) ≡ some n
unfolding parse_uint
parse_uint-digits n c s read h = ap (below (2 ^ 64)) read ∙ ground (arith, h)

parse_int-digits :
    (n c : ℕ) (s : Bytes)
    → digits_from 0 (c ∷ s) ≡ some n
    → n < 2 ^ 64
    → parse_int (c ∷ s) ≡ positive (some n)
unfolding parse_int
parse_int-digits n c s read h =
    let (plus, minus) = first_digit c 0 s read in
    rw (plus, minus) (ap positive (parse_uint-digits n c s read h))

parse_int-negative :
    (n c : ℕ) (s : Bytes)
    → digits_from 0 (c ∷ s) ≡ some (suc n)
    → n < 2 ^ 63
    → parse_int (b'-' ∷ c ∷ s) ≡ some (negsuc n)
unfolding parse_int
parse_int-negative n c s read h =
    ap negative (parse_uint-digits (suc n) c s read (omega arith)) ∙ ground (arith, h)

module _ {F : Type 0} (parse_float : Bytes → Option F) where
  -- The value of a number that fits int64 or uint64.
  abbrev pub number_value : ℤ → Argument F
  number_value (pos n) = if ltb n (2 ^ 63) then int64 (pos n) else uint64 n
  number_value (negsuc n) = int64 (negsuc n)

  abbrev pub number_text : ℤ → Bytes
  number_text (pos n) = itoa n
  number_text (negsuc n) = b'-' ∷ itoa (suc n)

  abbrev pub Fits64 : ℤ → Type 0
  Fits64 (pos n) = n < 2 ^ 64
  Fits64 (negsuc n) = n < 2 ^ 63

  parse_number-digits :
      (n : ℕ) (text : Bytes)
      → text ≢ []
      → digits_from 0 text ≡ some n
      → n < 2 ^ 64
      → parse_number parse_float text ≡ number_value (pos n)
  unfolding parse_number
  parse_number-digits n [] some_byte read h = elim (some_byte refl) [ ]
  parse_number-digits n (c ∷ s) some_byte read h =
      ground (arith, parse_int-digits n c s read h, parse_uint-digits n c s read h)

  parse_number-negative :
      (n : ℕ) (text : Bytes)
      → text ≢ []
      → digits_from 0 text ≡ some (suc n)
      → n < 2 ^ 63
      → parse_number parse_float (b'-' ∷ text) ≡ int64 (negsuc n)
  unfolding parse_number
  parse_number-negative n [] some_byte read h = elim (some_byte refl) [ ]
  parse_number-negative n (c ∷ s) some_byte read h =
      ap (λ o. or_int parse_float (b'-' ∷ c ∷ s) o) (parse_int-negative n c s read h)

  digits_from-itoa : (n : ℕ) → digits_from 0 (itoa n) ≡ some n
  unfolding itoa
  digits_from-itoa n = digits_from-digits (suc n) n (omega arith)

  -- The decimal text of any number that fits int64 or uint64 is bound as that number, as a uint64
  -- only where int64 is too small, and never as a float or a text.
  pub parse_number-number_text :
      (z : ℤ) → Fits64 z → parse_number parse_float (number_text z) ≡ number_value z
  parse_number-number_text (pos n) h =
      parse_number-digits n (itoa n) (itoa-ne-nil n) (digits_from-itoa n) h
  parse_number-number_text (negsuc n) h =
      parse_number-negative n (itoa (suc n)) (itoa-ne-nil (suc n)) (digits_from-itoa (suc n)) h
