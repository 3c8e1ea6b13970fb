-- ===== src/Text/Decimal.antt =====
-- Decimal numerals: `strconv.Itoa` and `%d` of a number that is not negative.
use optimizer_canary_service.Base.{
  ℕ, zero, suc, ◌+◌, ◌-◌, ◌*◌, ◌/◌, ◌%◌, ◌<◌, ◌≡◌, refl, inl, inr, ◌&&◌, [], ◌∷◌, ◌++◌, arith, ltb,
  leb, if◌then◌else◌, Bool-cases,
}
use optimizer_canary_service.Text.Basic.{Bytes}

-- The digits of `n`, the last one last; a number below 10 has one.
unfoldable pub digits : ℕ → ℕ → Bytes
digits zero n = []
digits (suc fuel) n =
    let rest = digits fuel (n / 10) in
    if ltb n 10 then (48 + n) ∷ [] else rest ++ (48 + n % 10) ∷ []

-- A number has at most as many digits as it is large, and one more.
unfoldable pub itoa : ℕ → Bytes
unfolding digits
itoa n = digits (suc n) n

-- The number that the digits of a text write, other bytes passed over.
unfoldable pub numeral_from : ℕ → Bytes → ℕ
numeral_from n [] = n
numeral_from n (c ∷ s) =
    let more = numeral_from (n * 10 + (c - 48)) s in
    let same = numeral_from n s in if leb 48 c && leb c 57 then more else same

pub numeral_from-append :
    (n : ℕ) (s t : Bytes) → numeral_from n (s ++ t) ≡ numeral_from (numeral_from n s) t
unfolding numeral_from
numeral_from-append n [] t = refl
numeral_from-append n (c ∷ s) t =
    ground (arith, numeral_from-append (n * 10 + (c - 48)) s t, numeral_from-append n s t)

numeral_from-digit : (n d : ℕ) → d < 10 → numeral_from n ((48 + d) ∷ []) ≡ n * 10 + d
unfolding numeral_from
numeral_from-digit n d h = ground arith

numeral_from-digits : (fuel n : ℕ) → n < fuel → numeral_from 0 (digits fuel n) ≡ n
unfolding digits
numeral_from-digits zero n h = omega arith
numeral_from-digits (suc fuel) n h = elim (Bool-cases (ltb n 10)) [
  | inl small ↦ let one = numeral_from-digit 0 n (ground arith) in rw small (omega (arith, one))
  | inr large ↦
      let ih = numeral_from-digits fuel (n / 10) (ground arith) in
      rw large (
        rw (numeral_from-append 0 (digits fuel (n / 10)) ((48 + n % 10) ∷ []))
          (rw ih (omega (arith, numeral_from-digit (n / 10) (n % 10) (omega arith)))))
]

pub numeral_from-itoa : (n : ℕ) → numeral_from 0 (itoa n) ≡ n
unfolding itoa
numeral_from-itoa n = numeral_from-digits (suc n) n (omega arith)
