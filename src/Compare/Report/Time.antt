-- ===== src/Compare/Report/Time.antt =====
-- `formatExecTime` of diagnosis/compare/compare_binding.go.
use optimizer_canary_service.Base.{
  ℕ, zero, suc, ◌+◌, ◌*◌, ◌/◌, ◌%◌, ◌<◌, ◌≡◌, refl, ap, inl, inr, true, [], ◌∷◌, ◌++◌, arith, ltb,
  if◌then◌else◌, Bool-cases,
}
use optimizer_canary_service.Text.{Bytes}
use optimizer_canary_service.Text.Decimal.{
  numeral_from-itoa, digits, numeral_from-append, itoa, numeral_from,
}

-- `%02d`.
unfoldable pub two_digits : ℕ → Bytes
unfolding itoa
two_digits n = if ltb n 10 then b'0' ∷ itoa n else itoa n

unfoldable pub format_exec_time : ℕ → Bytes
unfolding itoa two_digits
format_exec_time ns =
    itoa (ns / 1000000000) ++ (b'.' ∷ (two_digits ((ns % 1000000000) / 10000000) ++ (b's' ∷ [])))

numeral_from-mark : (n c : ℕ) (s : Bytes) → c < 48 → numeral_from n (c ∷ s) ≡ numeral_from n s
unfolding numeral_from
numeral_from-mark n c s h = ground arith

-- A number below 100 in two digits.
two_digits_lem : (n : ℕ) → n < 100 → two_digits n ≡ (48 + n / 10) ∷ (48 + n % 10) ∷ []
unfolding two_digits itoa digits
two_digits_lem zero h = refl
two_digits_lem (suc n) h = elim (Bool-cases (ltb (suc n) 10)) [
  | inl small ↦
      let z : suc n / 10 ≡ 0 = ground arith in
      let m : suc n % 10 ≡ suc n = ground arith in rw (small, z, m) refl
  | inr large ↦ let s : ltb (suc n / 10) 10 ≡ true = ground arith in rw (large, s) refl
]

format_exec_time-digits :
    (ns : ℕ)
    → format_exec_time ns
      ≡ itoa (ns / 1000000000)
        ++ b'.'
          ∷ (48 + ((ns % 1000000000) / 10000000) / 10)
          ∷ (48 + ((ns % 1000000000) / 10000000) % 10)
          ∷ b's'
          ∷ []
unfolding format_exec_time
format_exec_time-digits ns =
    ap (λ t. itoa (ns / 1000000000) ++ (b'.' ∷ (t ++ (b's' ∷ []))))
      (two_digits_lem ((ns % 1000000000) / 10000000) (omega arith))

value :
    (n d e m : ℕ)
    → d < 10
    → e < 10
    → m ≡ n * 100 + d * 10 + e
    → numeral_from n (b'.' ∷ (48 + d) ∷ (48 + e) ∷ b's' ∷ []) ≡ m
unfolding numeral_from
value n d e m a b h = ground (arith, h)

-- The time is written with the whole seconds, a point, exactly two digits and an `s`; without the
-- point it reads as the whole hundredths of a second, rounded down.
format_exec_time_lem :
    (ns : ℕ)
    → ((d e : ℕ) × (d < 10)
        × (e < 10)
        × (format_exec_time ns ≡ itoa (ns / 1000000000) ++ b'.' ∷ (48 + d) ∷ (48 + e) ∷ b's' ∷ []))
      × (numeral_from 0 (format_exec_time ns) ≡ ns / 10000000)
unfolding format_exec_time
format_exec_time_lem ns =
    let cents = (ns % 1000000000) / 10000000 in
    let small : cents < 100 = omega arith in
    (
      (cents / 10, cents % 10, omega arith, omega arith, format_exec_time-digits ns),
      rw (format_exec_time-digits ns) (
          rw
            (numeral_from-append 0 (itoa (ns / 1000000000))
              (b'.' ∷ (48 + cents / 10) ∷ (48 + cents % 10) ∷ b's' ∷ []))
            (rw (numeral_from-itoa (ns / 1000000000)) (
              value (ns / 1000000000) (cents / 10) (cents % 10) (ns / 10000000) (omega arith)
                (omega arith) (omega arith)))),
    )
