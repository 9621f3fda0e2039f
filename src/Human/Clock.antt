-- ===== src/Human/Clock.antt =====
-- `cifs_htime`: the parts of a time, and the text read back.
use cifscp.Base.{
  ℕ, zero, suc, ◌+◌, ◌*◌, ◌/◌, ◌%◌, ◌<◌, ◌≡◌, ap, ◌∙◌, inl, inr, [], ◌∷◌, arith, ◌==◌, Bool-cases,
}
use cifscp.Base.Strings.{Bytes}
use cifscp.Cstring.{digits_value}
use cifscp.Human.{decimal_onto, decimal, htime_parts}

-- Reading digits from the value `m` on.
digits_value-step :
    (m d : ℕ) (tail : Bytes)
    → d < 10
    → digits_value m ((b'0' + d) ∷ tail) ≡ digits_value (m * 10 + d) tail
unfolding digits_value
digits_value-step m d tail h = ground arith

digits_value-decimal_onto :
    (fuel n : ℕ) (tail : Bytes)
    → n < fuel
    → digits_value 0 (decimal_onto fuel n tail) ≡ digits_value n tail
unfolding decimal_onto
digits_value-decimal_onto zero n tail h = omega arith
digits_value-decimal_onto (suc fuel) n tail h = elim (Bool-cases (n / 10 == 0)) [
  | inl t ↦ rw (t) (
      digits_value-step 0 (n % 10) tail (omega arith)
      ∙ ap (λ k. digits_value k tail) (ground arith))
  | inr f ↦ rw (f) (
      digits_value-decimal_onto fuel (n / 10) ((b'0' + n % 10) ∷ tail) (ground arith)
      ∙ digits_value-step (n / 10) (n % 10) tail (omega arith)
      ∙ ap (λ k. digits_value k tail) (omega arith))
]

-- The printed number, read by the digits, is the number.
pub digits_value-decimal : (n : ℕ) → digits_value 0 (decimal n) ≡ n
unfolding digits_value
digits_value-decimal n = digits_value-decimal_onto (n + 1) n [] (omega arith)

-- Days, hours, minutes and seconds are in range and add up to the time.
pub htime_parts_lem :
    (time : ℕ)
    → let (d, h, m, s) = htime_parts time in
      (h < 24) × (m < 60) × (s < 60) × (d * 86400 + h * 3600 + m * 60 + s ≡ time)
unfolding htime_parts
htime_parts_lem time = (omega arith, omega arith, omega arith, omega arith)
