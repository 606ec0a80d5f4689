-- ===== src/Doctor/Itoa/Decimal.antt =====
-- internal/doctor/doctor.go, `itoa`: the buffer is large enough, and the text is the decimal one.
use hsm_doctor.Base.{
  ℕ, zero, suc, ◌+◌, ◌-◌, ◌/◌, ◌%◌, ◌^◌, ◌<◌, ◌≤◌, String, ◌≡◌, refl, ◌≢◌, true, false, some, eqb,
  arith, inl, inr, Bool-cases,
}
use hsm_doctor.Base.Int.{ℤ, pos, negsuc, ltb_ℤ, wrap64, ◌-ℤ◌, IsInt64, to_uint}
use hsm_doctor.Base.Text.{◌+++◌, digit_text, decimal, decimal_ℤ, decimal_from}
use hsm_doctor.Doctor.Itoa.{digits, itoa}

-- A number below 10 ^ room leaves `spare` of `size` bytes.
digits_lem :
    (room spare size f n : ℕ) (acc : String)
    → size ≡ room + spare
    → 0 < n
    → n < 10 ^ room
    → n ≤ f
    → (j : ℕ) × (spare ≤ j) × (digits size n acc ≡ some (j, decimal_from f n acc))
unfolding digits decimal_from
digits_lem zero spare size f n acc e p h k = absurd (omega arith)
digits_lem (suc room) spare zero f n acc e p h k = absurd (omega arith)
digits_lem (suc room) spare (suc size) f zero acc e p h k = absurd (omega arith)
digits_lem (suc room) spare (suc size) zero (suc n) acc e p h k = absurd (omega arith)
digits_lem (suc room) spare (suc size) (suc f) (suc n) acc e p h k =
    elim (Bool-cases (eqb (suc n / 10) 0)) [
      | inl last ↦ (
        size,
        omega arith,
        rw last (digits_done (suc n / 10) size (digit_text (suc n % 10) +++ acc) (ground arith)),
      )
      | inr more ↦
          let (j, q, r) =
            digits_lem room spare size f (suc n / 10) (digit_text (suc n % 10) +++ acc)
              (omega arith) (ground arith) (omega arith) (omega arith) in
          (j, q, rw more r)
    ]
  where
    digits_done : (m room : ℕ) (acc : String) → m ≡ 0 → digits room m acc ≡ some (room, acc)
    digits_done m room acc e = rw e refl

minus_lem : (n : ℕ) → suc n < 2 ^ 63 → wrap64 (pos 0 -ℤ negsuc n) ≡ pos (suc n)
unfolding wrap64 to_uint ◌-ℤ◌
minus_lem n h = ground arith

least_excluded : (n : ℕ) → IsInt64 (negsuc n) → negsuc n ≢ negsuc (2 ^ 63 - 1) → suc n < 2 ^ 63
least_excluded n (h, b) k = ground arith

written_pos :
    (n : ℕ) {j : ℕ} {s : String} → digits 20 (suc n) "" ≡ some (j, s) → itoa (pos (suc n)) ≡ some s
unfolding itoa
written_pos n r =
    let not_negative : ltb_ℤ (pos (suc n)) (pos 0) ≡ false = ground arith in
    let not_zero : eqb (suc n) 0 ≡ false = ground arith in rw (not_negative, not_zero, r) refl

written_neg :
    (n : ℕ) {s : String} (j : ℕ)
    → 1 ≤ j
    → suc n < 2 ^ 63
    → digits 20 (suc n) "" ≡ some (j, s)
    → itoa (negsuc n) ≡ some ("-" +++ s)
unfolding itoa
written_neg n zero q h r = absurd (omega arith)
written_neg n (suc j) q h r =
    let negative : ltb_ℤ (negsuc n) (pos 0) ≡ true = ground arith in
    rw (negative, minus_lem n h, r) refl

-- Of every 64-bit integer but the least, `itoa` writes the decimal text, and its buffer is never
-- overrun.
pub itoa-decimal_ℤ : (z : ℤ) → IsInt64 z → z ≢ negsuc (2 ^ 63 - 1) → itoa z ≡ some (decimal_ℤ z)
unfolding itoa decimal_ℤ decimal
itoa-decimal_ℤ (pos zero) h k = refl
itoa-decimal_ℤ (pos (suc n)) h k =
    let (j, q, r) =
      digits_lem 19 1 20 (suc (suc n)) (suc n) "" refl (omega arith) (omega arith) (omega arith) in
    written_pos n r
itoa-decimal_ℤ (negsuc n) h k =
    let small : suc n < 2 ^ 63 = least_excluded n h k in
    let (j, q, r) =
      digits_lem 19 1 20 (suc (suc n)) (suc n) "" refl (omega arith) (omega arith) (omega arith) in
    written_neg n j q small r
