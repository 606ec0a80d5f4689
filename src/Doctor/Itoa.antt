-- ===== src/Doctor/Itoa.antt =====
-- internal/doctor/doctor.go, `itoa` and `plural`: decimal numbers through a buffer of 20 bytes.
pub mod Decimal
use hsm_doctor.Base.{ℕ, zero, suc, ◌/◌, ◌%◌, String, Option, none, some, eqb, if◌then◌else◌, arith}
use hsm_doctor.Base.Int.{ℤ, pos, pos_part, ltb_ℤ, wrap64, ◌-ℤ◌}
use hsm_doctor.Base.Text.{◌+++◌, digit_text}

-- The loop over the digits, on the bytes of the buffer that are left: an index below zero panics.
pub digits : ℕ → ℕ → String → Option (ℕ × String)
digits room zero acc = some (room, acc)
digits zero (suc n) acc = none
digits (suc room) (suc n) acc = digits room (suc n / 10) (digit_text (suc n % 10) +++ acc)

-- The sign takes one byte more.
abbrev with_sign : ℕ × String → Option String
with_sign (zero, acc) = none
with_sign (suc room, acc) = some ("-" +++ acc)

-- `-n` of the least integer is that integer again, and the loop `for n > 0` is not entered.
unfoldable pub itoa : ℤ → Option String
unfolding digits
itoa z =
    let minus = wrap64 (pos 0 -ℤ z) in
    if ltb_ℤ z (pos 0)
    then elim (digits 20 (pos_part minus) "") [ none ↦ none | some p ↦ with_sign p ]
    else if eqb (pos_part z) 0
    then some "0"
    else elim (digits 20 (pos_part z) "") [ none ↦ none | some (room, acc) ↦ some acc ]

-- `plural` is called with counts, which are not negative; a panic would leave no text.
unfoldable pub plural : ℕ → String → String → String
plural n one many =
    if eqb n 1
    then "1 " +++ one
    else elim (itoa (pos n)) [ none ↦ "" | some s ↦ s +++ " " +++ many ]
