-- ===== src/Printf/Number.antt =====
-- The digits of printf.c: `write_uword_base10` and the loop behind `DO_NUM_OUT`. The text grows down
-- from the end of `buf`: `room` is the number of bytes below it.
pub mod Digits
use osvirt_project.Base.{
  ℕ, zero, suc, ◌+◌, ◌*◌, ◌/◌, ◌%◌, ◌^◌, ◌≤◌, ◌<◌, ◌≡◌, refl, ap, ◌∙◌, Bool, true, false, Option,
  none, some, List, [], ◌∷◌, ◌++◌, arith, if◌then◌else◌, ◌==◌, leb, get_elem?, Bool-cases, length,
  Run, ok, fault, ◌>>=◌,
}
use mathlib.Core.List.{append_assoc}

-- `HexDigits`: upper case, then lower case.
abbrev pub hex_digits : List ℕ
hex_digits =
    b'0' ∷ b'1' ∷ b'2' ∷ b'3' ∷ b'4' ∷ b'5' ∷ b'6' ∷ b'7' ∷ b'8' ∷ b'9' ∷ b'A' ∷ b'B' ∷ b'C' ∷ b'D'
    ∷ b'E' ∷ b'F' ∷ b'0' ∷ b'1' ∷ b'2' ∷ b'3' ∷ b'4' ∷ b'5' ∷ b'6' ∷ b'7' ∷ b'8' ∷ b'9' ∷ b'a'
    ∷ b'b' ∷ b'c' ∷ b'd' ∷ b'e' ∷ b'f' ∷ []

-- `do { *--where = ...; num = num / base; } while (num != 0);` Below `buf` a store is a fault.
unfoldable pub write_digits : (digit : ℕ → Option ℕ) (base room num : ℕ) → List ℕ → Run (List ℕ)
write_digits digit base zero num text = fault
write_digits digit base (suc room) num text = elim (digit (num % base)) [
  | none ↦ fault
  | some c ↦ elim (num / base == 0) [
    | true ↦ ok (c ∷ text)
    | false ↦ write_digits digit base room (num / base) (c ∷ text)
  ]
]

unfoldable pub write_uword_base10 : (room num : ℕ) → List ℕ → Run (List ℕ)
write_uword_base10 = write_digits (λ temp. some (temp + b'0')) 10

-- `temp = num & mask` and `num >> shift`.
unfoldable pub write_shifted : (digits shift room num : ℕ) → List ℕ → Run (List ℕ)
write_shifted digits shift = write_digits (λ temp. get_elem? hex_digits (digits + temp)) (2 ^ shift)

-- `PR_BUFLEN`, less the byte of the terminator.
abbrev pub room_in_buf : ℕ
room_in_buf = 63

-- `DO_NUM_OUT`: base 10 where the shift is 0.
unfoldable pub number_text : (digits shift num : ℕ) → Run (List ℕ)
number_text digits shift num =
    if shift == 0
    then write_uword_base10 room_in_buf num []
    else write_shifted digits shift room_in_buf num []
