-- ===== src/Printf/Tests.antt =====
-- Conversions of small formats.
use osvirt_project.Base.{
  ℕ, ◌+◌, ◌-◌, ◌%◌, ◌^◌, ◌≤◌, ◌<◌, ◌≡◌, ◌≢◌, refl, ◌⊎◌, inr, true, some, List, [], ◌∷◌, ◌++◌,
  get_elem?, length, ok, out_of_fuel, u64_mod, arith,
}
use osvirt_project.Printf.Number.{number_text, write_digits, write_uword_base10}
use osvirt_project.Printf.Number.Digits.{value_from, number_text-roundtrip}
use osvirt_project.Printf.Field.{Flags, Sent, send, send_all, pad, send_field}
use osvirt_project.Printf.Field.Width.{IsCounted, field, send_field-field}
use osvirt_project.Printf.Machine.{
  no_flags, convert_signed, convert_number, step, step_percent, step_flags, enter_width, step_width,
  step_modifier, step_conversion, run_from, vprintf_chars,
}
use osvirt_project.Printf.Machine.Ends.{vprintf_chars-count}
use osvirt_project.Printf.Machine.Text.{vprintf_chars-roundtrip}
use osvirt_project.Printf.Output.{Bytes, feed, vsnprintf, printf}
use osvirt_project.Printf.Output.Buffer.{vsnprintf-bounds}
use osvirt_project.Printf.Output.Screen.{printf-IsConsole}
use osvirt_project.Console.{Console, fb_output}
use osvirt_project.Console.Cursor.{IsConsole, SameSizes}

abbrev no_strings : ℕ → List ℕ
no_strings a = []

abbrev glyphs : ℕ → ℕ
glyphs n = 255

-- `%05d`.
abbrev five_wide : List ℕ
five_wide = b'%' ∷ b'0' ∷ b'5' ∷ b'd' ∷ []

-- `-0042`.
abbrev padded : Sent
padded = record { chars = b'-' ∷ b'0' ∷ b'0' ∷ b'4' ∷ b'2' ∷ []; count = 5 }

minus_42 : vprintf_chars no_strings five_wide ((2 ^ 32 - 42) ∷ []) ≡ ok padded
unfolding vprintf_chars run_from step step_percent step_flags enter_width step_width step_modifier
    step_conversion convert_number convert_signed number_text write_uword_base10 write_digits
    send_field send_all send pad
minus_42 = refl

number_text-roundtrip_example :
    (text : List ℕ) × (number_text 16 4 48879 ≡ ok text)
    × (value_from 16 0 text ≡ 48879)
    × ((length text ≡ 1) ⊎ (16 ^ (length text - 1) ≤ 48879))
    × (length text ≤ 63)
number_text-roundtrip_example =
    number_text-roundtrip 16 4 48879 (inr refl) (inr (inr refl)) (omega arith)

abbrev wide_flags : Flags
wide_flags = record no_flags { negative = true; pad_left0 = true }

abbrev empty : Sent
empty = record { chars = []; count = 0 }

send_field-field_example :
    ((send_field wide_flags 5 (b'4' ∷ b'2' ∷ []) empty).chars
      ≡ field wide_flags 5 (b'4' ∷ b'2' ∷ []))
    × (5 ≤ length (field wide_flags 5 (b'4' ∷ b'2' ∷ [])))
    × (3 ≤ length (field wide_flags 5 (b'4' ∷ b'2' ∷ [])))
    × ((length (field wide_flags 5 (b'4' ∷ b'2' ∷ [])) ≡ 5)
        ⊎ (length (field wide_flags 5 (b'4' ∷ b'2' ∷ [])) ≡ 3))
    × (IsCounted empty → IsCounted (send_field wide_flags 5 (b'4' ∷ b'2' ∷ []) empty))
send_field-field_example = send_field-field wide_flags 5 (b'4' ∷ b'2' ∷ []) empty

vprintf_chars-count_example :
    (vprintf_chars no_strings five_wide (7 ∷ []) ≢ out_of_fuel)
    × ((o : Sent)
        → vprintf_chars no_strings five_wide (7 ∷ []) ≡ ok o
        → o.count ≡ length o.chars % u64_mod)
vprintf_chars-count_example = vprintf_chars-count no_strings five_wide (7 ∷ [])

vprintf_chars-roundtrip_example :
    (o : Sent) × (digits : List ℕ) × (vprintf_chars no_strings
        (b'n' ∷ b'=' ∷ b'%' ∷ b'l' ∷ b'u' ∷ [])
        (42 ∷ [])
      ≡ ok o)
    × (o.chars ≡ b'n' ∷ b'=' ∷ digits)
    × (value_from 10 0 digits ≡ 42)
    × (o.count ≡ (2 + length digits) % u64_mod)
vprintf_chars-roundtrip_example =
    vprintf_chars-roundtrip no_strings (b'n' ∷ b'=' ∷ []) 42 [] (omega arith, (omega arith, tt))
      (omega arith)

vsnprintf-bounds_example :
    (m : Bytes) × (vsnprintf no_strings 100 4 five_wide ((2 ^ 32 - 42) ∷ []) (λ q. 9) ≡ ok (5, m))
    × ((q : ℕ) → (q < 100) ⊎ (104 ≤ q) → m q ≡ 9)
    × ((i c : ℕ) → get_elem? padded.chars i ≡ some c → i + 1 < 4 → m (100 + i) ≡ c)
    × (5 < 4 → m 105 ≡ 0)
    × ((c : ℕ) → get_elem? padded.chars 3 ≡ some c → 1 ≤ 4 → m 103 ≡ 0)
vsnprintf-bounds_example =
    vsnprintf-bounds no_strings 100 4 five_wide ((2 ^ 32 - 42) ∷ []) (λ q. 9) padded minus_42

-- A screen of 16 by 32 pixels with the cursor at its end.
abbrev screen : Console
screen = record { fb = λ q. q; width = 16; pos_x = 2; pos_y = 1; max_x = 2; max_y = 2 }

screen-IsConsole : IsConsole screen
screen-IsConsole = record {
  wide = omega arith;
  columns = omega arith;
  narrow = omega arith;
  rows = omega arith;
  short = omega arith;
  small = omega arith;
  column = omega arith;
  row = omega arith;
}

printf-IsConsole_example :
    (c : Console) × (printf no_strings glyphs five_wide ((2 ^ 32 - 42) ∷ []) screen ≡ ok (5, c))
    × (feed (fb_output glyphs) (padded.chars ++ (0 ∷ [])) screen ≡ ok c)
    × SameSizes screen c
    × IsConsole c
printf-IsConsole_example =
    printf-IsConsole glyphs no_strings five_wide ((2 ^ 32 - 42) ∷ []) screen padded screen-IsConsole
      minus_42
