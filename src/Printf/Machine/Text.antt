-- ===== src/Printf/Machine/Text.antt =====
-- Text and a number through the machine.
use osvirt_project.Base.{
  ℕ, suc, ◌+◌, ◌-◌, ◌%◌, ◌<◌, ◌≡◌, ◌≢◌, refl, ap, ◌∙◌, inl, true, false, List, [], ◌∷◌, ◌++◌, arith,
  ◌==◌, length, length-append, ok, ◌>>=◌, u64_mod,
}
use osvirt_project.Printf.Number.{number_text}
use osvirt_project.Printf.Number.Digits.{value_from, number_text-roundtrip}
use osvirt_project.Printf.Field.{Flags, Sent, send, send_all, send_field}
use osvirt_project.Printf.Field.Width.{field, send_all-Adds, send_field-field}
use osvirt_project.Printf.Machine.{
  Format, no_flags, convert_number, convert_unsigned, step, step_percent, step_flags, enter_width,
  step_width, step_modifier, step_conversion, run_from, initial, vprintf_chars,
}

-- A text without `%`.
abbrev pub IsText : List ℕ → Type 0
IsText [] = Unit
IsText (ch ∷ text) = (ch ≢ b'%') × IsText text

no_width : (digits : List ℕ) → field (record no_flags { is64 = true }) 0 digits ≡ digits
no_width digits = let e : 0 - (0 + length digits) ≡ 0 = omega arith in rw e refl

module _ (memory : ℕ → List ℕ) where
  -- The machine between two conversions.
  abbrev waiting : List ℕ → Sent → Format
  waiting args o = record (initial memory args) { sent = o }

  text_step :
      (args : List ℕ) (o : Sent) (ch : ℕ) (rest : List ℕ)
      → ch ≢ b'%'
      → step memory (waiting args o) ch rest ≡ ok (waiting args (send ch o), rest)
  unfolding step step_percent
  text_step args o ch rest other =
      let e : (ch == b'%') ≡ false = ground arith in rw (step, step_percent, e) refl

  run_from-text :
      (text : List ℕ) (n k : ℕ) (args : List ℕ) (o : Sent) (rest : List ℕ)
      → n ≡ length text + k
      → IsText text
      → run_from memory n (waiting args o) (text ++ rest)
        ≡ run_from memory k (waiting args (send_all text o)) rest
  unfolding run_from send_all
  run_from-text [] n k args o rest e is = let same : n ≡ k = omega arith in rw same refl
  run_from-text (ch ∷ text) n k args o rest e (other, is) =
      let more : n ≡ suc (length text + k) = omega arith in
      rw (more, run_from, text_step args o ch (text ++ rest) other, ◌>>=◌)
        (run_from-text text (length text + k) k args (send ch o) rest refl is)

  -- `%lu` behind the text.
  number_run :
      (w : ℕ) (rest digits : List ℕ) (o : Sent)
      → number_text 0 0 (w % u64_mod) ≡ ok digits
      → run_from memory 4 (waiting (w ∷ rest) o) (b'%' ∷ b'l' ∷ b'u' ∷ [])
        ≡ ok (waiting rest (send_field (record no_flags { is64 = true }) 0 digits o))
  unfolding run_from step step_percent step_flags enter_width step_width step_modifier
      step_conversion convert_number convert_unsigned
  number_run w rest digits o h = rw (h, ◌>>=◌) refl

  -- A text without `%` followed by `%lu`: the output is the text and digits that have the value of
  -- the 64-bit argument in base 10, and the returned number is their length modulo 2 ^ 64.
  pub vprintf_chars-roundtrip :
      (text : List ℕ) (w : ℕ) (rest : List ℕ)
      → IsText text
      → w < u64_mod
      → (o : Sent) × (digits : List ℕ) × (vprintf_chars memory
            (text ++ (b'%' ∷ b'l' ∷ b'u' ∷ []))
            (w ∷ rest)
          ≡ ok o)
        × (o.chars ≡ text ++ digits)
        × (value_from 10 0 digits ≡ w)
        × (o.count ≡ (length text + length digits) % u64_mod)
  unfolding vprintf_chars
  vprintf_chars-roundtrip text w rest is small =
      let (digits, run, worth, least, short) =
        number_text-roundtrip 0 0 w (inl refl) (inl refl) small in
      let none_sent : Sent = record { chars = []; count = 0 } in
      let o1 = send_all text none_sent in
      let flags : Flags = record no_flags { is64 = true } in
      let sent = send_all-Adds text none_sent in
      let adds = send_field-field flags 0 digits o1 in
      let whole : w % u64_mod ≡ w = omega arith in
      let long = length-append text (b'%' ∷ b'l' ∷ b'u' ∷ []) in
      let chars : (send_field flags 0 digits o1).chars ≡ text ++ digits =
        rw (adds.0, sent.chars, no_width digits) refl in
      (
        send_field flags 0 digits o1,
        digits,
        rw
            (
              vprintf_chars,
              run_from-text text (length (text ++ (b'%' ∷ b'l' ∷ b'u' ∷ [])) + 1) 4 (w ∷ rest)
                  none_sent (b'%' ∷ b'l' ∷ b'u' ∷ []) (omega arith) is,
              number_run w rest digits o1 (rw whole run),
              ◌>>=◌,
            )
            refl,
        chars,
        worth,
        adds.4 (sent.counted (omega arith))
            ∙ ap (λ n. n % u64_mod) (ap length chars ∙ length-append text digits),
      )
