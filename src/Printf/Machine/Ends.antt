-- ===== src/Printf/Machine/Ends.antt =====
-- Every round of the machine takes a character and keeps the count, so that the fuel is enough.
use osvirt_project.Base.{
  ℕ, zero, suc, ◌+◌, ◌%◌, ◌≤◌, ◌≡◌, ◌≢◌, subst, List, [], ◌∷◌, arith, ◌==◌, length, Run, ok, fault,
  halted, out_of_fuel, u64_mod,
}
use osvirt_project.Printf.Field.{Flags, Sent, send}
use osvirt_project.Printf.Field.Width.{IsCounted, send-Adds, send_field-field}
use osvirt_project.Printf.Machine.{
  State, awaiting_percent, awaiting_flags, awaiting_width, awaiting_modifier, Format, no_flags,
  Conversion, address, number, character, string, bogus, conversion_of, Converted, convert_number,
  convert_address, convert_character, convert_string, reset, finish, step_conversion, behind,
  step_modifier, step_width, enter_width, step_flags, step_percent, step, run_from, initial,
  vprintf_chars,
}
use osvirt_project.Printf.Machine.Convert.{
  Ends, Any, returns, returns-Any, fails, >>=-Ends, if-Ends, next_arg-Ends, convert_number-Ends,
  convert_address-Ends, convert_character-Ends,
}

le_self : (n : ℕ) → n ≤ n
le_self n = omega arith

-- A round keeps the count, and leaves no more of the format than there was behind the character.
abbrev pub Rounds : ℕ → Format × List ℕ → Type 0
Rounds n r = IsCounted r.0.sent × (length r.1 ≤ n)

module _ (memory : ℕ → List ℕ) where
  convert_string-Ends : (f : Flags) (args : List ℕ) → Ends Any (convert_string memory f args)
  unfolding convert_string
  convert_string-Ends f args = search (next_arg-Ends, returns-Any)

  finish-Ends :
      (s : Format) (rest : List ℕ) (r : Run Converted)
      → IsCounted s.sent
      → Ends Any r
      → Ends (Rounds (length rest)) (finish memory s rest r)
  finish-Ends s rest r h e = >>=-Ends e (λ c any.
      returns ((send_field-field c.flags s.given_wd c.text s.sent).4 h, le_self (length rest)))

  step_conversion-Ends :
      (s : Format) (ch : ℕ) (rest : List ℕ)
      → IsCounted s.sent
      → Ends (Rounds (length rest)) (step_conversion memory s ch rest)
  unfolding step_conversion
  step_conversion-Ends s ch rest h = converted (conversion_of ch)
    where
      converted :
          (c : Conversion)
          → Ends (Rounds (length rest)) (elim c [
            | address ↦ finish memory s rest (convert_address s.flags s.args)
            | number digits shift signed ↦
                finish memory s rest
                  (convert_number digits shift (record s.flags { do_sign = signed }) s.args)
            | character ↦ finish memory s rest (convert_character s.flags s.args)
            | string ↦ finish memory s rest (convert_string memory s.flags s.args)
            | bogus ↦ ok (reset memory (record s { sent = send ch s.sent }), rest)
          ])
      converted address = finish-Ends s rest _ h (convert_address-Ends s.flags s.args)
      converted (number digits shift signed) =
          finish-Ends s rest _ h
            (convert_number-Ends digits shift (record s.flags { do_sign = signed }) s.args)
      converted character = finish-Ends s rest _ h (convert_character-Ends s.flags s.args)
      converted string = finish-Ends s rest _ h (convert_string-Ends s.flags s.args)
      converted bogus = returns ((send-Adds ch s.sent).counted h, le_self (length rest))

  behind-length : (rest : List ℕ) → length (behind memory rest) ≤ length rest
  behind-length [] = omega arith
  behind-length (c ∷ rest) = omega arith

  step_modifier-Ends :
      (s : Format) (ch : ℕ) (rest : List ℕ)
      → IsCounted s.sent
      → Ends (Rounds (length rest)) (step_modifier memory s ch rest)
  unfolding step_modifier
  step_modifier-Ends s ch rest h =
      let one = le_self (length rest) in
      let two = behind-length rest in search (if-Ends, returns, step_conversion-Ends) depth 12

  step_width-Ends :
      (s : Format) (ch : ℕ) (rest : List ℕ)
      → IsCounted s.sent
      → Ends (Rounds (length rest)) (step_width memory s ch rest)
  unfolding step_width
  step_width-Ends s ch rest h =
      let one = le_self (length rest) in search (if-Ends, returns, step_modifier-Ends)

  enter_width-Ends :
      (s : Format) (ch : ℕ) (rest : List ℕ)
      → IsCounted s.sent
      → Ends (Rounds (length rest)) (enter_width memory s (ch ∷ rest))
  unfolding enter_width
  enter_width-Ends s ch rest h = step_width-Ends (record s { given_wd = 0 }) ch rest h

  wider : {n m : ℕ} {r : Run (Format × List ℕ)} → n ≤ m → Ends (Rounds n) r → Ends (Rounds m) r
  wider {r = ok x} le e = returns (let h = e.held in (h.0, omega arith))
  wider {r = halted} le e = record { held = tt }
  wider {r = fault} le e = fails
  wider {r = out_of_fuel} le e = absurd e.held

  enter_any-Ends :
      (s : Format) (rest : List ℕ)
      → IsCounted s.sent
      → Ends (Rounds (length rest)) (enter_width memory s rest)
  unfolding enter_width
  enter_any-Ends s [] h = fails
  enter_any-Ends s (ch ∷ rest) h = wider (omega arith) (enter_width-Ends s ch rest h)

  step_flags-Ends :
      (s : Format) (ch : ℕ) (rest : List ℕ)
      → IsCounted s.sent
      → Ends (Rounds (length rest)) (step_flags memory s ch rest)
  unfolding step_flags
  step_flags-Ends s ch rest h =
      let one = le_self (length rest) in
      let sent = (send-Adds ch s.sent).counted h in
      search (if-Ends, returns, enter_any-Ends, enter_width-Ends)

  step_percent-Ends :
      (s : Format) (ch : ℕ) (rest : List ℕ)
      → IsCounted s.sent
      → Ends (Rounds (length rest)) (step_percent memory s ch rest)
  unfolding step_percent
  step_percent-Ends s ch [] h =
      if-Ends (ch == b'%') fails (returns ((send-Adds ch s.sent).counted h, le_self 0))
  step_percent-Ends s ch (c ∷ rest) h =
      if-Ends (ch == b'%')
        (wider (omega arith) (step_flags-Ends (record s { flags = no_flags }) c rest h))
        (returns ((send-Adds ch s.sent).counted h, le_self (suc (length rest))))

  step-Ends :
      (s : Format) (ch : ℕ) (rest : List ℕ)
      → IsCounted s.sent
      → Ends (Rounds (length rest)) (step memory s ch rest)
  unfolding step
  step-Ends s ch rest h = state_is s.state
    where
      state_is :
          (st : State)
          → Ends (Rounds (length rest)) (elim st [
            | awaiting_percent ↦ step_percent memory s ch rest
            | awaiting_flags ↦ step_flags memory s ch rest
            | awaiting_width ↦ step_width memory s ch rest
            | awaiting_modifier ↦ step_modifier memory s ch rest
          ])
      state_is awaiting_percent = step_percent-Ends s ch rest h
      state_is awaiting_flags = step_flags-Ends s ch rest h
      state_is awaiting_width = step_width-Ends s ch rest h
      state_is awaiting_modifier = step_modifier-Ends s ch rest h

  run_from-Ends :
      (fuel : ℕ) (s : Format) (fmt : List ℕ)
      → length fmt + 1 ≤ fuel
      → IsCounted s.sent
      → Ends (λ t. IsCounted t.sent) (run_from memory fuel s fmt)
  unfolding run_from
  run_from-Ends zero s fmt enough h = absurd (omega arith)
  run_from-Ends (suc k) s [] enough h = returns h
  run_from-Ends (suc k) s (ch ∷ rest) enough h = >>=-Ends (step-Ends s ch rest h) (λ r held.
      run_from-Ends k r.0 r.1 (let short : length r.1 ≤ length rest = held.1 in omega arith) held.0)

  vprintf_chars-Ends : (fmt args : List ℕ) → Ends IsCounted (vprintf_chars memory fmt args)
  unfolding vprintf_chars
  vprintf_chars-Ends fmt args =
      >>=-Ends
        (run_from-Ends (length fmt + 1) (initial memory args) fmt (omega arith)
          (let none_sent : 0 ≡ 0 % u64_mod = omega arith in none_sent))
        (λ s h. returns h)

  Ends-fuel : {A : Type 0} (P : A → Type 0) (r : Run A) → Ends P r → r ≢ out_of_fuel
  Ends-fuel P r h e = (subst (Ends P) e h).held

  -- For every format and every list of arguments, the loop of `_do_vprintf` ends before one round for
  -- each character of the format and one more, and when it has run to its end, the number that it
  -- returns is the number of characters that it has sent, modulo 2 ^ 64.
  pub vprintf_chars-count :
      (fmt args : List ℕ)
      → (vprintf_chars memory fmt args ≢ out_of_fuel)
        × ((o : Sent) → vprintf_chars memory fmt args ≡ ok o → o.count ≡ length o.chars % u64_mod)
  vprintf_chars-count fmt args =
      let ends = vprintf_chars-Ends fmt args in
      (
        Ends-fuel IsCounted (vprintf_chars memory fmt args) ends,
        λ o e. (subst (Ends IsCounted) e ends).held,
      )
