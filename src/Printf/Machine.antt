-- ===== src/Printf/Machine.antt =====
-- `_do_vprintf`: the machine that reads the format. The format is the characters before its
-- terminator; the arguments are the 64-bit words that `va_arg` reads. `_do_vprintf` calls `fn` for
-- each character and takes nothing from it, so that the model keeps the characters; Output sends
-- them.
pub mod Convert
pub mod Ends
pub mod Text
use osvirt_project.Base.{
  ℕ, zero, suc, ◌+◌, ◌-◌, ◌*◌, ◌/◌, ◌%◌, ◌^◌, Bool, true, false, ◌&&◌, ◌||◌, List, [], ◌∷◌, ◌++◌,
  if◌then◌else◌, ◌==◌, leb, length, Run, ok, fault, out_of_fuel, ◌>>=◌, u64_mod,
}
use osvirt_project.Printf.Number.{number_text}
use osvirt_project.Printf.Field.{Flags, Sent, send, send_field}

-- `state` between two characters. State 4 is never left for a next character.
pub data State : Type 0 where
  awaiting_percent awaiting_flags awaiting_width awaiting_modifier : State

pub record Format : Type 0 where
  pub state : State
  pub flags : Flags
  pub given_wd : ℕ
  pub args : List ℕ
  pub sent : Sent

abbrev pub no_flags : Flags
no_flags = record {
  pointer = false;
  negative = false;
  left_justify = false;
  pad_left0 = false;
  do_sign = false;
  is8 = false;
  is16 = false;
  is64 = false;
}

-- A conversion character: how a number is read and written, the others, or none.
pub data Conversion : Type 0 where
  address : Conversion
  number : (digits shift : ℕ) (signed : Bool) → Conversion
  character string bogus : Conversion

abbrev pub conversion_of : ℕ → Conversion
conversion_of ch =
    if ch == b'p'
    then address
    else if ch == b'x'
    then number 16 4 false
    else if ch == b'X'
    then number 0 4 false
    else if (ch == b'd') || (ch == b'i')
    then number 0 0 true
    else if ch == b'u'
    then number 0 0 false
    else if ch == b'o'
    then number 0 3 false
    else if ch == b'c'
    then character
    else if ch == b's'
    then string
    else bogus

-- `va_arg`: to read past the last argument is undefined.
abbrev pub next_arg {ℓ} : {A : Type ℓ} → List ℕ → (ℕ → List ℕ → Run A) → Run A
next_arg args k = elim args [ [] ↦ fault | w ∷ rest ↦ k w rest ]

-- The bits of the argument that the modifiers leave.
abbrev pub bits_of : Flags → ℕ
bits_of f = if f.is64 then 64 else if f.is16 then 16 else if f.is8 then 8 else 32

-- What stands in `where` at `emit formatted string`, with the flags and the arguments then.
pub record Converted : Type 0 where
  pub flags : Flags
  pub text : List ℕ
  pub args : List ℕ

-- A signed number: `num = -snum` for a negative one. The least 64-bit number has no negative: undefined.
unfoldable pub convert_signed : (digits shift : ℕ) → Flags → List ℕ → Run Converted
convert_signed digits shift f args = next_arg args λ w rest.
    let bits = bits_of f in
    let v = w % 2 ^ bits in
    if leb (2 ^ (bits - 1)) v
    then (if v == 2 ^ 63
        then fault
        else (number_text digits shift (2 ^ bits - v) >>= λ text.
            ok (record { flags = record f { negative = true }; text = text; args = rest })))
    else (number_text digits shift v >>= λ text.
        ok (record { flags = f; text = text; args = rest }))

unfoldable pub convert_unsigned : (digits shift : ℕ) → Flags → List ℕ → Run Converted
convert_unsigned digits shift f args = next_arg args λ w rest.
    number_text digits shift (w % 2 ^ bits_of f) >>= λ text.
    ok (record { flags = f; text = text; args = rest })

unfoldable pub convert_number : (digits shift : ℕ) → Flags → List ℕ → Run Converted
convert_number digits shift f args =
    if f.do_sign then convert_signed digits shift f args else convert_unsigned digits shift f args

-- `(nil)` for a null pointer.
unfoldable pub convert_address : Flags → List ℕ → Run Converted
convert_address f args = next_arg args λ w rest.
    let f1 : Flags = record f {
      do_sign = false;
      negative = false;
      is8 = false;
      is16 = false;
      is64 = true;
    } in
    if w % u64_mod == 0
    then ok (record {
      flags = record f1 { pad_left0 = false };
      text = b'(' ∷ b'n' ∷ b'i' ∷ b'l' ∷ b')' ∷ [];
      args = rest;
    })
    else (number_text 16 4 (w % u64_mod) >>= λ text.
        ok (record { flags = record f1 { pointer = true }; text = text; args = rest }))

-- The flags that `%c` and `%s` do not take.
abbrev pub plain : Flags → Flags
plain f = record f { do_sign = false; negative = false; pad_left0 = false }

-- A string of one character, or the empty one.
unfoldable pub convert_character : Flags → List ℕ → Run Converted
convert_character f args = next_arg args λ w rest.
    ok (record { flags = plain f; text = if w % 256 == 0 then [] else (w % 256) ∷ []; args = rest })

-- The characters that stand at an address, up to a terminator, are the parameter `memory`.
module _ (memory : ℕ → List ℕ) where
  unfoldable pub convert_string : Flags → List ℕ → Run Converted
  convert_string f args = next_arg args λ w rest. ok (record {
    flags = plain f;
    text =
        if w % u64_mod == 0
        then b'(' ∷ b'n' ∷ b'u' ∷ b'l' ∷ b'l' ∷ b')' ∷ []
        else memory (w % u64_mod);
    args = rest;
  })

  -- `state = flags = given_wd = 0`.
  abbrev pub reset : Format → Format
  reset s = record s { state = awaiting_percent; flags = no_flags; given_wd = 0 }

  -- A field is sent, and the machine waits for the next `%`.
  abbrev pub finish : Format → List ℕ → Run Converted → Run (Format × List ℕ)
  finish s rest r = r >>= λ c.
      ok (
        reset (record s { args = c.args; sent = send_field c.flags s.given_wd c.text s.sent }),
        rest,
      )

  -- `STATE 4`. A character that is no conversion is copied to the output.
  unfoldable pub step_conversion : Format → (ch : ℕ) (rest : List ℕ) → Run (Format × List ℕ)
  step_conversion s ch rest = elim (conversion_of ch) [
    | address ↦ finish s rest (convert_address s.flags s.args)
    | number digits shift signed ↦
        finish s rest (convert_number digits shift (record s.flags { do_sign = signed }) s.args)
    | character ↦ finish s rest (convert_character s.flags s.args)
    | string ↦ finish s rest (convert_string s.flags s.args)
    | bogus ↦ ok (reset (record s { sent = send ch s.sent }), rest)
  ]

  -- `*fmt` or `*(fmt + 1)`, and what comes behind it.
  abbrev pub peek : List ℕ → ℕ
  peek [] = 0
  peek (c ∷ rest) = c

  abbrev pub behind : List ℕ → List ℕ
  behind [] = []
  behind (c ∷ rest) = rest

  abbrev pub with_is64 : Format → Format
  with_is64 s = record s { flags = record s.flags { is64 = true } }

  -- `STATE 3`.
  unfoldable pub step_modifier : Format → (ch : ℕ) (rest : List ℕ) → Run (Format × List ℕ)
  step_modifier s0 ch rest =
      let s : Format = record s0 { state = awaiting_modifier } in
      if (ch == b'z') || (ch == b't')
      then ok (with_is64 s, rest)
      else if ch == b'l'
      then (if peek rest == b'l' then ok (with_is64 s, behind rest) else ok (with_is64 s, rest))
      else if ch == b'L'
      then ok (with_is64 s, rest)
      else if ch == b'h'
      then (if peek rest == b'h'
          then ok (record s { flags = record s.flags { is8 = true } }, behind rest)
          else ok (record s { flags = record s.flags { is16 = true } }, rest))
      else step_conversion s ch rest

  -- `STATE 2`.
  unfoldable pub step_width : Format → (ch : ℕ) (rest : List ℕ) → Run (Format × List ℕ)
  step_width s0 ch rest =
      let s : Format = record s0 { state = awaiting_width } in
      if leb b'0' ch && leb ch b'9'
      then ok (record s { given_wd = (10 * s.given_wd + (ch - b'0')) % u64_mod }, rest)
      else step_modifier s ch rest

  -- `STATE 1`. The terminator behind `%` or `%0` is taken for a conversion character and copied, and
  -- then the loop reads past it.
  unfoldable pub enter_width : Format → (fmt : List ℕ) → Run (Format × List ℕ)
  enter_width s fmt = elim fmt [
    | [] ↦ fault
    | ch ∷ rest ↦ step_width (record s { given_wd = 0 }) ch rest
  ]

  unfoldable pub step_flags : Format → (ch : ℕ) (rest : List ℕ) → Run (Format × List ℕ)
  step_flags s0 ch rest =
      let s : Format = record s0 { state = awaiting_flags } in
      if ch == b'%'
      then ok (record s { state = awaiting_percent; sent = send ch s.sent }, rest)
      else if ch == b'-'
      then ok (record s { flags = record s.flags { left_justify = true } }, rest)
      else if ch == b'0'
      then enter_width (record s { flags = record s.flags { pad_left0 = true } }) rest
      else enter_width s (ch ∷ rest)

  -- `STATE 0`.
  unfoldable pub step_percent : Format → (ch : ℕ) (rest : List ℕ) → Run (Format × List ℕ)
  step_percent s ch rest =
      if ch == b'%'
      then elim rest [ [] ↦ fault | c ∷ rest ↦ step_flags (record s { flags = no_flags }) c rest ]
      else ok (record s { sent = send ch s.sent }, rest)

  -- `switch(state)`.
  unfoldable pub step : Format → (ch : ℕ) (rest : List ℕ) → Run (Format × List ℕ)
  step s ch rest = elim s.state [
    | awaiting_percent ↦ step_percent s ch rest
    | awaiting_flags ↦ step_flags s ch rest
    | awaiting_width ↦ step_width s ch rest
    | awaiting_modifier ↦ step_modifier s ch rest
  ]

  -- `for (; *fmt; fmt++)`, on fuel.
  unfoldable pub run_from : (fuel : ℕ) → Format → (fmt : List ℕ) → Run Format
  run_from zero s fmt = out_of_fuel
  run_from (suc k) s [] = ok s
  run_from (suc k) s (ch ∷ rest) = step s ch rest >>= λ r. run_from k r.0 r.1

  abbrev pub initial : List ℕ → Format
  initial args = record {
    state = awaiting_percent;
    flags = no_flags;
    given_wd = 0;
    args = args;
    sent = record { chars = []; count = 0 };
  }

  -- A round takes a character or more.
  unfoldable pub vprintf_chars : (fmt args : List ℕ) → Run Sent
  vprintf_chars fmt args = run_from (length fmt + 1) (initial args) fmt >>= λ s. ok s.sent
