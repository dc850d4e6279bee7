-- ===== src/Printf/Machine/Convert.antt =====
-- A run that does not end for lack of fuel, and that the conversions are such runs.
use osvirt_project.Base.{
  ℕ, zero, suc, ◌/◌, ◌%◌, ◌^◌, Bool, true, false, Option, none, some, List, [], ◌∷◌, if◌then◌else◌,
  ◌==◌, Run, ok, fault, halted, out_of_fuel, ◌>>=◌,
}
use osvirt_project.Printf.Number.{
  write_digits, write_uword_base10, write_shifted, room_in_buf, number_text,
}
use osvirt_project.Printf.Field.{Flags}
use osvirt_project.Printf.Machine.{
  next_arg, convert_signed, convert_unsigned, convert_number, convert_address, convert_character,
}

-- What holds of the value of a run that does not end for lack of fuel.
abbrev pub Held : {A : Type 0} → (A → Type 0) → Run A → Type 0
Held P (ok x) = P x
Held P halted = Unit
Held P fault = Unit
Held P out_of_fuel = ⊥

pub record Ends {A : Type 0} (P : A → Type 0) (r : Run A) : Type 0 where
  pub held : Held P r

abbrev pub Any : {A : Type 0} → A → Type 0
Any x = Unit

pub returns : {A : Type 0} {P : A → Type 0} {x : A} → P x → Ends P (ok x)
returns h = record { held = h }

pub returns-Any : {A : Type 0} {x : A} → Ends Any (ok x)
returns-Any = returns tt

pub fails : {A : Type 0} {P : A → Type 0} → Ends P fault
fails = record { held = tt }

pub >>=-Ends :
    {A : Type 0} {B : Type 0} {P : A → Type 0} {Q : B → Type 0} {r : Run A} {k : A → Run B}
    → Ends P r
    → ((x : A) → P x → Ends Q (k x))
    → Ends Q (r >>= k)
>>=-Ends {r = ok x} h next = next x h.held
>>=-Ends {r = halted} h next = record { held = tt }
>>=-Ends {r = fault} h next = fails
>>=-Ends {r = out_of_fuel} h next = absurd h.held

pub if-Ends :
    {A : Type 0} {P : A → Type 0} (b : Bool) {x y : Run A}
    → Ends P x
    → Ends P y
    → Ends P (if b then x else y)
if-Ends true hx hy = hx
if-Ends false hx hy = hy

-- The two branches of the digit loop.
digit_loop-Ends :
    (b : Bool) (o : Option ℕ) (last more : ℕ → Run (List ℕ))
    → ((c : ℕ) → Ends Any (last c))
    → ((c : ℕ) → Ends Any (more c))
    → Ends Any (elim o [ none ↦ fault | some c ↦ elim b [ true ↦ last c | false ↦ more c ] ])
digit_loop-Ends b none last more l m = fails
digit_loop-Ends true (some c) last more l m = l c
digit_loop-Ends false (some c) last more l m = m c

write_digits-Ends :
    (digit : ℕ → Option ℕ) (base room num : ℕ) (text : List ℕ)
    → Ends Any (write_digits digit base room num text)
unfolding write_digits
write_digits-Ends digit base zero num text = fails
write_digits-Ends digit base (suc room) num text =
    digit_loop-Ends (num / base == 0) (digit (num % base)) (λ c. ok (c ∷ text))
      (λ c. write_digits digit base room (num / base) (c ∷ text)) (λ c. returns tt)
      (λ c. write_digits-Ends digit base room (num / base) (c ∷ text))

number_text-Ends : (digits shift num : ℕ) → Ends Any (number_text digits shift num)
unfolding number_text write_uword_base10 write_shifted
number_text-Ends digits shift num =
    if-Ends (shift == 0) (write_digits-Ends _ 10 room_in_buf num [])
      (write_digits-Ends _ (2 ^ shift) room_in_buf num [])

pub next_arg-Ends :
    {A : Type 0} (args : List ℕ) {k : ℕ → List ℕ → Run A}
    → ((w : ℕ) (rest : List ℕ) → Ends Any (k w rest))
    → Ends Any (next_arg args k)
next_arg-Ends [] h = fails
next_arg-Ends (w ∷ rest) h = h w rest

text-Ends :
    {A : Type 0} (digits shift num : ℕ) (k : List ℕ → A)
    → Ends Any (number_text digits shift num >>= λ text. ok (k text))
text-Ends digits shift num k = >>=-Ends (number_text-Ends digits shift num) (λ x h. returns tt)

pub convert_number-Ends :
    (digits shift : ℕ) (f : Flags) (args : List ℕ) → Ends Any (convert_number digits shift f args)
unfolding convert_number convert_signed convert_unsigned
convert_number-Ends digits shift f args =
    search (if-Ends, next_arg-Ends, text-Ends, fails, returns-Any)

pub convert_address-Ends : (f : Flags) (args : List ℕ) → Ends Any (convert_address f args)
unfolding convert_address
convert_address-Ends f args = search (if-Ends, next_arg-Ends, text-Ends, fails, returns-Any)

pub convert_character-Ends : (f : Flags) (args : List ℕ) → Ends Any (convert_character f args)
unfolding convert_character
convert_character-Ends f args = search (next_arg-Ends, returns-Any)
