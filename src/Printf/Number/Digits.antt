-- ===== src/Printf/Number/Digits.antt =====
-- What the digits of a number are worth.
use osvirt_project.Base.{
  ℕ, zero, suc, ◌+◌, ◌-◌, ◌*◌, ◌/◌, ◌%◌, ◌^◌, ◌≤◌, ◌<◌, ◌≡◌, ◌≢◌, refl, sym, ap, subst, ◌∙◌, ◌⊎◌,
  inl, inr, Bool, true, false, ◌&&◌, Option, none, some, List, [], ◌∷◌, ◌++◌, arith, if◌then◌else◌,
  ◌==◌, leb, get_elem?, Bool-cases, length, ok,
}
use mathlib.Core.List.{append_assoc, append-nil}
use native.Mathlib.Nat.{
  mod-lt, mod-add-div', div-lt_iff_lt-mul, le-div_iff_mul-le, pow-zero, pow-suc,
}
use osvirt_project.Printf.Number.{
  hex_digits, write_digits, write_uword_base10, write_shifted, room_in_buf, number_text,
}

-- What a digit is worth, in either case.
abbrev pub digit_value : ℕ → ℕ
digit_value c = if leb c b'9' then c - b'0' else if leb c b'F' then c - b'A' + 10 else c - b'a' + 10

-- The number that digits write in a base, from the left.
unfoldable pub value_from : (base acc : ℕ) → List ℕ → ℕ
value_from base acc [] = acc
value_from base acc (c ∷ text) = value_from base (acc * base + digit_value c) text

value_from-snoc :
    (base acc c : ℕ) (text : List ℕ)
    → value_from base acc (text ++ (c ∷ [])) ≡ value_from base acc text * base + digit_value c
unfolding value_from
value_from-snoc base acc c [] = refl
value_from-snoc base acc c (x ∷ text) = value_from-snoc base (acc * base + digit_value x) c text

length-snoc : (text : List ℕ) (c : ℕ) → length (text ++ (c ∷ [])) ≡ length text + 1
length-snoc [] c = omega arith
length-snoc (x ∷ text) c = omega (arith, length-snoc text c)

-- A table of digits that are worth what they stand for.
abbrev pub IsDigits : (digit : ℕ → Option ℕ) (base : ℕ) → Type 0
IsDigits digit base = (d : ℕ) → d < base → (c : ℕ) × (digit d ≡ some c) × (digit_value c ≡ d)

-- The digits of a number: none more than it takes.
pub record Written (base num : ℕ) (text : List ℕ) : Type 0 where
  pub worth : value_from base 0 text ≡ num
  pub least : (length text ≡ 1) ⊎ (base ^ (length text - 1) ≤ num)

module _ (digit : ℕ → Option ℕ) (base : ℕ) (are : IsDigits digit base) (two : 2 ≤ base) where
  one-Written : (num c : ℕ) → num < base → digit_value c ≡ num → Written base num (c ∷ [])
  unfolding value_from
  one-Written num c small worth = record { worth = omega arith; least = inl (omega arith) }

  more-Written :
      (num c : ℕ) (ds : List ℕ)
      → Written base (num / base) ds
      → 1 ≤ length ds
      → num / base ≢ 0
      → digit_value c ≡ num % base
      → Written base num (ds ++ (c ∷ []))
  more-Written num c ds w long some_more worth =
      let whole = mod-add-div' num base in
      let longer = length-snoc ds c in
      let low : base ^ (length ds - 1) ≤ num / base = elim w.least [
        | inl one ↦
            let zero_left : length ds - 1 ≡ 0 = omega arith in
            rw (zero_left, pow-zero base) (omega arith)
        | inr more ↦ more
      ] in
      let len : length (ds ++ (c ∷ [])) - 1 ≡ suc (length ds - 1) = omega arith in
      let up = pow-suc base (length ds - 1) in
      record {
        worth = value_from-snoc base 0 c ds ∙ rw (w.worth, worth) (omega arith);
        least = inr (rw len (rw up ((le-div_iff_mul-le (omega arith)).0 low)));
      }

  digit_of : (num : ℕ) → (c : ℕ) × (digit (num % base) ≡ some c) × (digit_value c ≡ num % base)
  digit_of num = are (num % base) (mod-lt num (omega arith))

  small_one : (num : ℕ) → num / base ≡ 0 → num ≡ num % base
  small_one num z =
      let whole = mod-add-div' num base in
      let none_left : num / base * base ≡ 0 = rw z (omega arith) in omega arith

  -- The outcome of the loop.
  abbrev Outcome : (room num : ℕ) → List ℕ → Type 0
  Outcome room num text =
      (ds : List ℕ) × (write_digits digit base room num text ≡ ok (ds ++ text))
      × Written base num ds
      × (1 ≤ length ds)
      × (length ds ≤ room)

  last_digit : (room num : ℕ) (text : List ℕ) → num / base ≡ 0 → Outcome (suc room) num text
  unfolding write_digits
  last_digit room num text z =
      let (c, is, worth) = digit_of num in
      let none_left : (num / base == 0) ≡ true = ground arith in
      let whole = small_one num z in
      (
        c ∷ [],
        rw (write_digits, is, none_left) refl,
        one-Written num c (rw whole (mod-lt num (omega arith))) (worth ∙ sym whole),
        omega arith,
        omega arith,
      )

  more_digits :
      (room num c : ℕ) (text : List ℕ)
      → digit (num % base) ≡ some c
      → digit_value c ≡ num % base
      → num / base ≢ 0
      → Outcome room (num / base) (c ∷ text)
      → Outcome (suc room) num text
  unfolding write_digits
  more_digits room num c text is worth more (ds, run, w, long, short) =
      let some_left : (num / base == 0) ≡ false = ground arith in
      let longer = length-snoc ds c in
      (
        ds ++ (c ∷ []),
        rw (write_digits, is, some_left) (run ∙ ap ok (sym (append_assoc ds (c ∷ []) text))),
        more-Written num c ds w long more worth,
        omega arith,
        omega arith,
      )

  pub write_digits-Written :
      (room num : ℕ) (text : List ℕ) → num < base ^ suc room → Outcome (suc room) num text
  write_digits-Written zero num text small = last_digit zero num text (
      let less =
        (div-lt_iff_lt-mul {k = base} {x = num} {y = 1} (omega arith)).1
          (subst (λ x. num < x) (pow-suc base 0 ∙ ap (λ x. x * base) (pow-zero base)) small) in
      omega arith)
  write_digits-Written (suc r) num text small = elim (Bool-cases (num / base == 0)) [
    | inl e ↦ last_digit (suc r) num text (ground arith)
    | inr e ↦
        let (c, is, worth) = digit_of num in
        let less =
          (div-lt_iff_lt-mul {k = base} {x = num} {y = base ^ suc r} (omega arith)).1
            (subst (λ x. num < x) (pow-suc base (suc r)) small) in
        more_digits (suc r) num c text is worth (ground arith)
          (write_digits-Written r (num / base) (c ∷ text) less)
  ]

base10-IsDigits : IsDigits (λ temp. some (temp + b'0')) 10
base10-IsDigits d small = (d + b'0', refl, ground arith)

-- An entry of `HexDigits` that is worth its place.
abbrev is_entry : (digits d : ℕ) → Bool
is_entry digits d = elim (get_elem? hex_digits (digits + d)) [
  | none ↦ false
  | some c ↦ digit_value c == d
]

are_entries : (digits count : ℕ) → Bool
are_entries digits zero = true
are_entries digits (suc d) = is_entry digits d && are_entries digits d

and_parts : (a b : Bool) → (a && b) ≡ true → (a ≡ true) × (b ≡ true)
and_parts true b h = (refl, h)
and_parts false b h = absurd (ground arith)

table_entry :
    (digits count d : ℕ) → are_entries digits count ≡ true → d < count → is_entry digits d ≡ true
unfolding are_entries
table_entry digits zero d all small = absurd (omega arith)
table_entry digits (suc k) d all small =
    let (here, below) = and_parts (is_entry digits k) (are_entries digits k) all in
    elim (Bool-cases (d == k)) [
      | inl e ↦ subst (λ x. is_entry digits x ≡ true) (let same : k ≡ d = ground arith in same) here
      | inr e ↦ table_entry digits k d below (ground arith)
    ]

upper_case : are_entries 0 16 ≡ true
unfolding are_entries
upper_case = refl

lower_case : are_entries 16 16 ≡ true
unfolding are_entries
lower_case = refl

-- A filled entry is worth its place.
filled :
    (o : Option ℕ) (d : ℕ)
    → elim o [ none ↦ false | some c ↦ digit_value c == d ] ≡ true
    → (c : ℕ) × (o ≡ some c) × (digit_value c ≡ d)
filled none d is = absurd (ground arith)
filled (some c) d is = (c, refl, ground arith)

entry_digit :
    (digits d : ℕ)
    → is_entry digits d ≡ true
    → (c : ℕ) × (get_elem? hex_digits (digits + d) ≡ some c) × (digit_value c ≡ d)
entry_digit digits d is = filled (get_elem? hex_digits (digits + d)) d is

-- `HexDigits` from its start and from its middle.
hex_digits-IsDigits :
    (digits shift : ℕ)
    → (digits ≡ 0) ⊎ (digits ≡ 16)
    → (shift ≡ 3) ⊎ (shift ≡ 4)
    → IsDigits (λ temp. get_elem? hex_digits (digits + temp)) (2 ^ shift)
hex_digits-IsDigits digits shift from by d small =
    let few : d < 16 = elim by [
      | inl e ↦ few_of 8 (subst (λ x. d < 2 ^ x) e small) (omega arith)
      | inr e ↦ few_of 16 (subst (λ x. d < 2 ^ x) e small) (omega arith)
    ] in
    entry_digit digits d (elim from [
      | inl e ↦ rw e (table_entry 0 16 d upper_case few)
      | inr e ↦ rw e (table_entry 16 16 d lower_case few)
    ])
  where
    few_of : (k : ℕ) → d < k → k ≤ 16 → d < 16
    few_of k s h = omega arith

-- The base of a shift.
abbrev pub base_of : ℕ → ℕ
base_of shift = if shift == 0 then 10 else 2 ^ shift

-- The loop of a table with room for the digits.
text_of :
    (digit : ℕ → Option ℕ) (base num : ℕ)
    → IsDigits digit base
    → 2 ≤ base
    → num < 2 ^ 64
    → 2 ^ 64 ≤ base ^ 63
    → (text : List ℕ) × (write_digits digit base room_in_buf num [] ≡ ok text)
      × Written base num text
      × (length text ≤ room_in_buf)
text_of digit base num are two small wide =
    let (ds, run, w, long, short) =
      write_digits-Written digit base are two 62 num [] (omega arith) in
    (ds, run ∙ ap ok (append-nil ds), w, short)

-- The conversion of a number below 2 ^ 64 in base 10, 8 or 16, in either case, fits in the buffer,
-- and reading the text back as digits of the base gives the number. It has no leading zero.
pub number_text-roundtrip :
    (digits shift num : ℕ)
    → (digits ≡ 0) ⊎ (digits ≡ 16)
    → (shift ≡ 0) ⊎ ((shift ≡ 3) ⊎ (shift ≡ 4))
    → num < 2 ^ 64
    → (text : List ℕ) × (number_text digits shift num ≡ ok text)
      × (value_from (base_of shift) 0 text ≡ num)
      × ((length text ≡ 1) ⊎ (base_of shift ^ (length text - 1) ≤ num))
      × (length text ≤ room_in_buf)
unfolding number_text write_uword_base10 write_shifted
number_text-roundtrip digits shift num from by small = elim by [
  | inl e ↦
      let (text, run, w, short) =
        text_of (λ temp. some (temp + b'0')) 10 num base10-IsDigits (omega arith) small
          (omega arith) in
      rw e (text, run, w.worth, w.least, short)
  | inr (inl e) ↦
      let (text, run, w, short) =
        text_of (λ temp. get_elem? hex_digits (digits + temp)) 8 num
          (hex_digits-IsDigits digits 3 from (inl refl)) (omega arith) small (omega arith) in
      rw e (text, run, w.worth, w.least, short)
  | inr (inr e) ↦
      let (text, run, w, short) =
        text_of (λ temp. get_elem? hex_digits (digits + temp)) 16 num
          (hex_digits-IsDigits digits 4 from (inr refl)) (omega arith) small (omega arith) in
      rw e (text, run, w.worth, w.least, short)
]
