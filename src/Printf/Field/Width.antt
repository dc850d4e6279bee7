-- ===== src/Printf/Field/Width.antt =====
-- How a field is filled up to its width.
use osvirt_project.Base.{
  ℕ, zero, suc, ◌+◌, ◌-◌, ◌%◌, ◌≤◌, ◌≡◌, refl, sym, ap, subst, ◌∙◌, inl, inr, Bool, not, List, [],
  ◌∷◌, ◌++◌, arith, if◌then◌else◌, ltb, length, length-append, replicate, Bool-cases, u64_mod, ◌⊎◌,
}
use mathlib.Core.List.{append_assoc, append-nil}
use osvirt_project.Printf.Field.{
  Flags, Sent, send, send_all, pad, has_sign, sign_of, actual_wd, pad_left, left_over, send_sign,
  send_field,
}

-- `count` is the number of characters, modulo 2 ^ 64.
abbrev pub IsCounted : Sent → Type 0
IsCounted o = o.count ≡ length o.chars % u64_mod

-- The characters `text` are sent after those of `o`.
pub record Adds (o : Sent) (text : List ℕ) (o' : Sent) : Type 0 where
  pub chars : o'.chars ≡ o.chars ++ text
  pub counted : IsCounted o → IsCounted o'

Adds-nil : (o : Sent) → Adds o [] o
Adds-nil o = record { chars = sym (append-nil o.chars); counted = λ h. h }

Adds-trans : {o o1 o2 : Sent} {xs ys : List ℕ} → Adds o xs o1 → Adds o1 ys o2 → Adds o (xs ++ ys) o2
Adds-trans {o} {o1} {o2} {xs} {ys} a b = record {
  chars = b.chars ∙ ap (λ l. l ++ ys) a.chars ∙ append_assoc o.chars xs ys;
  counted = λ h. b.counted (a.counted h);
}

pub send-Adds : (ch : ℕ) (o : Sent) → Adds o (ch ∷ []) (send ch o)
unfolding send
send-Adds ch o =
    let long = length-append o.chars (ch ∷ []) in
    record { chars = refl; counted = λ h. omega arith }

pub send_all-Adds : (text : List ℕ) (o : Sent) → Adds o text (send_all text o)
unfolding send_all
send_all-Adds [] o = Adds-nil o
send_all-Adds (ch ∷ text) o = Adds-trans (send-Adds ch o) (send_all-Adds text (send ch o))

pad-Adds : (k ch : ℕ) (o : Sent) → Adds o (replicate k ch) (pad k ch o)
unfolding pad
pad-Adds zero ch o = Adds-nil o
pad-Adds (suc k) ch o = Adds-trans (send-Adds ch o) (pad-Adds k ch (send ch o))

-- The sign of a field, or nothing.
abbrev pub sign_text : Flags → List ℕ
sign_text f = if has_sign f then sign_of f else []

-- A field: the sign and the text, with blanks behind, or with blanks or zeros before the text.
-- Zeros come behind the sign, blanks before it.
abbrev pub field : (f : Flags) (width : ℕ) (text : List ℕ) → List ℕ
field f width text =
    let fill = width - (length (sign_text f) + length text) in
    if f.left_justify
    then sign_text f ++ text ++ replicate fill b' '
    else if f.pad_left0
    then sign_text f ++ replicate fill b'0' ++ text
    else replicate fill b' ' ++ sign_text f ++ text

sign-Adds :
    (now : Bool) (f : Flags) (o : Sent)
    → Adds o (if now then sign_text f else []) (send_sign now f o)
sign-Adds now f o = elim (Bool-cases (has_sign f)) [
  | inl e ↦ elim (Bool-cases now) [
    | inl t ↦ rw (t, e) (send_all-Adds (sign_of f) o)
    | inr n ↦ rw (n, e) (Adds-nil o)
  ]
  | inr e ↦ elim (Bool-cases now) [
    | inl t ↦ rw (t, e) (Adds-nil o)
    | inr n ↦ rw (n, e) (Adds-nil o)
  ]
]

-- `strlen(where)` counts the sign.
actual_wd_lem : (f : Flags) (text : List ℕ) → actual_wd f text ≡ length (sign_text f) + length text
actual_wd_lem f text = elim (Bool-cases (has_sign f)) [
  | inl e ↦ rw e (omega arith)
  | inr e ↦ rw e (omega arith)
]

left-Adds :
    (f : Flags) (given actual : ℕ) (o : Sent)
    → Adds o
        (if f.left_justify
          then []
          else replicate (given - actual) (if f.pad_left0 then b'0' else b' '))
        (pad_left f given actual o)
left-Adds f given actual o = elim (Bool-cases f.left_justify) [
  | inl e ↦ rw e (Adds-nil o)
  | inr e ↦ rw e (pad-Adds (given - actual) (if f.pad_left0 then b'0' else b' ') o)
]

-- What is left for blanks behind the text.
right_fill :
    (f : Flags) (given actual : ℕ)
    → (if ltb (left_over f given actual) actual then 0 else left_over f given actual - actual)
      ≡ (if f.left_justify then given - actual else 0)
right_fill f given actual = ground arith

-- All the parts in the order of the code.
parts : (f : Flags) (given fill : ℕ) (text : List ℕ) → List ℕ
parts f given fill text =
    (((if f.pad_left0 then sign_text f else [])
        ++ (if f.left_justify then [] else replicate fill (if f.pad_left0 then b'0' else b' ')))
      ++ ((if not f.pad_left0 then sign_text f else []) ++ text))
    ++ replicate (if f.left_justify then fill else 0) b' '

parts_field :
    (f : Flags) (given fill : ℕ) (text : List ℕ)
    → fill ≡ given - (length (sign_text f) + length text)
    → parts f given fill text ≡ field f given text
unfolding parts
parts_field f given fill text e = elim (Bool-cases f.left_justify) [
  | inl l ↦ elim (Bool-cases f.pad_left0) [
    | inl z ↦ rw (l, z, e) rw (append-nil (sign_text f)) refl
    | inr z ↦ rw (l, z, e) refl
  ]
  | inr l ↦ elim (Bool-cases f.pad_left0) [
    | inl z ↦ rw (l, z, e) (append-nil _)
    | inr z ↦
        rw (l, z, e)
          (append-nil _
            ∙ sym (
                append_assoc (replicate (given - (length (sign_text f) + length text)) b' ')
                  (sign_text f) text))
  ]
]

send_field-Adds :
    (f : Flags) (given : ℕ) (text : List ℕ) (o : Sent)
    → Adds o (field f given text) (send_field f given text o)
unfolding send_field parts
send_field-Adds f given text o =
    let actual = actual_wd f text in
    let o0 = send_sign f.pad_left0 f o in
    let o1 = pad_left f given actual o0 in
    let o2 = send_sign (not f.pad_left0) f o1 in
    let o3 = send_all text o2 in
    let before = Adds-trans (sign-Adds f.pad_left0 f o) (left-Adds f given actual o0) in
    let upto =
      Adds-trans before (Adds-trans (sign-Adds (not f.pad_left0) f o1) (send_all-Adds text o2)) in
    let fill = if f.left_justify then given - actual else 0 in
    let all = Adds-trans upto (pad-Adds fill b' ' o3) in
    let path =
      parts_field f given (given - actual) text (ap (λ x. given - x) (actual_wd_lem f text)) in
    subst (λ k. Adds o (field f given text) (pad k b' ' o3)) (sym (right_fill f given actual))
      (subst (λ l. Adds o l (pad fill b' ' o3)) path all)

length-replicate : (k ch : ℕ) → length (replicate k ch) ≡ k
length-replicate zero ch = refl
length-replicate (suc k) ch = ap suc (length-replicate k ch)

length-append3 : (xs ys zs : List ℕ) → length (xs ++ ys ++ zs) ≡ length xs + length ys + length zs
length-append3 xs ys zs = omega (arith, length-append (xs ++ ys) zs, length-append xs ys)

length-field :
    (f : Flags) (width : ℕ) (text : List ℕ)
    → length (field f width text)
      ≡ length (sign_text f) + length text + (width - (length (sign_text f) + length text))
length-field f width text =
    let fill = width - (length (sign_text f) + length text) in
    let blanks = length-replicate fill b' ' in
    let zeros = length-replicate fill b'0' in
    elim (Bool-cases f.left_justify) [
      | inl l ↦ rw l (omega (arith, length-append3 (sign_text f) text (replicate fill b' ')))
      | inr l ↦ elim (Bool-cases f.pad_left0) [
        | inl z ↦ rw (l, z) (omega (arith, length-append3 (sign_text f) (replicate fill b'0') text))
        | inr z ↦ rw (l, z) (omega (arith, length-append3 (replicate fill b' ') (sign_text f) text))
      ]
    ]

-- A field that is sent adds the sign, the text and the filling to the output, in the order that the
-- flags ask for, is as long as the given width or the sign and the text, whichever is longer, and
-- leaves `count` the number of characters modulo 2 ^ 64 when it was that before.
pub send_field-field :
    (f : Flags) (given : ℕ) (text : List ℕ) (o : Sent)
    → ((send_field f given text o).chars ≡ o.chars ++ field f given text)
      × (given ≤ length (field f given text))
      × (actual_wd f text ≤ length (field f given text))
      × ((length (field f given text) ≡ given) ⊎ (length (field f given text) ≡ actual_wd f text))
      × (IsCounted o → IsCounted (send_field f given text o))
send_field-field f given text o =
    let adds = send_field-Adds f given text o in
    let long = length-field f given text in
    let actual = actual_wd_lem f text in
    (adds.chars, omega arith, omega arith, omega arith, adds.counted)
