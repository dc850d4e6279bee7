-- ===== src/Printf/Field.antt =====
-- The flags of a conversion, and the output of a field: `emit formatted string` of `_do_vprintf`.
pub mod Width
use osvirt_project.Base.{
  ℕ, zero, suc, ◌+◌, ◌-◌, ◌%◌, Bool, not, ◌&&◌, ◌||◌, List, [], ◌∷◌, ◌++◌, if◌then◌else◌, ltb,
  length, u64_mod,
}

-- The bits of `flags`.
pub record Flags : Type 0 where
  pub pointer : Bool
  pub negative : Bool
  pub left_justify : Bool
  pub pad_left0 : Bool
  pub do_sign : Bool
  pub is8 : Bool
  pub is16 : Bool
  pub is64 : Bool

-- What `fn` was called with, in order, and `count`.
pub record Sent : Type 0 where
  pub chars : List ℕ
  pub count : ℕ

-- `fn(ch, ptr); count++;`
unfoldable pub send : ℕ → Sent → Sent
send ch o = record { chars = o.chars ++ (ch ∷ []); count = (o.count + 1) % u64_mod }

-- `for (; *where != '\0'; where++)`
unfoldable pub send_all : List ℕ → Sent → Sent
send_all [] o = o
send_all (ch ∷ text) o = send_all text (send ch o)

-- A loop that sends the same character, with the rounds left.
unfoldable pub pad : (rounds ch : ℕ) → Sent → Sent
pad zero ch o = o
pad (suc k) ch o = pad k ch (send ch o)

-- `PR_POINTER | PR_NEGATIVE`.
abbrev pub has_sign : Flags → Bool
has_sign f = f.pointer || f.negative

-- `0x` or `-`.
abbrev pub sign_of : Flags → List ℕ
sign_of f = if f.pointer then b'0' ∷ b'x' ∷ [] else b'-' ∷ []

-- `strlen(where)`, with the sign.
abbrev pub actual_wd : Flags → List ℕ → ℕ
actual_wd f text = if has_sign f then length text + length (sign_of f) else length text

-- `for (; given_wd > actual_wd; given_wd--)`
abbrev pub pad_left : (f : Flags) (given actual : ℕ) → Sent → Sent
pad_left f given actual o =
    if f.left_justify then o else pad (given - actual) (if f.pad_left0 then b'0' else b' ') o

-- `given_wd` behind that loop.
abbrev pub left_over : (f : Flags) (given actual : ℕ) → ℕ
left_over f given actual =
    if f.left_justify then given else if ltb actual given then actual else given

-- The sign, where it comes before or behind the padding.
abbrev pub send_sign : Bool → Flags → Sent → Sent
send_sign now f o = if has_sign f && now then send_all (sign_of f) o else o

unfoldable pub send_field : (f : Flags) (given_wd : ℕ) (text : List ℕ) → Sent → Sent
send_field f given text o =
    let actual = actual_wd f text in
    let o1 = pad_left f given actual (send_sign f.pad_left0 f o) in
    let o2 = send_all text (send_sign (not f.pad_left0) f o1) in
    let given1 = left_over f given actual in
    pad (if ltb given1 actual then 0 else given1 - actual) b' ' o2
