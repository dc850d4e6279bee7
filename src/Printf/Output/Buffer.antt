-- ===== src/Printf/Output/Buffer.antt =====
-- What `vsnprintf` leaves in memory.
use osvirt_project.Base.{
  ℕ, zero, suc, ◌+◌, ◌-◌, ◌≤◌, ◌<◌, ◌≡◌, ◌≢◌, refl, sym, ap, subst, ◌∙◌, ◌⊎◌, inl, inr, Bool, true,
  false, some, List, [], ◌∷◌, ◌++◌, arith, if◌then◌else◌, ◌==◌, get_elem?, length, Run, ok, ◌>>=◌,
  >>=-ok, >>=-ext, >>=-assoc, Bool-cases,
}
use osvirt_project.Printf.Field.{Sent}
use osvirt_project.Printf.Machine.{vprintf_chars}
use osvirt_project.Printf.Output.{
  Bytes, put_byte, feed, do_vprintf, Bounded, vsnprintf_output, vsnprintf,
}

-- What a run of output leaves: the bytes outside of the room, and those that it wrote.
pub record Writes (st : Bounded) (text : List ℕ) (st' : Bounded) : Type 0 where
  pub outside : (q : ℕ) → (q < st.cur) ⊎ (st.cur + st.num ≤ q) → st'.bytes q ≡ st.bytes q
  pub inside :
      (i c : ℕ)
      → get_elem? text i ≡ some c
      → i < st.num
      → st'.bytes (st.cur + i) ≡ (if i + 1 == st.num then 0 else c)

-- The state behind one character for which there is room.
abbrev after : ℕ → Bounded → Bounded
after ch st = record {
  cur = st.cur + 1;
  num = st.num - 1;
  bytes = put_byte st.cur (if st.num - 1 == 0 then 0 else ch) st.bytes;
}

full : (ch : ℕ) (st : Bounded) → st.num ≡ 0 → vsnprintf_output ch st ≡ ok st
unfolding vsnprintf_output
full ch st none_left = let e : (st.num == 0) ≡ true = ground arith in rw (vsnprintf_output, e) refl

room : (ch : ℕ) (st : Bounded) → st.num ≢ 0 → vsnprintf_output ch st ≡ ok (after ch st)
unfolding vsnprintf_output
room ch st some_left = let e : (st.num == 0) ≡ false = ground arith in rw (vsnprintf_output, e) refl

full-Writes : (st : Bounded) (text : List ℕ) → st.num ≡ 0 → Writes st text st
full-Writes st text none_left = record {
  outside = λ q h. refl;
  inside = λ i c at small. absurd (omega arith);
}

put_same : (a v q : ℕ) (m : Bytes) → q ≡ a → put_byte a v m q ≡ v
put_same a v q m e = ground arith

put_other : (a v q : ℕ) (m : Bytes) → q ≢ a → put_byte a v m q ≡ m q
put_other a v q m e = ground arith

first_test :
    (n ch c : ℕ) → n ≢ 0 → ch ≡ c → (if n - 1 == 0 then 0 else ch) ≡ (if 0 + 1 == n then 0 else c)
first_test n ch c some_left e = ground arith

next_test : (n i c : ℕ) → (if i + 1 == n - 1 then 0 else c) ≡ (if suc i + 1 == n then 0 else c)
next_test n i c = ground arith

after-Writes :
    (ch : ℕ) (text : List ℕ) (st st' : Bounded)
    → st.num ≢ 0
    → Writes (after ch st) text st'
    → Writes st (ch ∷ text) st'
after-Writes ch text st st' more w = record {
  outside = λ q h. w.outside q (omega arith) ∙ put_other st.cur _ q st.bytes (omega arith);
  inside = λ i c at small. written i c at small;
}
  where
    written :
        (i c : ℕ)
        → get_elem? (ch ∷ text) i ≡ some c
        → i < st.num
        → st'.bytes (st.cur + i) ≡ (if i + 1 == st.num then 0 else c)
    written zero c at small =
        let same : ch ≡ c = cc in
        let kept = w.outside (st.cur + 0) (inl (omega arith)) in
        let put =
          put_same st.cur (if st.num - 1 == 0 then 0 else ch) (st.cur + 0) st.bytes (omega arith) in
        kept ∙ put ∙ first_test st.num ch c more same
    written (suc i) c at small =
        let later = w.inside i c at (omega arith) in
        subst (λ q. st'.bytes q ≡ (if suc i + 1 == st.num then 0 else c)) (omega arith)
          (later ∙ next_test st.num i c)

pub feed-Writes :
    (text : List ℕ) (st : Bounded)
    → (st' : Bounded) × (feed vsnprintf_output text st ≡ ok st') × Writes st text st'
unfolding feed
feed-Writes [] st = (st, refl, record { outside = λ q h. refl; inside = λ i c at small. cc })
feed-Writes (ch ∷ text) st = elim (Bool-cases (st.num == 0)) [
  | inl e ↦
      let none_left : st.num ≡ 0 = ground arith in
      let (st', run, w) = feed-Writes text st in
      (
        st',
        rw (feed, full ch st none_left, ◌>>=◌) run,
        record { outside = w.outside; inside = λ i c at small. absurd (omega arith) },
      )
  | inr e ↦
      let some_left : st.num ≢ 0 = ground arith in
      let (st', run, w) = feed-Writes text (after ch st) in
      (st', rw (feed, room ch st some_left, ◌>>=◌) run, after-Writes ch text st st' some_left w)
]

feed-snoc :
    {P : Type 0} (fn : ℕ → P → Run P) (text : List ℕ) (ch : ℕ) (p : P)
    → feed fn (text ++ (ch ∷ [])) p ≡ (feed fn text p >>= fn ch)
unfolding feed
feed-snoc fn [] ch p = >>=-ok (fn ch p)
feed-snoc fn (x ∷ text) ch p =
    >>=-ext (fn x p) _ _ (feed-snoc fn text ch) ∙ sym (>>=-assoc (fn x p) (feed fn text) (fn ch))

-- The terminator goes through the output function as another character.
module _ {P : Type 0} (memory : ℕ → List ℕ) (fn : ℕ → P → Run P) where
  pub do_vprintf-feed :
      (fmt args : List ℕ) (o : Sent) (p q : P)
      → vprintf_chars memory fmt args ≡ ok o
      → feed fn (o.chars ++ (0 ∷ [])) p ≡ ok q
      → do_vprintf memory fn fmt args p ≡ ok (o.count, q)
  unfolding do_vprintf
  do_vprintf-feed fmt args o p q run fed =
      rw (do_vprintf, run, ◌>>=◌)
        (sym (>>=-assoc (feed fn o.chars p) (fn 0) (λ p2. ok (o.count, p2)))
          ∙ ap (λ r. r >>= λ p2. ok (o.count, p2)) (sym (feed-snoc fn o.chars 0 p) ∙ fed))

get-text :
    (text : List ℕ) (last i c : ℕ)
    → get_elem? text i ≡ some c
    → get_elem? (text ++ (last ∷ [])) i ≡ some c
get-text [] last i c h = absurd cc
get-text (x ∷ text) last zero c h = h
get-text (x ∷ text) last (suc i) c h = get-text text last i c h

get-last : (text : List ℕ) (last : ℕ) → get_elem? (text ++ (last ∷ [])) (length text) ≡ some last
get-last [] last = refl
get-last (x ∷ text) last = get-last text last

if-zero : (i n c : ℕ) → i + 1 < n → (if i + 1 == n then 0 else c) ≡ c
if-zero i n c h = ground arith

if-any : (b : Bool) (c : ℕ) → (if b then c else c) ≡ c
if-any true c = refl
if-any false c = refl

-- What `vsnprintf` writes for the characters of a format: none outside of the `n` bytes from
-- `buf`; the first characters, as far as there is room before the last byte; and a terminator
-- behind them, in the last byte when the text is too long.
module _ (memory : ℕ → List ℕ) where
  pub vsnprintf-bounds :
      (buf n : ℕ) (fmt args : List ℕ) (m : Bytes) (o : Sent)
      → vprintf_chars memory fmt args ≡ ok o
      → (m' : Bytes) × (vsnprintf memory buf n fmt args m ≡ ok (o.count, m'))
        × ((q : ℕ) → (q < buf) ⊎ (buf + n ≤ q) → m' q ≡ m q)
        × ((i c : ℕ) → get_elem? o.chars i ≡ some c → i + 1 < n → m' (buf + i) ≡ c)
        × (length o.chars < n → m' (buf + length o.chars) ≡ 0)
        × ((c : ℕ) → get_elem? o.chars (n - 1) ≡ some c → 1 ≤ n → m' (buf + (n - 1)) ≡ 0)
  unfolding vsnprintf
  vsnprintf-bounds buf n fmt args m o run =
      let start : Bounded = record { cur = buf; num = n; bytes = m } in
      let (st', fed, w) = feed-Writes (o.chars ++ (0 ∷ [])) start in
      (
        st'.bytes,
        rw (vsnprintf, do_vprintf-feed memory vsnprintf_output fmt args o start st' run fed, ◌>>=◌)
            refl,
        w.outside,
        λ i c at small.
            w.inside i c (get-text o.chars 0 i c at) (omega arith) ∙ if-zero i n c small,
        λ small.
            w.inside (length o.chars) 0 (get-last o.chars 0) small
            ∙ if-any (length o.chars + 1 == n) 0,
        λ c at some_room.
            w.inside (n - 1) c (get-text o.chars 0 (n - 1) c at) (omega arith) ∙ ground arith,
      )
