-- ===== src/Printf/Output.antt =====
-- The callers of `_do_vprintf`: `do_vprintf` with an output function, and those of `vsnprintf`,
-- `vsprintf` and `vprintf`.
pub mod Buffer
pub mod Screen
use osvirt_project.Base.{ℕ, zero, suc, ◌+◌, ◌-◌, List, [], ◌∷◌, if◌then◌else◌, ◌==◌, Run, ok, ◌>>=◌}
use osvirt_project.Printf.Field.{Sent}
use osvirt_project.Printf.Machine.{vprintf_chars}
use osvirt_project.Console.{Console, fb_output}

-- Bytes at their addresses.
abbrev pub Bytes : Type 0
Bytes = ℕ → ℕ

abbrev pub put_byte : (a v : ℕ) → Bytes → Bytes
put_byte a v m q = if q == a then v else m q

-- The calls of `fn` in order.
unfoldable pub feed : {P : Type 0} → (ℕ → P → Run P) → List ℕ → P → Run P
feed fn [] p = ok p
feed fn (ch ∷ text) p = fn ch p >>= feed fn text

-- `do_vprintf`: the characters, then a terminator. The number does not count the terminator.
unfoldable pub do_vprintf :
    {P : Type 0} → (memory : ℕ → List ℕ) → (ℕ → P → Run P) → (fmt args : List ℕ) → P → Run (ℕ × P)
do_vprintf memory fn fmt args p = vprintf_chars memory fmt args >>= λ o.
    feed fn o.chars p >>= λ p1. fn 0 p1 >>= λ p2. ok (o.count, p2)

-- `vsnprintf_output_s`, with memory.
pub record Bounded : Type 0 where
  pub cur : ℕ
  pub num : ℕ
  pub bytes : Bytes

-- The last byte that there is room for is the terminator.
unfoldable pub vsnprintf_output : ℕ → Bounded → Run Bounded
vsnprintf_output ch st =
    if st.num == 0
    then ok st
    else ok (record {
      cur = st.cur + 1;
      num = st.num - 1;
      bytes = put_byte st.cur (if st.num - 1 == 0 then 0 else ch) st.bytes;
    })

unfoldable pub vsnprintf :
    (memory : ℕ → List ℕ) (buf n : ℕ) (fmt args : List ℕ) → Bytes → Run (ℕ × Bytes)
vsnprintf memory buf n fmt args m =
    do_vprintf memory vsnprintf_output fmt args (record { cur = buf; num = n; bytes = m }) >>= λ r.
    ok (r.0, r.1.bytes)

-- `vsprintf_output_s`, with memory.
pub record Unbounded : Type 0 where
  pub cur : ℕ
  pub bytes : Bytes

unfoldable pub vsprintf_output : ℕ → Unbounded → Run Unbounded
vsprintf_output ch st = ok (record { cur = st.cur + 1; bytes = put_byte st.cur ch st.bytes })

unfoldable pub vsprintf :
    (memory : ℕ → List ℕ) (buf : ℕ) (fmt args : List ℕ) → Bytes → Run (ℕ × Bytes)
vsprintf memory buf fmt args m =
    do_vprintf memory vsprintf_output fmt args (record { cur = buf; bytes = m }) >>= λ r.
    ok (r.0, r.1.bytes)

-- `vprintf_output` is `fb_output`.
unfoldable pub vprintf :
    (memory : ℕ → List ℕ) (font : ℕ → ℕ) (fmt args : List ℕ) → Console → Run (ℕ × Console)
vprintf memory font = do_vprintf memory (fb_output font)

-- `printf`, with the arguments that `va_start` finds.
unfoldable pub printf :
    (memory : ℕ → List ℕ) (font : ℕ → ℕ) (fmt args : List ℕ) → Console → Run (ℕ × Console)
printf = vprintf

unfoldable pub snprintf :
    (memory : ℕ → List ℕ) (buf n : ℕ) (fmt args : List ℕ) → Bytes → Run (ℕ × Bytes)
snprintf = vsnprintf

unfoldable pub sprintf :
    (memory : ℕ → List ℕ) (buf : ℕ) (fmt args : List ℕ) → Bytes → Run (ℕ × Bytes)
sprintf = vsprintf
