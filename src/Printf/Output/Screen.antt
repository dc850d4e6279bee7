-- ===== src/Printf/Output/Screen.antt =====
-- `printf` on the screen: `_do_vprintf` with `fb_output`.
use osvirt_project.Base.{ℕ, ◌≡◌, refl, ◌∙◌, List, [], ◌∷◌, ◌++◌, ok, ◌>>=◌}
use osvirt_project.Printf.Field.{Sent}
use osvirt_project.Printf.Machine.{vprintf_chars}
use osvirt_project.Printf.Output.{feed, printf, vprintf}
use osvirt_project.Printf.Output.Buffer.{do_vprintf-feed}
use osvirt_project.Console.{Console, fb_output}
use osvirt_project.Console.Cursor.{IsConsole, SameSizes, fb_output-IsConsole}

module _ (font : ℕ → ℕ) where
  feed-IsConsole :
      (text : List ℕ) (c : Console)
      → IsConsole c
      → (c' : Console) × (feed (fb_output font) text c ≡ ok c') × SameSizes c c' × IsConsole c'
  unfolding feed
  feed-IsConsole [] c is = (c, refl, (refl, refl, refl), is)
  feed-IsConsole (ch ∷ text) c is =
      let (c1, run1, same1, is1) = fb_output-IsConsole font ch c is in
      let (c2, run2, same2, is2) = feed-IsConsole text c1 is1 in
      (
        c2,
        rw (feed, run1, ◌>>=◌) run2,
        (same2.0 ∙ same1.0, same2.1 ∙ same1.1, same2.2 ∙ same1.2),
        is2,
      )

  -- When the conversion of a format with its arguments is defined, `printf` on a screen whose cursor
  -- is in place writes all the characters, returns their number, keeps the screen's sizes, and
  -- leaves the cursor in place.
  pub printf-IsConsole :
      (memory : ℕ → List ℕ) (fmt args : List ℕ) (c : Console) (o : Sent)
      → IsConsole c
      → vprintf_chars memory fmt args ≡ ok o
      → (c' : Console) × (printf memory font fmt args c ≡ ok (o.count, c'))
        × (feed (fb_output font) (o.chars ++ (0 ∷ [])) c ≡ ok c')
        × SameSizes c c'
        × IsConsole c'
  unfolding printf vprintf
  printf-IsConsole memory fmt args c o is run =
      let (c', fed, same, is') = feed-IsConsole (o.chars ++ (0 ∷ [])) c is in
      (c', do_vprintf-feed memory (fb_output font) fmt args o c c' run fed, fed, same, is')
