-- ===== src/PageTable/Counter.antt =====
-- A source that hands out pages from the second one upwards, and a cleared table: an instance for
-- concrete runs.
use osvirt_project.Base.{
  ℕ, zero, suc, ◌+◌, ◌-◌, ◌*◌, ◌/◌, ◌%◌, ◌^◌, ◌≤◌, ◌<◌, ◌≡◌, ◌≢◌, ◌⊎◌, inl, inr, refl, sym, ◌∙◌, ap,
  Bool, true, false, Option, none, some, List, [], ◌∷◌, length, Run, ok, ◌>>=◌, arith,
  if◌then◌else◌, ltb, page_size,
}
use osvirt_project.PageTable.{Memory}
use osvirt_project.PageTable.Walk.{reach}
use osvirt_project.PageTable.Level.{PageSource, IsSound}

-- The next page, while it lies below 2 ^ 52.
abbrev pub next_page : ℕ → Run (ℕ × ℕ)
next_page s = if ltb s (2 ^ 40) then ok (s * page_size, s + 1) else ok (0, s)

pub next_page-gives :
    (s : ℕ) (r : ℕ × ℕ)
    → next_page s ≡ ok r
    → r.0 ≢ 0
    → (s * page_size ≤ r.0) × (¬ (r.1 * page_size ≤ r.0)) × (r.0 % page_size ≡ 0) × (r.0 < 2 ^ 52)
next_page-gives s r e ne = ground arith

pub next_page-returns : (s : ℕ) → (r : ℕ × ℕ) × (next_page s ≡ ok r)
next_page-returns s = elim (osvirt_project.Base.Bool-cases (ltb s (2 ^ 40))) [
  | inl more ↦ ((s * page_size, s + 1), rw more)
  | inr out ↦ ((0, s), rw out)
]

pub next_page-shrinks :
    (s : ℕ) (r : ℕ × ℕ) → next_page s ≡ ok r → (a : ℕ) → r.1 * page_size ≤ a → s * page_size ≤ a
next_page-shrinks s r e a h = ground arith

abbrev pub counter : PageSource next_page
counter = record {
  Has = λ s a. s * page_size ≤ a;
  CanGive = λ s. Unit;
  returns = λ s can. next_page-returns s;
  keeps = λ s r can e. tt;
  gives = λ s r can. next_page-gives s r;
  shrinks = λ s r can. next_page-shrinks s r;
}

abbrev pub zeroes : Memory
zeroes q = 0

only_root : (q : List ℕ) (c : ℕ) → reach zeroes 4096 q ≡ some c → (q ≡ []) × (c ≡ 4096)
unfolding reach
only_root [] c e = (refl, ground arith)
only_root (i ∷ q) c e = ground arith

pub zeroes-IsSound : IsSound next_page counter 4096 zeroes 2
zeroes-IsSound = record {
  tree = record {
    aligned = refl;
    unshared = λ p q c lp lq op oq hp hq. (only_root p c hp).0 ∙ sym (only_root q c hq).0;
  };
  ready = tt;
  apart = λ q c l o e h. omega (arith, (only_root q c e).1);
}
