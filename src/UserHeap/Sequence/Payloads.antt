-- ===== src/UserHeap/Sequence/Payloads.antt =====
-- Lists of payloads: what is in them, and what does not overlap.
use osvirt_project.Base.{
  ℕ, ◌+◌, ◌*◌, ◌≤◌, ◌≡◌, ◌≢◌, refl, sym, ap, ◌⊎◌, inl, inr, true, false, List, [], ◌∷◌, ◌++◌, arith,
}
use osvirt_project.UserHeap.{tag_size}
use osvirt_project.UserHeap.Blocks.{Block, span}
use osvirt_project.UserHeap.Live.{used, Apart}

abbrev pub IsIn : (p k : ℕ) → List (ℕ × ℕ) → Type 0
IsIn p k [] = ⊥
IsIn p k (x ∷ l) = ((x.0 ≡ p) × (x.1 ≡ k)) ⊎ IsIn p k l

pub IsIn-split :
    (p k : ℕ) (l : List (ℕ × ℕ))
    → IsIn p k l
    → (xs : List (ℕ × ℕ)) × (ys : List (ℕ × ℕ)) × (l ≡ xs ++ ((p, k) ∷ ys))
IsIn-split p k [] h = absurd h
IsIn-split p k (x ∷ l) (inl (e, e')) = ([], l, cc)
IsIn-split p k (x ∷ l) (inr h) =
    let (xs, ys, parts) = IsIn-split p k l h in (x ∷ xs, ys, ap (λ l'. x ∷ l') parts)

pub IsIn-new : (p k : ℕ) (xs ys : List (ℕ × ℕ)) → IsIn p k (xs ++ ((p, k) ∷ ys))
IsIn-new p k [] ys = inl (refl, refl)
IsIn-new p k (x ∷ xs) ys = inr (IsIn-new p k xs ys)

pub IsIn-more :
    (p k : ℕ) (z : ℕ × ℕ) (xs ys : List (ℕ × ℕ)) → IsIn p k (xs ++ ys) → IsIn p k (xs ++ (z ∷ ys))
IsIn-more p k z [] ys h = inr h
IsIn-more p k z (x ∷ xs) ys (inl e) = inl e
IsIn-more p k z (x ∷ xs) ys (inr h) = inr (IsIn-more p k z xs ys h)

pub IsIn-less :
    (p k q j : ℕ) (xs ys : List (ℕ × ℕ))
    → p ≢ q
    → IsIn p k (xs ++ ((q, j) ∷ ys))
    → IsIn p k (xs ++ ys)
IsIn-less p k q j [] ys ne (inl (e, e')) = absurd (ne (sym e))
IsIn-less p k q j [] ys ne (inr h) = h
IsIn-less p k q j (x ∷ xs) ys ne (inl e) = inl e
IsIn-less p k q j (x ∷ xs) ys ne (inr h) = inr (IsIn-less p k q j xs ys ne h)

Apart-from : (a p k : ℕ) (l : List (ℕ × ℕ)) → Apart a l → IsIn p k l → a ≤ p
Apart-from a p k [] apart h = absurd h
Apart-from a p k (x ∷ l) apart (inl (e, e')) = omega (arith, apart.0)
Apart-from a p k (x ∷ l) apart (inr h) =
    omega (arith, apart.0, Apart-from (x.0 + x.1) p k l apart.1 h)

-- Two entries, or one and the same.
pub Apart-two :
    (a p k q j : ℕ) (l : List (ℕ × ℕ))
    → Apart a l
    → IsIn p k l
    → IsIn q j l
    → ((p ≡ q) × (k ≡ j)) ⊎ ((p + k ≤ q) ⊎ (q + j ≤ p))
Apart-two a p k q j [] apart h h' = absurd h
Apart-two a p k q j (x ∷ l) apart (inl (e, e')) (inl (d, d')) = inl (omega arith, omega arith)
Apart-two a p k q j (x ∷ l) apart (inl (e, e')) (inr h) =
    inr (inl (omega (arith, Apart-from (x.0 + x.1) q j l apart.1 h)))
Apart-two a p k q j (x ∷ l) apart (inr h) (inl (d, d')) =
    inr (inr (omega (arith, Apart-from (x.0 + x.1) p k l apart.1 h)))
Apart-two a p k q j (x ∷ l) apart (inr h) (inr h') = Apart-two (x.0 + x.1) p k q j l apart.1 h h'

pub used-inside :
    (a p k : ℕ) (bs : List Block)
    → IsIn p k (used a bs)
    → (a + tag_size ≤ p) × (p + k + tag_size ≤ a + span bs)
unfolding used
used-inside a p k [] h = absurd h
used-inside a p k ((true, n) ∷ bs) h =
    let later = used-inside (a + n + tag_size * 2) p k bs h in (omega arith, omega arith)
used-inside a p k ((false, n) ∷ bs) (inl (e, e')) = (omega arith, omega arith)
used-inside a p k ((false, n) ∷ bs) (inr h) =
    let later = used-inside (a + n + tag_size * 2) p k bs h in (omega arith, omega arith)

-- An entry that was put in between others.
pub Apart-new :
    (a p k q j : ℕ) (xs ys : List (ℕ × ℕ))
    → Apart a (xs ++ ((p, k) ∷ ys))
    → IsIn q j (xs ++ ys)
    → (q + j ≤ p) ⊎ (p + k ≤ q)
Apart-new a p k q j [] ys apart h = inr (Apart-from (p + k) q j ys apart.1 h)
Apart-new a p k q j (x ∷ xs) ys apart (inl (e, e')) =
    inl
      (omega (arith, Apart-from (x.0 + x.1) p k (xs ++ ((p, k) ∷ ys)) apart.1 (IsIn-new p k xs ys)))
Apart-new a p k q j (x ∷ xs) ys apart (inr h) = Apart-new (x.0 + x.1) p k q j xs ys apart.1 h
