-- ===== src/Buddy/Size.antt =====
-- Whether the block that `get_block` returns holds what was asked for.
use osvirt_project.Base.{
  ℕ, ◌+◌, ◌^◌, ◌≤◌, ◌<◌, ◌≡◌, ap, ◌∙◌, ◌⊎◌, ◌↔◌, inl, inr, [], arith, Run, ok, halted,
}
use osvirt_project.ListLib.{ListLib}
use osvirt_project.Buddy.{Block, Buddy, get_block}
use osvirt_project.Buddy.Index.{IsIndex}
use osvirt_project.Buddy.Inv.{IsSound, IsHeld}
use osvirt_project.Buddy.Get.{members}
use osvirt_project.Buddy.Give.{Given, get_block_sound}

module _ (lib : ListLib) where
  open lib use {items}

  -- A result that is neither a halt nor `NULL` is the address of a block `b` off the lists of `s'`,
  -- and `b` has the pages asked for exactly if the request is a power of two or the list of the
  -- power below it, `list_index`, was empty.
  abbrev pub Fits : ℕ → Buddy lib → Run (ℕ × Buddy lib) → Type 0
  Fits n s r =
      (r ≡ halted)
      ⊎ (r ≡ ok (0, s))
      ⊎ ((list_index k x : ℕ) × (b : Block) × (s' : Buddy lib) × (r ≡ ok (b.physical_addr, s'))
          × IsHeld s'.pool (members lib s') x k b
          × IsIndex n list_index
          × ((n ≤ b.size) ↔ ((n ≡ 2 ^ list_index) ⊎ (items s.links list_index ≡ []))))

  Fits-of :
      (n li : ℕ) (s : Buddy lib) (r : Run (ℕ × Buddy lib))
      → 1 ≤ n
      → IsIndex n li
      → Given lib li s r
      → Fits n s r
  Fits-of n li s r pos is (inl out) = inl out
  Fits-of n li s r pos is (inr (inl null)) = inr (inl null.1)
  Fits-of n li s r pos is (inr (inr (k, x, b, s', run, sound, held, inl (same, some_left)))) =
      let size : b.size ≡ 2 ^ li = held.block.size ∙ ap (λ j. 2 ^ j) same in
      inr (inr (li, k, x, b, s', run, held, is, small size))
    where
      small : b.size ≡ 2 ^ li → (n ≤ b.size) ↔ ((n ≡ 2 ^ li) ⊎ (items s.links li ≡ []))
      small size = (
        (λ h. inl (omega (arith, is.0, held.block.several))),
        λ h. elim h [ inl exact ↦ omega arith | inr none_left ↦ absurd (some_left none_left) ],
      )
  Fits-of n li s r pos is (inr (inr (k, x, b, s', run, sound, held, inr (above, none_left)))) =
      let size : b.size ≡ 2 ^ (li + 1) = held.block.size ∙ ap (λ j. 2 ^ j) above in
      inr (inr (li, k, x, b, s', run, held, is, (λ h. inr none_left, λ h. omega (arith, is.1))))

  -- `get_block` on sound free lists and a request of at least one page: unless the machine halts or
  -- the result is `NULL`, the block has as many pages as asked for exactly if the request is a power
  -- of two or no block of the power of two below it was free.
  pub get_block-Fits :
      (n : ℕ) (s : Buddy lib)
      → 1 ≤ n
      → n < 2 ^ 63
      → IsSound s.pool (members lib s)
      → Fits n s (get_block lib n s)
  get_block-Fits n s pos small sound =
      let (li, is, given) = get_block_sound lib n s small sound in
      Fits-of n li s (get_block lib n s) pos is given
