-- ===== src/Buddy/Tests.antt =====
-- The buddy system over lists of numbers: one free block of 8 pages, eight descriptors.
use osvirt_project.Base.{
  ℕ, zero, suc, ◌+◌, ◌^◌, ◌≤◌, ◌<◌, ◌⊎◌, replicate, some, get_elem?, set, ◌≡◌, ◌≢◌, refl, sym, ◌∙◌,
  inl, inr, Bool-cases, true, List, [], ◌∷◌, Run, ok, out_of_fuel, ◌>>=◌, arith, if◌then◌else◌,
  ◌==◌,
}
use osvirt_project.ListLib.{has, without}
use osvirt_project.ListLib.Sequences.{sequences}
use osvirt_project.Buddy.{Block, request_buddy, Buddy, pages_to_buddy_index, get_block, free_block}
use osvirt_project.Buddy.Inv.{IsSound, IsHeld}
use osvirt_project.Buddy.Get.{members}
use osvirt_project.Buddy.Budget.{weight, IsEnough}
use osvirt_project.Buddy.Supply.Gives.{Supplied, get_block-Supplied}
use osvirt_project.Buddy.Size.{Fits, get_block-Fits}
use osvirt_project.Buddy.Release.{IsRegular, Freed}
use osvirt_project.Buddy.Rejoin.{free_block-Freed}
use osvirt_project.Buddy.Free.{free_block-ends}
use osvirt_project.Buddy.Setup.{init_buddy, init_buddy-IsSound}

abbrev block : ℕ → ℕ → Block
block a n = record { physical_addr = a; size = n }

abbrev start : Buddy sequences
start = record {
  pool = block 0x10000 8 ∷ replicate 7 (block 0 0);
  links = λ k. if k == 3 then 0 ∷ [] else [];
  offset = 0x10000;
}

only_block : (k e : ℕ) → members sequences start k e ≡ true → (k ≡ 3) × (e ≡ 0)
unfolding has
only_block k e h = ground arith

start-IsSound : IsSound start.pool (members sequences start)
start-IsSound = record {
  entry = λ k e h.
      let at = only_block k e h in
      rw (at.0, at.1)
        (
          block 0x10000 8,
          record {
            held = refl;
            size = refl;
            used = λ e. omega arith;
            below = omega arith;
            several = omega arith;
            index = omega arith;
          },
        );
  apart = λ k e k' e' b b' h h' ne g g'.
      absurd (ne ((only_block k e h).1 ∙ sym (only_block k' e' h').1));
}

unused_entry :
    (k e : ℕ) (b : Block) → get_elem? (replicate k (block 0 0)) e ≡ some b → b.physical_addr ≡ 0
unused_entry zero e b held = absurd cc
unused_entry (suc k) zero b held = ground arith
unused_entry (suc k) (suc e) b held = unused_entry k e b held

start-IsEnough : IsEnough start.pool
unfolding weight
start-IsEnough = record { sized = sized_entry; budget = omega arith }
  where
    sized_entry :
        (e : ℕ) (b : Block) → get_elem? start.pool e ≡ some b → b.physical_addr ≢ 0 → 1 ≤ b.size
    sized_entry zero b held used = ground arith
    sized_entry (suc e) b held used = absurd (used (unused_entry 7 e b held))

get_block-Supplied_example :
    (get_block sequences 2 start ≡ ok (0, start))
    ⊎ Supplied sequences start (get_block sequences 2 start)
get_block-Supplied_example =
    get_block-Supplied sequences 2 start (omega arith) start-IsSound start-IsEnough

get_block-Fits_example : Fits sequences 3 start (get_block sequences 3 start)
get_block-Fits_example = get_block-Fits sequences 3 start (omega arith) (omega arith) start-IsSound

free_block-ends_example : free_block sequences 0x10000 start ≢ out_of_fuel
free_block-ends_example = free_block-ends sequences 0x10000 start

-- Three pages are taken as a block of four from that of eight. The upper half of the eight stays
-- free, in the list 2, and is what a second request for 5 pages gets: one page too few.
run : Run (ℕ × ℕ × List ℕ)
unfolding get_block
run = get_block sequences 3 start >>= λ r.
    get_block sequences 5 r.1 >>= λ q. ok (r.0, q.0, q.1.links 2)

run_sizes : run ≡ ok (0x10000, 0x14000, [])
unfolding run pages_to_buddy_index osvirt_project.Buddy.index_from osvirt_project.Buddy.scan_lists
    osvirt_project.Buddy.take_front osvirt_project.Buddy.split_from osvirt_project.Buddy.split_once
    osvirt_project.Buddy.remove_block osvirt_project.Buddy.add_block
    osvirt_project.Buddy.request_buddy osvirt_project.Buddy.find_from without
run_sizes = refl

-- Before the setup: no block, and links that hold nothing.
abbrev blank : Buddy sequences
blank = record { pool = block 0 0 ∷ block 0 0 ∷ []; links = λ k. []; offset = 0 }

blank-free : request_buddy blank.pool ≡ some 0
unfolding request_buddy osvirt_project.Buddy.find_from
blank-free = refl

init_buddy-IsSound_example :
    (s' : Buddy sequences) × (k : ℕ) × (init_buddy sequences 0x10000 1000 blank ≡ ok s')
    × IsSound s'.pool (members sequences s')
    × (2 ^ k ≤ 1000)
    × (1000 < 2 ^ (k + 1))
    × (s'.links k ≡ 0 ∷ [])
    × (get_elem? s'.pool 0 ≡ some (block 0x10000 (2 ^ k)))
    × (s'.pool ≡ set blank.pool 0 (block 0x10000 (2 ^ k)))
init_buddy-IsSound_example =
    init_buddy-IsSound sequences 0x10000 1000 0 blank blank-free (λ k h. refl) (omega arith)
      (omega arith) (λ e. omega arith) (omega arith)

-- Two buddies of four pages, the upper of them free.
abbrev buddies : Buddy sequences
buddies = record {
  pool = block 0x10000 4 ∷ block 0x14000 4 ∷ block 0 0 ∷ [];
  links = λ k. if k == 2 then 1 ∷ [] else [];
  offset = 0x10000;
}

only_upper : (k e : ℕ) → members sequences buddies k e ≡ true → (k ≡ 2) × (e ≡ 1)
unfolding has
only_upper k e h = ground arith

in_use :
    (e : ℕ) (b : Block)
    → get_elem? buddies.pool e ≡ some b
    → b.physical_addr ≢ 0
    → ((e ≡ 0) × (b ≡ block 0x10000 4)) ⊎ ((e ≡ 1) × (b ≡ block 0x14000 4))
in_use zero b h used = inl (refl, cc)
in_use (suc zero) b h used = inr (refl, cc)
in_use (suc (suc zero)) b h used = absurd (used (ground arith))
in_use (suc (suc (suc e))) b h used = absurd cc

upper_block :
    (k e : ℕ) (b : Block)
    → members sequences buddies k e ≡ true
    → get_elem? buddies.pool e ≡ some b
    → (k ≡ 2) × (b ≡ block 0x14000 4)
upper_block k e b on h =
    let (at, is) = only_upper k e on in
    let here : some (block 0x14000 4) ≡ some b = rw is at h in (at, cc)

buddies-IsRegular : IsRegular sequences buddies
buddies-IsRegular = record {
  sound = record {
    entry = λ k e h.
        let at = only_upper k e h in
        rw (at.0, at.1)
          (
            block 0x14000 4,
            record {
              held = refl;
              size = refl;
              used = λ e. omega arith;
              below = omega arith;
              several = omega arith;
              index = omega arith;
            },
          );
    apart = λ k e k' e' b b' h h' ne g g'.
        absurd (ne ((only_upper k e h).1 ∙ sym (only_upper k' e' h').1));
  };
  aligned = λ k e b on h. let (at, is) = upper_block k e b on h in rw (at, is) (1, refl);
  inside = λ k e b on h. let (at, is) = upper_block k e b on h in rw is (omega arith);
  room = omega arith;
  unique = λ e e' b b' h h' used same.
      let used' : b'.physical_addr ≢ 0 = λ z. used (omega arith) in
      elim (in_use e b h used) [
        | inl (at, is) ↦ elim (in_use e' b' h' used') [
          | inl (at', is') ↦ at ∙ sym at'
          | inr (at', is') ↦ absurd (ground arith)
        ]
        | inr (at, is) ↦ elim (in_use e' b' h' used') [
          | inl (at', is') ↦ absurd (ground arith)
          | inr (at', is') ↦ at ∙ sym at'
        ]
      ];
}

lower-IsHeld : IsHeld buddies.pool (members sequences buddies) 0 2 (block 0x10000 4)
lower-IsHeld = record {
  block = record {
    held = refl;
    size = refl;
    used = λ e. omega arith;
    below = omega arith;
    several = omega arith;
    index = omega arith;
  };
  absent = λ k. elim (Bool-cases (members sequences buddies k 0)) [
    | inl on ↦ let at = (only_upper k 0 on).1 in absurd (omega arith)
    | inr off ↦ off
  ];
  alone = λ k e b on h. let (at, is) = upper_block k e b on h in rw is (inl (omega arith));
}

free_block-Freed_example :
    Freed sequences buddies (block 0x10000 4) (free_block sequences 0x10000 buddies)
free_block-Freed_example =
    free_block-Freed sequences buddies 0 2 (block 0x10000 4) buddies-IsRegular lower-IsHeld
      (0, refl) (omega arith)
