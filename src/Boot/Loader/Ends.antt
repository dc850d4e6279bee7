-- ===== src/Boot/Loader/Ends.antt =====
-- The loop of `efi_main` ends, when the firmware does.
use osvirt_project.Base.{
  ℕ, zero, suc, ◌+◌, ◌*◌, ◌%◌, ◌≤◌, ◌<◌, ◌≡◌, refl, ap, subst, inl, inr, Bool, true, false, ◌&&◌,
  arith, if◌then◌else◌, ◌==◌, Bool-cases, Run, ok, page_size, u64_mod,
}
use osvirt_project.Boot.{
  MapInfo, Firmware, Boot, note, report, answered, says, stalls, got_map, exits, frees,
  map_again_failed, exiting, pages_resources, pages_parameter, pages_not_found, pool_resources,
  pool_parameter, pool_not_found, exit_failed, efi_error, efi_success, efi_invalid_parameter,
  efi_buffer_too_small, efi_out_of_resources, efi_not_found,
}
use osvirt_project.Boot.Files.{open_kernel, close_kernel}
use osvirt_project.Boot.Graphics.{set_graphics_mode}
use osvirt_project.Boot.Loader.{
  BootInfo, Got, got, gives_up, Got-cases, Result, returns, enters, say_status, map_again,
  fetch_map, allocate_pool, with_map, boot_loop, read_program, leave, read_programs, check_buffers,
  efi_main,
}

module _ {F : Type 0} (firmware : Firmware F) where
  -- The firmware takes a key for outdated a number of times only, which the other services that the
  -- loop calls do not raise.
  pub record IsPatient (refusals : F → ℕ) : Type 0 where
    pub maps :
        (ptr : ℕ) (info : MapInfo) (x : F)
        → refusals (firmware.get_memory_map ptr info x).fw ≤ refusals x
    pub pools : (size : ℕ) (x : F) → refusals (firmware.allocate_pool size x).fw ≤ refusals x
    pub frees_one : (p : ℕ) (x : F) → refusals (firmware.free_pool p x) ≤ refusals x
    pub exits_one :
        (key : ℕ) (x : F)
        → (firmware.exit_boot_services key x).status ≡ efi_invalid_parameter
        → refusals (firmware.exit_boot_services key x).fw < refusals x

  -- A run that returns a result.
  abbrev pub Returns : Run (Result F) → Type 0
  Returns r = (x : Result F) × (r ≡ ok x)

  module _ (refusals : F → ℕ) (is : IsPatient refusals) where
    -- The state behind a map has no more refusals.
    abbrev NoMore : ℕ → Got F → Type 0
    NoMore n (got p i s) = refusals s.fw ≤ n
    NoMore n (gives_up status s) = Unit

    map_again-NoMore :
        (n ptr : ℕ) (info : MapInfo) (s : Boot F)
        → refusals s.fw ≤ n
        → NoMore n (map_again firmware ptr info s)
    unfolding map_again
    map_again-NoMore n ptr info s le =
        let a = firmware.get_memory_map ptr info s.fw in
        elim (Bool-cases (efi_error a.status)) [
          | inl e ↦ rw (map_again, e) tt
          | inr e ↦ rw (map_again, e) (let h = is.maps ptr info s.fw in omega arith)
        ]

    said-fw :
        (status : ℕ) (s : Boot F)
        → (say_status status pool_resources pool_parameter pool_not_found s).fw ≡ s.fw
    unfolding say_status
    said-fw status s = elim (Bool-cases (status == efi_out_of_resources)) [
      | inl a ↦ rw (say_status, a) refl
      | inr a ↦ elim (Bool-cases (status == efi_invalid_parameter)) [
        | inl b ↦ rw (say_status, a, b) refl
        | inr b ↦ elim (Bool-cases (status == efi_not_found)) [
          | inl c ↦ rw (say_status, a, b, c) refl
          | inr c ↦ rw (say_status, a, b, c) refl
        ]
      ]
    ]

    allocate_pool-fw :
        (size : ℕ) (s : Boot F)
        → (allocate_pool firmware size s).1.fw ≡ (firmware.allocate_pool size s.fw).fw
    unfolding allocate_pool
    allocate_pool-fw size s =
        let a = firmware.allocate_pool size s.fw in
        elim (Bool-cases (efi_error a.status)) [
          | inl e ↦ rw (allocate_pool, e) (said-fw a.status (answered a s))
          | inr e ↦ rw (allocate_pool, e) refl
        ]

    fetch_map-NoMore :
        (ptr : ℕ) (info : MapInfo) (s : Boot F)
        → NoMore (refusals s.fw) (fetch_map firmware ptr info s)
    unfolding fetch_map
    fetch_map-NoMore ptr info s =
        let a = firmware.get_memory_map ptr (record info { map_size = 0 }) s.fw in
        let s1 = note (got_map ptr a.value a.status) (answered a s) in
        let r = allocate_pool firmware a.value.map_size s1 in
        let one = is.maps ptr (record info { map_size = 0 }) s.fw in
        elim (Bool-cases (efi_error a.status)) [
          | inl e ↦ elim (Bool-cases (a.status == efi_buffer_too_small)) [
            | inl small ↦
                let two = is.pools a.value.map_size a.fw in
                let same = ap refusals (allocate_pool-fw a.value.map_size s1) in
                rw (fetch_map, e, small)
                  (map_again-NoMore (refusals s.fw) r.0 a.value r.1 (omega arith))
            | inr other ↦ rw (fetch_map, e, other) one
          ]
          | inr e ↦ rw (fetch_map, e) one
        ]

    boot_loop-Returns :
        (fuel code : ℕ) (b : BootInfo) (ptr : ℕ) (info : MapInfo) (s : Boot F)
        → refusals s.fw < fuel
        → Returns (boot_loop firmware fuel code b ptr info s)
    unfolding boot_loop
    boot_loop-Returns zero code b ptr info s enough = absurd (omega arith)
    boot_loop-Returns (suc k) code b ptr info s enough =
        elim (Got-cases (fetch_map firmware ptr info s)) [
          | inl (status, s1, e) ↦ rw (boot_loop, e) (returns status s1, refl)
          | inr (p, i, s1, e) ↦
              let no_more : refusals s1.fw ≤ refusals s.fw =
                subst (NoMore (refusals s.fw)) e (fetch_map-NoMore ptr info s) in
              let x = firmware.exit_boot_services i.map_key s1.fw in
              let s2 = note (exits i.map_key x.status) (answered x s1) in
              elim (Bool-cases (x.status == efi_success)) [
                | inl done ↦
                    rw (boot_loop, e, done) (enters code (with_map firmware p i b) s2, refl)
                | inr refused ↦ elim (Bool-cases (x.status == efi_invalid_parameter)) [
                  | inl stale ↦
                      let less = is.exits_one i.map_key s1.fw (ground arith) in
                      let freed = is.frees_one p x.fw in
                      rw (boot_loop, e, refused, stale)
                        (boot_loop-Returns k code (with_map firmware p i b) p i
                          (note (frees p) (record s2 { fw = firmware.free_pool p s2.fw }))
                          (omega arith))
                  | inr other ↦
                      rw (boot_loop, e, refused, other)
                        (returns x.status (report exit_failed s2), refl)
                ]
              ]
        ]

    if-Returns :
        (t : Bool) (x y : Run (Result F)) → Returns x → Returns y → Returns (if t then x else y)
    if-Returns true x y hx hy = hx
    if-Returns false x y hx hy = hy

    read_program-Returns :
        (handle buffer : ℕ) (s : Boot F) (next : ℕ → Boot F → Run (Result F))
        → ((size : ℕ) (s1 : Boot F) → Returns (next size s1))
        → Returns (read_program firmware handle buffer s next)
    unfolding read_program
    read_program-Returns handle buffer s next h =
        let a = firmware.read_file handle (page_size * 256) buffer s.fw in
        let s1 = answered a s in
        if-Returns (efi_error a.status && (a.status == efi_buffer_too_small))
          (ok (returns a.status (report map_again_failed s1))) (next a.value s1)
          (returns a.status (report map_again_failed s1), refl) (h a.value s1)

    module _ (n fuel desc : ℕ) (bounded : (x : F) → refusals x ≤ n) (enough : n < fuel) where
      leave-Returns :
          (code user tss kernel_size user_size : ℕ) (s : Boot F)
          → Returns (leave firmware fuel desc code user tss kernel_size user_size s)
      unfolding leave
      leave-Returns code user tss kernel_size user_size s =
          let r = set_graphics_mode firmware 1600 900 s in
          let few = bounded r.1.fw in
          boot_loop-Returns fuel code _ 0 _ (note (says exiting) r.1) (omega arith)

      read_programs-Returns :
          (vol kernel user code user_code tss : ℕ) (s : Boot F)
          → Returns (read_programs firmware fuel desc vol kernel user code user_code tss s)
      unfolding read_programs
      read_programs-Returns vol kernel user code user_code tss s =
          read_program-Returns kernel code s _ λ kernel_size s1.
            read_program-Returns user user_code s1 _ λ user_size s2.
              leave-Returns code user_code tss kernel_size user_size
                (close_kernel firmware vol kernel user s2)

      -- On a firmware that takes a key for outdated at most `n` times, and with fuel for one round
      -- more, `efi_main` ends: it returns a status or calls the kernel.
      pub efi_main-Returns :
          (image_handle : ℕ) (s : Boot F) → Returns (efi_main firmware fuel desc image_handle s)
      unfolding efi_main
      efi_main-Returns image_handle s =
          let o = open_kernel firmware image_handle s in
          let u = firmware.allocate_pages 257 o.boot.fw in
          let k = firmware.allocate_pages 256 u.fw in
          let t = firmware.allocate_pages 3 k.fw in
          let s1 = answered t o.boot in
          let code = (k.value + page_size) % u64_mod in
          let tss = (t.value + page_size) % u64_mod in
          let failed = returns t.status (
            note stalls (say_status t.status pages_resources pages_parameter pages_not_found s1)) in
          elim (Bool-cases (efi_error o.status)) [
            | inl e ↦ rw (efi_main, e) (returns o.status (note stalls o.boot), refl)
            | inr e ↦
                rw (efi_main, e)
                  (if-Returns (efi_error t.status) (ok failed)
                    (read_programs firmware fuel desc o.volume o.kernel o.user code u.value tss
                      (check_buffers firmware code u.value s1))
                    (failed, refl)
                    (read_programs-Returns o.volume o.kernel o.user code u.value tss
                      (check_buffers firmware code u.value s1)))
          ]
