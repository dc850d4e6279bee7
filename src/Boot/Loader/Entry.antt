-- ===== src/Boot/Loader/Entry.antt =====
-- When `efi_main` calls the kernel.
use osvirt_project.Base.{
  ℕ, zero, suc, ◌+◌, ◌%◌, ◌≡◌, refl, subst, ◌∙◌, ◌⊎◌, inl, inr, Bool, true, false, List, [], ◌∷◌,
  ◌++◌, arith, if◌then◌else◌, ◌==◌, ◌&&◌, Bool-cases, Run, ok, fault, halted, out_of_fuel,
  page_size, ◌*◌, u64_mod,
}
use mathlib.Core.List.{append_assoc}
use osvirt_project.Boot.{
  Event, MapInfo, Firmware, Boot, note, report, answered, says, stalls, got_map, exits, frees,
  map_failed, map_again_failed, pages_resources, pages_parameter, pages_not_found, efi_error,
  efi_success, efi_invalid_parameter, efi_buffer_too_small,
}
use osvirt_project.Boot.Files.{open_kernel}
use osvirt_project.Boot.Loader.{
  BootInfo, Got, Got-cases, got, gives_up, Result, returns, enters, map_again, fetch_map,
  allocate_pool, with_map, boot_loop, read_program, leave, read_programs, say_status, check_buffers,
  efi_main,
}

-- The end of the log when the kernel is called: the map that the kernel is told about, a message if
-- that was an error, and `ExitBootServices` with the key of that map, which succeeded.
pub record IsEntry (log : List Event) (b : BootInfo) : Type 0 where
  pub before : List Event
  pub ptr : ℕ
  pub info : MapInfo
  pub status : ℕ
  pub messages : List Event
  pub trace :
      log
      ≡ before ++ (got_map ptr info status ∷ (messages ++ (exits info.map_key efi_success ∷ [])))
  pub quiet :
      (messages ≡ []) ⊎ ((messages ≡ says map_failed ∷ stalls ∷ []) × (efi_error status ≡ true))
  pub map : b.memory_map ≡ ptr
  pub size : b.memory_map_size ≡ info.map_size
  pub desc : b.memory_map_desc_size ≡ info.desc_size

-- The end of the log when the loop has a map.
record IsMapped (ptr : ℕ) (info : MapInfo) (log : List Event) : Type 0 where
  before : List Event
  status : ℕ
  messages : List Event
  trace : log ≡ before ++ (got_map ptr info status ∷ messages)
  quiet : (messages ≡ []) ⊎ ((messages ≡ says map_failed ∷ stalls ∷ []) × (efi_error status ≡ true))

-- What holds of a map, and of a result.
abbrev MapOk : {F : Type 0} → Got F → Type 0
MapOk (got ptr info s) = IsMapped ptr info s.log
MapOk (gives_up status s) = Unit

abbrev ResultOk : {F : Type 0} → Run (Result F) → Type 0
ResultOk (ok (enters code b s)) = IsEntry s.log b
ResultOk (ok (returns status s)) = Unit
ResultOk _ = Unit

module _ {F : Type 0} (firmware : Firmware F) where
  map_again-Ok : (ptr : ℕ) (info : MapInfo) (s : Boot F) → MapOk (map_again firmware ptr info s)
  unfolding map_again
  map_again-Ok ptr info s =
      let a = firmware.get_memory_map ptr info s.fw in
      elim (Bool-cases (efi_error a.status)) [
        | inl e ↦ rw (map_again, e) tt
        | inr e ↦
            rw (map_again, e)
              (record {
                before = s.log;
                status = a.status;
                messages = [];
                trace = refl;
                quiet = inl refl;
              })
      ]

  fetch_map-Ok : (ptr : ℕ) (info : MapInfo) (s : Boot F) → MapOk (fetch_map firmware ptr info s)
  unfolding fetch_map
  fetch_map-Ok ptr info s =
      let a = firmware.get_memory_map ptr (record info { map_size = 0 }) s.fw in
      let s1 = note (got_map ptr a.value a.status) (answered a s) in
      let r = allocate_pool firmware a.value.map_size s1 in
      elim (Bool-cases (efi_error a.status)) [
        | inl e ↦ elim (Bool-cases (a.status == efi_buffer_too_small)) [
          | inl small ↦ rw (fetch_map, e, small) (map_again-Ok r.0 a.value r.1)
          | inr other ↦
              rw (fetch_map, e, other)
                (record {
                  before = s.log;
                  status = a.status;
                  messages = says map_failed ∷ stalls ∷ [];
                  trace =
                      append_assoc (s.log ++ (got_map ptr a.value a.status ∷ []))
                        (says map_failed ∷ []) (stalls ∷ [])
                      ∙ append_assoc s.log (got_map ptr a.value a.status ∷ [])
                          (says map_failed ∷ stalls ∷ []);
                  quiet = inr (refl, e);
                })
        ]
        | inr e ↦
            rw (fetch_map, e)
              (record {
                before = s.log;
                status = a.status;
                messages = [];
                trace = refl;
                quiet = inl refl;
              })
      ]

  if-Ok :
      (t : Bool) (x y : Run (Result F)) → ResultOk x → ResultOk y → ResultOk (if t then x else y)
  if-Ok true x y hx hy = hx
  if-Ok false x y hx hy = hy

  entered :
      (b : BootInfo) (ptr status : ℕ) (info : MapInfo) (log : List Event)
      → IsMapped ptr info log
      → status ≡ efi_success
      → IsEntry (log ++ (exits info.map_key status ∷ [])) (with_map firmware ptr info b)
  entered b ptr status info log m e = record {
    before = m.before;
    ptr = ptr;
    info = info;
    status = m.status;
    messages = m.messages;
    trace =
        rw (e, m.trace)
          (append_assoc m.before (got_map ptr info m.status ∷ m.messages)
            (exits info.map_key efi_success ∷ []));
    quiet = m.quiet;
    map = refl;
    size = refl;
    desc = refl;
  }

  boot_loop-Ok :
      (fuel code : ℕ) (b : BootInfo) (ptr : ℕ) (info : MapInfo) (s : Boot F)
      → ResultOk (boot_loop firmware fuel code b ptr info s)
  unfolding boot_loop
  boot_loop-Ok zero code b ptr info s = tt
  boot_loop-Ok (suc k) code b ptr info s = elim (Got-cases (fetch_map firmware ptr info s)) [
    | inl (status, s1, e) ↦ rw (boot_loop, e) tt
    | inr (p, i, s1, e) ↦
        let mapped : IsMapped p i s1.log = subst MapOk e (fetch_map-Ok ptr info s) in
        let x = firmware.exit_boot_services i.map_key s1.fw in
        let s2 = note (exits i.map_key x.status) (answered x s1) in
        elim (Bool-cases (x.status == efi_success)) [
          | inl done ↦ rw (boot_loop, e, done) (entered b p x.status i s1.log mapped (ground arith))
          | inr refused ↦
              rw (boot_loop, e, refused)
                (if-Ok (x.status == efi_invalid_parameter) _ _
                  (boot_loop-Ok k code (with_map firmware p i b) p i
                    (note (frees p) (record s2 { fw = firmware.free_pool p s2.fw })))
                  tt)
        ]
  ]

  read_program-Ok :
      (handle buffer : ℕ) (s : Boot F) (next : ℕ → Boot F → Run (Result F))
      → ((size : ℕ) (s1 : Boot F) → ResultOk (next size s1))
      → ResultOk (read_program firmware handle buffer s next)
  unfolding read_program
  read_program-Ok handle buffer s next h =
      let a = firmware.read_file handle (page_size * 256) buffer s.fw in
      let s1 = answered a s in
      if-Ok (efi_error a.status && (a.status == efi_buffer_too_small))
        (ok (returns a.status (report map_again_failed s1))) (next a.value s1) tt (h a.value s1)

  leave-Ok :
      (fuel desc code user tss kernel_size user_size : ℕ) (s : Boot F)
      → ResultOk (leave firmware fuel desc code user tss kernel_size user_size s)
  unfolding leave
  leave-Ok fuel desc code user tss kernel_size user_size s = boot_loop-Ok fuel code _ 0 _ _

  read_programs-Ok :
      (fuel desc vol kernel user code user_code tss : ℕ) (s : Boot F)
      → ResultOk (read_programs firmware fuel desc vol kernel user code user_code tss s)
  unfolding read_programs
  read_programs-Ok fuel desc vol kernel user code user_code tss s =
      read_program-Ok kernel code s _ λ kernel_size s1.
        read_program-Ok user user_code s1 _
          λ user_size s2. leave-Ok fuel desc code user_code tss kernel_size user_size _

  -- With another fact about the entry.
  abbrev Both : Type 0 → Run (Result F) → Type 0
  Both X (ok (enters code b s)) = IsEntry s.log b × X
  Both X (ok (returns status s)) = Unit
  Both X _ = Unit

  both : {X : Type 0} (r : Run (Result F)) → ResultOk r → X → Both X r
  both (ok (enters code b s)) h x = (h, x)
  both (ok (returns status s)) h x = tt
  both halted h x = tt
  both fault h x = tt
  both out_of_fuel h x = tt

  if-Both :
      (X : Type 0) (t : Bool) (x y : Run (Result F))
      → Both X x
      → ResultOk y
      → X
      → Both X (if t then x else y)
  if-Both X true x y hx hy h = hx
  if-Both X false x y hx hy h = both y hy h

  opened-Both :
      (X : Type 0) (fuel desc image_handle : ℕ) (s : Boot F)
      → efi_error (open_kernel firmware image_handle s).status ≡ false
      → X
      → Both X (efi_main firmware fuel desc image_handle s)
  unfolding efi_main
  opened-Both X fuel desc image_handle s e h =
      let o = open_kernel firmware image_handle s in
      let u = firmware.allocate_pages 257 o.boot.fw in
      let k = firmware.allocate_pages 256 u.fw in
      let t = firmware.allocate_pages 3 k.fw in
      let s1 = answered t o.boot in
      let code = (k.value + page_size) % u64_mod in
      let tss = (t.value + page_size) % u64_mod in
      rw (efi_main, e)
        (if-Both X (efi_error t.status)
          (ok (
            returns t.status (
              note stalls
                (say_status t.status pages_resources pages_parameter pages_not_found s1))))
          (read_programs firmware fuel desc o.volume o.kernel o.user code u.value tss
            (check_buffers firmware code u.value s1))
          tt
          (read_programs-Ok fuel desc o.volume o.kernel o.user code u.value tss
            (check_buffers firmware code u.value s1))
          h)

  efi_main-Both :
      (fuel desc image_handle : ℕ) (s : Boot F)
      → Both
          (efi_error (open_kernel firmware image_handle s).status ≡ false)
          (efi_main firmware fuel desc image_handle s)
  unfolding efi_main
  efi_main-Both fuel desc image_handle s =
      let o = open_kernel firmware image_handle s in
      elim (Bool-cases (efi_error o.status)) [
        | inl e ↦ rw (efi_main, e) tt
        | inr e ↦ opened-Both (efi_error o.status ≡ false) fuel desc image_handle s e e
      ]

  -- Whatever the firmware answers, `efi_main` calls the kernel only when `OpenKernel` has not failed,
  -- and right after a successful `ExitBootServices` with the key of the last memory map that
  -- `GetMemoryMap` has returned, and the boot information holds that map, its size and the size of
  -- its descriptors. Between the two there is at most the message that the map is an error.
  pub efi_main-IsEntry :
      (fuel desc image_handle code : ℕ) (s s' : Boot F) (b : BootInfo)
      → efi_main firmware fuel desc image_handle s ≡ ok (enters code b s')
      → IsEntry s'.log b × (efi_error (open_kernel firmware image_handle s).status ≡ false)
  efi_main-IsEntry fuel desc image_handle code s s' b run =
      subst (Both (efi_error (open_kernel firmware image_handle s).status ≡ false)) run
        (efi_main-Both fuel desc image_handle s)
