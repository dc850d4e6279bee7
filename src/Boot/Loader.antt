-- ===== src/Boot/Loader.antt =====
-- `AllocatePool` and `efi_main` of boot.c.
pub mod Entry
pub mod Ends
use osvirt_project.Base.{
  ℕ, zero, suc, ◌+◌, ◌*◌, ◌%◌, ◌^◌, ◌≡◌, refl, ◌⊎◌, inl, inr, Bool, true, false, ◌&&◌, ◌||◌, List,
  [], ◌∷◌, ◌++◌, if◌then◌else◌, ◌==◌, Run, ok, out_of_fuel, u64_mod, page_size,
}
use osvirt_project.Boot.{
  Event, Message, MapInfo, Answer, Firmware, Boot, note, report, answered, says, stalls, got_map,
  exits, frees, pool_resources, pool_parameter, pool_not_found, pages_resources, pages_parameter,
  pages_not_found, no_buffer, map_again_failed, map_failed, exit_failed, exiting, efi_error,
  efi_success, efi_invalid_parameter, efi_buffer_too_small, efi_out_of_resources, efi_not_found,
}
use osvirt_project.Boot.Files.{open_kernel, close_kernel}
use osvirt_project.Boot.Graphics.{set_graphics_mode}

-- `struct boot_info_t`.
pub record BootInfo : Type 0 where
  pub framebuffer : ℕ
  pub user_buffer : ℕ
  pub kernel_code_size : ℕ
  pub user_code_size : ℕ
  pub tss_buffer : ℕ
  pub memory_map : ℕ
  pub memory_map_size : ℕ
  pub memory_map_desc_size : ℕ

-- The memory map, or the end of `efi_main`.
pub data Got (F : Type 0) : Type 0 where
  got : (ptr : ℕ) → MapInfo → Boot F → Got F
  gives_up : (status : ℕ) → Boot F → Got F

-- `efi_main` returns a status, or calls the kernel at its code with the boot information.
pub data Result (F : Type 0) : Type 0 where
  returns : (status : ℕ) → Boot F → Result F
  enters : (code : ℕ) → BootInfo → Boot F → Result F

module _ {F : Type 0} where
  -- One of three messages, or none.
  unfoldable pub say_status :
      (status : ℕ) (resources parameter not_found : Message) → Boot F → Boot F
  say_status status resources parameter not_found s =
      if status == efi_out_of_resources
      then note (says resources) s
      else if status == efi_invalid_parameter
      then note (says parameter) s
      else if status == efi_not_found
      then note (says not_found) s
      else s

module _ {F : Type 0} (firmware : Firmware F) where
  unfoldable pub allocate_pool : (size : ℕ) → Boot F → ℕ × Boot F
  allocate_pool size s =
      let a = firmware.allocate_pool size s.fw in
      let s1 = answered a s in
      if efi_error a.status
      then (0, note stalls (say_status a.status pool_resources pool_parameter pool_not_found s1))
      else (a.value, s1)

  -- The second call of `GetMemoryMap`, with a buffer.
  unfoldable pub map_again : (ptr : ℕ) → MapInfo → Boot F → Got F
  map_again ptr info s =
      let a = firmware.get_memory_map ptr info s.fw in
      let s1 = note (got_map ptr a.value a.status) (answered a s) in
      if efi_error a.status
      then gives_up a.status (report map_again_failed s1)
      else got ptr a.value s1

  -- The loop up to `ExitBootServices`. An error that is not a small buffer is printed only.
  unfoldable pub fetch_map : (ptr : ℕ) → MapInfo → Boot F → Got F
  fetch_map ptr info s =
      let a = firmware.get_memory_map ptr (record info { map_size = 0 }) s.fw in
      let s1 = note (got_map ptr a.value a.status) (answered a s) in
      if efi_error a.status
      then (if a.status == efi_buffer_too_small
          then (let r = allocate_pool a.value.map_size s1 in map_again r.0 a.value r.1)
          else got ptr a.value (report map_failed s1))
      else got ptr a.value s1

  abbrev pub with_map : (ptr : ℕ) → MapInfo → BootInfo → BootInfo
  with_map ptr info b = record b {
    memory_map = ptr;
    memory_map_size = info.map_size;
    memory_map_desc_size = info.desc_size;
  }

  -- `while (1)`, on fuel.
  unfoldable pub boot_loop :
      (fuel code : ℕ) → BootInfo → (ptr : ℕ) → MapInfo → Boot F → Run (Result F)
  boot_loop zero code b ptr info s = out_of_fuel
  boot_loop (suc k) code b ptr info s = elim (fetch_map ptr info s) [
    | gives_up status s1 ↦ ok (returns status s1)
    | got p i s1 ↦
        let e = firmware.exit_boot_services i.map_key s1.fw in
        let s2 = note (exits i.map_key e.status) (answered e s1) in
        let again =
          boot_loop k code (with_map p i b) p i
            (note (frees p) (record s2 { fw = firmware.free_pool p s2.fw })) in
        if e.status == efi_success
        then ok (enters code (with_map p i b) s2)
        else if e.status == efi_invalid_parameter
        then again
        else ok (returns e.status (report exit_failed s2))
  ]

  -- The `Read` of a program: an error that is not a small buffer is not looked at.
  unfoldable pub read_program :
      (handle buffer : ℕ) → Boot F → (ℕ → Boot F → Run (Result F)) → Run (Result F)
  read_program handle buffer s next =
      let a = firmware.read_file handle (page_size * 256) buffer s.fw in
      let s1 = answered a s in
      if efi_error a.status && (a.status == efi_buffer_too_small)
      then ok (returns a.status (report map_again_failed s1))
      else next a.value s1

  -- From `SetGraphicsMode` on. `descriptor_size` is what the variable holds before it is set.
  unfoldable pub leave :
      (fuel descriptor_size code user tss kernel_size user_size : ℕ) → Boot F → Run (Result F)
  leave fuel desc code user tss kernel_size user_size s =
      let r = set_graphics_mode firmware 1600 900 s in
      boot_loop fuel code
        (record {
          framebuffer = r.0;
          user_buffer = user;
          kernel_code_size = kernel_size;
          user_code_size = user_size;
          tss_buffer = tss;
          memory_map = 0;
          memory_map_size = 0;
          memory_map_desc_size = 0;
        })
        0 (record { map_size = 0; map_key = 0; desc_size = desc }) (note (says exiting) r.1)

  -- A null buffer is printed only.
  unfoldable pub check_buffers : (code user : ℕ) → Boot F → Boot F
  check_buffers code user s = if (code == 0) || (user == 0) then report no_buffer s else s

  unfoldable pub read_programs :
      (fuel descriptor_size volume kernel user : ℕ) (code user_code tss : ℕ)
      → Boot F
      → Run (Result F)
  read_programs fuel desc volume kernel user code user_code tss s =
      read_program kernel code s λ kernel_size s1. read_program user user_code s1 λ user_size s2.
        leave fuel desc code user_code tss kernel_size user_size
          (close_kernel firmware volume kernel user s2)

  -- Of the three allocations only the last status is looked at.
  unfoldable pub efi_main : (fuel descriptor_size image_handle : ℕ) → Boot F → Run (Result F)
  efi_main fuel desc image_handle s =
      let o = open_kernel firmware image_handle s in
      if efi_error o.status
      then ok (returns o.status (note stalls o.boot))
      else (let u = firmware.allocate_pages 257 o.boot.fw in
          let k = firmware.allocate_pages 256 u.fw in
          let t = firmware.allocate_pages 3 k.fw in
          let s1 = answered t o.boot in
          let code = (k.value + page_size) % u64_mod in
          let tss = (t.value + page_size) % u64_mod in
          if efi_error t.status
          then ok (
              returns t.status (
                note stalls
                  (say_status t.status pages_resources pages_parameter pages_not_found s1)))
          else read_programs fuel desc o.volume o.kernel o.user code u.value tss
              (check_buffers code u.value s1))

-- To split on the outcome and keep the equation.
module _ {F : Type 0} where
  pub Got-cases :
      (g : Got F)
      → ((status : ℕ) × (s : Boot F) × (g ≡ gives_up status s))
        ⊎ ((ptr : ℕ) × (info : MapInfo) × (s : Boot F) × (g ≡ got ptr info s))
  Got-cases (got ptr info s) = inr (ptr, info, s, refl)
  Got-cases (gives_up status s) = inl (status, s, refl)
