-- ===== src/Boot/Tests.antt =====
-- A firmware that takes the first key for outdated.
use osvirt_project.Base.{
  ℕ, ◌+◌, ◌*◌, ◌≤◌, ◌<◌, ◌≡◌, refl, Bool, true, false, some, [], ◌∷◌, arith, if◌then◌else◌, ◌==◌,
  ok,
}
use osvirt_project.Boot.{
  MapInfo, says, got_map, exits, frees, exiting, Answer, Firmware, Boot, efi_error, efi_success,
  efi_invalid_parameter, efi_buffer_too_small,
}
use osvirt_project.Boot.Files.{open_kernel, close_kernel, open_volume_files, open_files}
use osvirt_project.Boot.Files.Errors.{Outcome, open_kernel_lem}
use osvirt_project.Boot.Graphics.{set_graphics_mode, use_modes, try_modes}
use osvirt_project.Boot.Loader.{
  BootInfo, Result, enters, efi_main, read_programs, read_program, leave, boot_loop, fetch_map,
  map_again, allocate_pool, check_buffers,
}
use osvirt_project.Boot.Loader.Entry.{IsEntry, efi_main-IsEntry}
use osvirt_project.Boot.Loader.Ends.{IsPatient, efi_main-Returns}

abbrev answer : {A : Type 0} → A → Bool → Answer Bool A
answer v x = record { status = efi_success; value = v; fw = x }

abbrev fails : {A : Type 0} → ℕ → A → Bool → Answer Bool A
fails status v x = record { status = status; value = v; fw = x }

abbrev the_map : MapInfo
the_map = record { map_size = 96; map_key = 7; desc_size = 48 }

-- The state says whether the next key is outdated. The second mode is the one asked for.
abbrev firmware : Firmware Bool
firmware = record {
  handle_protocol = λ h p x. answer 1 x;
  device_of = λ image x. 2;
  open_volume = λ fio x. answer 3 x;
  open_file = λ v f x. answer 4 x;
  close_file = λ h x. x;
  read_file = λ h size buffer x. answer 5000 x;
  allocate_pages = λ count x. answer 0x100000 x;
  allocate_pool = λ size x. answer 0x3000 x;
  free_pool = λ p x. x;
  get_memory_map = λ ptr info x.
      if info.map_size == 0 then fails efi_buffer_too_small the_map x else answer the_map x;
  exit_boot_services = λ key x. if x then fails efi_invalid_parameter tt false else answer tt false;
  locate_graphics = λ x. answer 9 x;
  max_mode = λ g x. some 2;
  query_mode =
      λ g mode x. record { pixel_format = 1; horizontal = 800 + 800 * mode; vertical = 900 };
  set_mode = λ g mode x. x;
  frame_buffer_base = λ g x. 0xc0000000;
}

abbrev start : Boot Bool
start = record { fw = true; log = [] }

open_kernel_lem_example : Outcome firmware 1 [] (open_kernel firmware 1 start)
open_kernel_lem_example = open_kernel_lem firmware 1 start

abbrev refusals : Bool → ℕ
refusals true = 1
refusals false = 0

firmware-IsPatient : IsPatient firmware refusals
firmware-IsPatient = record {
  maps = λ ptr info x. same_map info.map_size x;
  pools = λ size x. at_most x;
  frees_one = λ p x. at_most x;
  exits_one = λ key x e. fewer x e;
}
  where
    at_most : (x : Bool) → refusals x ≤ refusals x
    at_most x = omega arith

    same_map :
        (size : ℕ) (x : Bool)
        → refusals (if size == 0 then fails efi_buffer_too_small the_map x else answer the_map x).fw
          ≤ refusals x
    same_map size x = ground arith

    fewer :
        (x : Bool)
        → (firmware.exit_boot_services 0 x).status ≡ efi_invalid_parameter
        → refusals (firmware.exit_boot_services 0 x).fw < refusals x
    fewer true e = omega arith
    fewer false e = absurd (omega arith)

bounded : (x : Bool) → refusals x ≤ 1
bounded true = omega arith
bounded false = omega arith

efi_main-Returns_example : (x : Result Bool) × (efi_main firmware 2 0 1 start ≡ ok x)
efi_main-Returns_example =
    efi_main-Returns firmware refusals firmware-IsPatient 1 2 0 bounded (omega arith) 1 start

abbrev info : BootInfo
info = record {
  framebuffer = 0xc0000000;
  user_buffer = 0x100000;
  kernel_code_size = 5000;
  user_code_size = 5000;
  tss_buffer = 0x101000;
  memory_map = 0x3000;
  memory_map_size = 96;
  memory_map_desc_size = 48;
}

-- Two rounds: the second starts with the buffer of the first, freed, and no room in it.
abbrev finish : Boot Bool
finish = record {
  fw = false;
  log =
      says exiting
      ∷ got_map 0 the_map efi_buffer_too_small
      ∷ got_map 0x3000 the_map efi_success
      ∷ exits 7 efi_invalid_parameter
      ∷ frees 0x3000
      ∷ got_map 0x3000 the_map efi_buffer_too_small
      ∷ got_map 0x3000 the_map efi_success
      ∷ exits 7 efi_success
      ∷ [];
}

two_rounds : efi_main firmware 2 0 1 start ≡ ok (enters 0x101000 info finish)
unfolding efi_main open_kernel open_volume_files open_files close_kernel check_buffers read_programs
    read_program leave set_graphics_mode use_modes try_modes boot_loop fetch_map map_again
    allocate_pool
two_rounds = refl

efi_main-IsEntry_example :
    IsEntry finish.log info × (efi_error (open_kernel firmware 1 start).status ≡ false)
efi_main-IsEntry_example = efi_main-IsEntry firmware 2 0 1 0x101000 start finish info two_rounds
