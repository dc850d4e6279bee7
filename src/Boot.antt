-- ===== src/Boot.antt =====
-- The boot loader: boot.c. The firmware is a parameter: each of its services takes the firmware's
-- state and answers with a status, outputs and a state. Statuses are 64-bit numbers.
pub mod Files
pub mod Graphics
pub mod Loader
mod Tests
use osvirt_project.Base.{
  ℕ, ◌*◌, ◌+◌, ◌%◌, ◌^◌, Bool, true, false, Option, List, [], ◌∷◌, ◌++◌, if◌then◌else◌, ◌==◌, leb,
  u64_mod,
}

-- The statuses that the code names, with the numbers of the UEFI specification, and `EFI_ERROR`.
abbrev pub efi_success : ℕ
efi_success = 0

abbrev pub efi_invalid_parameter : ℕ
efi_invalid_parameter = 2 ^ 63 + 2

abbrev pub efi_buffer_too_small : ℕ
efi_buffer_too_small = 2 ^ 63 + 5

abbrev pub efi_out_of_resources : ℕ
efi_out_of_resources = 2 ^ 63 + 9

abbrev pub efi_not_found : ℕ
efi_not_found = 2 ^ 63 + 14

abbrev pub efi_error : ℕ → Bool
efi_error status = leb (2 ^ 63) status

-- A service's status, its output and the firmware's state then.
pub record Answer (F A : Type 0) : Type 0 where
  pub status : ℕ
  pub value : A
  pub fw : F

-- What `GetMemoryMap` writes to.
pub record MapInfo : Type 0 where
  pub map_size : ℕ
  pub map_key : ℕ
  pub desc_size : ℕ

-- `EFI_GRAPHICS_OUTPUT_MODE_INFORMATION`, as far as it is read.
pub record ModeInfo : Type 0 where
  pub pixel_format : ℕ
  pub horizontal : ℕ
  pub vertical : ℕ

pub data Protocol : Type 0 where
  loaded_image file_system : Protocol

pub data File : Type 0 where
  kernel_file user_file : File

-- The services of the firmware that boot.c calls. A null `Mode` has no number of modes.
pub record Firmware (F : Type 0) : Type 0 where
  pub handle_protocol : (handle : ℕ) → Protocol → F → Answer F ℕ
  pub device_of : (image : ℕ) → F → ℕ
  pub open_volume : (fio : ℕ) → F → Answer F ℕ
  pub open_file : (volume : ℕ) → File → F → Answer F ℕ
  pub close_file : (handle : ℕ) → F → F
  pub read_file : (handle size buffer : ℕ) → F → Answer F ℕ
  pub allocate_pages : (count : ℕ) → F → Answer F ℕ
  pub allocate_pool : (size : ℕ) → F → Answer F ℕ
  pub free_pool : (ptr : ℕ) → F → F
  pub get_memory_map : (ptr : ℕ) → MapInfo → F → Answer F MapInfo
  pub exit_boot_services : (key : ℕ) → F → Answer F Unit
  pub locate_graphics : F → Answer F ℕ
  pub max_mode : (graphics : ℕ) → F → Option ℕ
  pub query_mode : (graphics mode : ℕ) → F → ModeInfo
  pub set_mode : (graphics mode : ℕ) → F → F
  pub frame_buffer_base : (graphics : ℕ) → F → ℕ

pub data Message : Type 0 where
  no_image no_fio no_volume no_kernel_file no_user_file : Message
  pool_resources pool_parameter pool_not_found : Message
  pages_resources pages_parameter pages_not_found : Message
  no_graphics no_mode_information : Message
  no_buffer map_again_failed map_failed exit_failed exiting : Message

-- What the code prints, `Stall`, and the calls that decide when the kernel may run.
pub data Event : Type 0 where
  says : Message → Event
  stalls : Event
  got_map : (ptr : ℕ) → MapInfo → (status : ℕ) → Event
  exits : (key status : ℕ) → Event
  frees : (ptr : ℕ) → Event

pub record Boot (F : Type 0) : Type 0 where
  pub fw : F
  pub log : List Event

module _ {F : Type 0} where
  abbrev pub note : Event → Boot F → Boot F
  note e s = record s { log = s.log ++ (e ∷ []) }

  -- A message, and time to read it.
  abbrev pub report : Message → Boot F → Boot F
  report m s = note stalls (note (says m) s)

  abbrev pub answered : {A : Type 0} → Answer F A → Boot F → Boot F
  answered a s = record s { fw = a.fw }
