-- ===== src/Boot/Files.antt =====
-- The files of the kernel and the user program: `OpenKernel` and `CloseKernel` of boot.c.
pub mod Errors
use osvirt_project.Base.{ℕ, Bool, List, [], ◌∷◌, ◌++◌, if◌then◌else◌}
use osvirt_project.Boot.{
  Protocol, loaded_image, file_system, File, kernel_file, user_file, Message, no_image, no_fio,
  no_volume, no_kernel_file, no_user_file, Answer, Firmware, Boot, report, answered, efi_error,
  efi_success,
}

-- `*pvh`, `*pfh` and `*puh`, with the status.
pub record Opened (F : Type 0) : Type 0 where
  pub status : ℕ
  pub volume : ℕ
  pub kernel : ℕ
  pub user : ℕ
  pub boot : Boot F

module _ {F : Type 0} (firmware : Firmware F) where
  -- `vh->Open` of one file, and what comes behind it.
  abbrev open_one :
      File → Message → (volume kernel : ℕ) → Boot F → (ℕ → Boot F → Opened F) → Opened F
  open_one file message volume kernel s next =
      let a = firmware.open_file volume file s.fw in
      let s1 = answered a s in
      if efi_error a.status
      then record {
        status = a.status;
        volume = volume;
        kernel = kernel;
        user = 0;
        boot = report message s1;
      }
      else next a.value s1

  unfoldable pub open_files : (volume : ℕ) → Boot F → Opened F
  open_files volume s = open_one kernel_file no_kernel_file volume 0 s λ kernel s1.
      open_one user_file no_user_file volume kernel s1 λ user s2. record {
        status = efi_success;
        volume = volume;
        kernel = kernel;
        user = user;
        boot = s2;
      }

  -- Before a file is open all three handles are null.
  abbrev failed : ℕ → Message → Boot F → Opened F
  failed status message s = record {
    status = status;
    volume = 0;
    kernel = 0;
    user = 0;
    boot = report message s;
  }

  unfoldable pub open_volume_files : (fio : ℕ) → Boot F → Opened F
  open_volume_files fio s =
      let a = firmware.open_volume fio s.fw in
      let s1 = answered a s in
      if efi_error a.status then failed a.status no_volume s1 else open_files a.value s1

  unfoldable pub open_kernel : (image_handle : ℕ) → Boot F → Opened F
  open_kernel image_handle s =
      let a = firmware.handle_protocol image_handle loaded_image s.fw in
      let s1 = answered a s in
      if efi_error a.status
      then failed a.status no_image s1
      else (let b = firmware.handle_protocol (firmware.device_of a.value s1.fw) file_system s1.fw in
          let s2 = answered b s1 in
          if efi_error b.status then failed b.status no_fio s2 else open_volume_files b.value s2)

  unfoldable pub close_kernel : (volume kernel user : ℕ) → Boot F → Boot F
  close_kernel volume kernel user s = record s {
    fw = firmware.close_file user (firmware.close_file kernel (firmware.close_file volume s.fw));
  }
