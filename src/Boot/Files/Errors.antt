-- ===== src/Boot/Files/Errors.antt =====
-- What `OpenKernel` returns on each of its errors.
use osvirt_project.Base.{ℕ, ◌≡◌, refl, ◌⊎◌, inl, inr, true, false, List, [], ◌∷◌, ◌++◌, Bool-cases}
use mathlib.Core.List.{append_assoc}
use osvirt_project.Boot.{
  loaded_image, file_system, File, kernel_file, user_file, Message, no_image, no_fio, no_volume,
  no_kernel_file, no_user_file, says, stalls, Event, Firmware, Boot, answered, efi_error,
  efi_success,
}
use osvirt_project.Boot.Files.{Opened, open_files, open_volume_files, open_kernel}

module _ {F : Type 0} (firmware : Firmware F) (image_handle : ℕ) where
  -- The service that a message is about answered with the status.
  pub data Blames (status : ℕ) : Message → Type 0 where
    image :
        (x : F)
        → (firmware.handle_protocol image_handle loaded_image x).status ≡ status
        → Blames status no_image
    fio :
        (device : ℕ) (x : F)
        → (firmware.handle_protocol device file_system x).status ≡ status
        → Blames status no_fio
    volume :
        (on : ℕ) (x : F) → (firmware.open_volume on x).status ≡ status → Blames status no_volume
    kernel :
        (from : ℕ) (x : F)
        → (firmware.open_file from kernel_file x).status ≡ status
        → Blames status no_kernel_file
    user :
        (from : ℕ) (x : F)
        → (firmware.open_file from user_file x).status ≡ status
        → Blames status no_user_file

  -- The handle of a file, from a volume.
  abbrev pub IsOpen : File → (from handle : ℕ) → Type 0
  IsOpen file from handle =
      (x : F) × (efi_error (firmware.open_file from file x).status ≡ false)
      × ((firmware.open_file from file x).value ≡ handle)

  -- The outcome: both files are open and nothing is printed, or there is one message, about the
  -- service whose status is returned.
  abbrev pub Outcome : (log : List Event) → Opened F → Type 0
  Outcome log r =
      ((r.status ≡ efi_success)
        × (r.boot.log ≡ log)
        × IsOpen kernel_file r.volume r.kernel
        × IsOpen user_file r.volume r.user)
      ⊎ ((efi_error r.status ≡ true)
          × ((m : Message) × (r.boot.log ≡ log ++ (says m ∷ stalls ∷ [])) × Blames r.status m))

  -- One message, and a stall.
  one_message :
      (log : List Event) (m : Message)
      → (log ++ (says m ∷ [])) ++ (stalls ∷ []) ≡ log ++ (says m ∷ stalls ∷ [])
  one_message log m = append_assoc log (says m ∷ []) (stalls ∷ [])

  open_files_lem :
      (volume_handle : ℕ) (s : Boot F) → Outcome s.log (open_files firmware volume_handle s)
  unfolding open_files
  open_files_lem v s =
      let a = firmware.open_file v kernel_file s.fw in
      let b = firmware.open_file v user_file a.fw in
      elim (Bool-cases (efi_error a.status)) [
        | inl e ↦
            rw (open_files, e)
              (inr (e, (no_kernel_file, one_message s.log no_kernel_file, kernel v s.fw refl)))
        | inr e ↦ elim (Bool-cases (efi_error b.status)) [
          | inl x ↦
              rw (open_files, e, x)
                (inr (x, (no_user_file, one_message s.log no_user_file, user v a.fw refl)))
          | inr x ↦ rw (open_files, e, x) (inl (refl, refl, (s.fw, e, refl), (a.fw, x, refl)))
        ]
      ]

  open_volume_files_lem : (on : ℕ) (s : Boot F) → Outcome s.log (open_volume_files firmware on s)
  unfolding open_volume_files
  open_volume_files_lem on s =
      let a = firmware.open_volume on s.fw in
      elim (Bool-cases (efi_error a.status)) [
        | inl e ↦
            rw (open_volume_files, e)
              (inr (e, (no_volume, one_message s.log no_volume, volume on s.fw refl)))
        | inr e ↦ rw (open_volume_files, e) (open_files_lem a.value (answered a s))
      ]

  -- `OpenKernel` has two outcomes. Either it returns success, prints nothing, and its handles are
  -- those of the kernel's and the user program's file in the volume that it returns; or it returns
  -- an error, which is the status that one of the five services has answered with, and prints one
  -- message, which is about that service, with time to read it.
  pub open_kernel_lem : (s : Boot F) → Outcome s.log (open_kernel firmware image_handle s)
  unfolding open_kernel
  open_kernel_lem s =
      let a = firmware.handle_protocol image_handle loaded_image s.fw in
      let device = firmware.device_of a.value a.fw in
      let b = firmware.handle_protocol device file_system a.fw in
      elim (Bool-cases (efi_error a.status)) [
        | inl e ↦
            rw (open_kernel, e) (inr (e, (no_image, one_message s.log no_image, image s.fw refl)))
        | inr e ↦ elim (Bool-cases (efi_error b.status)) [
          | inl x ↦
              rw (open_kernel, e, x)
                (inr (x, (no_fio, one_message s.log no_fio, fio device a.fw refl)))
          | inr x ↦
              rw (open_kernel, e, x) (open_volume_files_lem b.value (answered b (answered a s)))
        ]
      ]
