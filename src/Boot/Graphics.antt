-- ===== src/Boot/Graphics.antt =====
-- `SetGraphicsMode` of boot.c.
use osvirt_project.Base.{
  ℕ, zero, suc, ◌+◌, ◌≤◌, ◌<◌, ◌≡◌, Bool, true, false, ◌&&◌, Option, none, some, if◌then◌else◌,
  ◌==◌,
}
use osvirt_project.Boot.{
  ModeInfo, Firmware, Boot, no_graphics, no_mode_information, report, answered, efi_error,
}

-- BGRA and the resolution asked for.
abbrev pub wanted : (width height : ℕ) → ModeInfo → Bool
wanted width height info =
    (info.pixel_format == 1) && ((info.horizontal == width) && (info.vertical == height))

module _ {F : Type 0} (firmware : Firmware F) (width height : ℕ) where
  -- The loop, with the modes left.
  unfoldable pub try_modes : (rounds mode graphics : ℕ) → Boot F → ℕ × Boot F
  try_modes zero mode graphics s = (0, s)
  try_modes (suc k) mode graphics s =
      let rest = try_modes k (mode + 1) graphics s in
      if wanted width height (firmware.query_mode graphics mode s.fw)
      then (let fw = firmware.set_mode graphics mode s.fw in
          (firmware.frame_buffer_base graphics fw, record s { fw = fw }))
      else rest

  unfoldable pub use_modes : (graphics : ℕ) → Option ℕ → Boot F → ℕ × Boot F
  use_modes graphics none s = (0, report no_mode_information s)
  use_modes graphics (some max) s =
      if max == 0 then (0, report no_mode_information s) else try_modes max 0 graphics s

  unfoldable pub set_graphics_mode : Boot F → ℕ × Boot F
  set_graphics_mode s =
      let a = firmware.locate_graphics s.fw in
      let s1 = answered a s in
      if efi_error a.status
      then (0, report no_graphics s1)
      else use_modes a.value (firmware.max_mode a.value s1.fw) s1

  -- Whether a mode is the first that is wanted, among those from another on.
  abbrev pub IsFirst : (from mode graphics : ℕ) → F → Type 0
  IsFirst from mode graphics fw =
      (from ≤ mode)
      × (wanted width height (firmware.query_mode graphics mode fw) ≡ true)
      × ((i : ℕ)
          → from ≤ i
          → i < mode
          → wanted width height (firmware.query_mode graphics i fw) ≡ false)
