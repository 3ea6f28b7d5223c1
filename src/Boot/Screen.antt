-- ===== src/Boot/Screen.antt =====
-- InitializeGop of src/bootloader.c.
use si_stultum.Base.{
  Bool, true, false, not, ◌&&◌, Option, none, some, ◌≡◌, refl, Bool-cases, inl, inr,
}
use si_stultum.Boot.{
  Status, is_error, FrameBuffer, Firmware, get_gop, query, start_mode, initialize_gop,
}

abbrev pub is_some : Option FrameBuffer → Bool
is_some none = false
is_some (some screen) = true

module _ {ℓ} {World : Type ℓ} (fw : Firmware World) (w : World) where
  -- The status of the mode, after a second call if the first one says that it is not started.
  abbrev pub mode_status : Status
  mode_status = (start_mode fw (query fw (get_gop fw w).0)).1

  -- InitializeGop fills the frame buffer in exactly if there is a graphics output and its mode comes
  -- up, and its status is an error exactly if it does not.
  pub initialize_gop_iff :
      (is_some (initialize_gop fw w).1 ≡ (get_gop fw w).1 && not (is_error mode_status))
      × (is_error (initialize_gop fw w).2 ≡ not (is_some (initialize_gop fw w).1))
  unfolding initialize_gop is_error
  initialize_gop_iff = elim (Bool-cases (get_gop fw w).1) [
    | inl found ↦ elim (Bool-cases (is_error mode_status)) [
      | inl failed ↦ rw (initialize_gop, found, failed) (refl, failed)
      | inr shown ↦ rw (initialize_gop, found, shown) (refl, refl)
    ]
    | inr missing ↦ rw (initialize_gop, missing) (refl, refl)
  ]
