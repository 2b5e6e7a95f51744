-- ===== src/Fel/Device/Refusals.antt =====
-- The operations outside the FEL state.
use project_chronos_engine.Prelude.{ℕ, ◌≡◌, Bytes}
use project_chronos_engine.Fel.Discovery.{boot_rom, fel, wrong_state, err, FelDevice}
use project_chronos_engine.Fel.Device.{
  Usb, require_fel, read, write_progress, exe, exe_no_return, disable_icache, write, version,
}

module _ {W : Type 0} (link : Usb W) (self : FelDevice) where
  require_fel-boot_rom :
      (w : W)
      → self.state ≡ boot_rom
      → require_fel link self w ≡ (w, err (wrong_state fel boot_rom))
  unfolding require_fel
  require_fel-boot_rom w h = rw h

  -- A device in the boot ROM's state refuses every operation with the error of a wrong state, and no transfer is
  -- made: the world is as it was.
  pub boot_rom_refuses :
      (w : W) (addr len : ℕ) (bytes : Bytes) (on_chunk : ℕ → W → W)
      → self.state ≡ boot_rom
      → (read link self addr len w ≡ (w, err (wrong_state fel boot_rom)))
        × (write_progress link self addr bytes on_chunk w ≡ (w, err (wrong_state fel boot_rom)))
        × (exe link self addr w ≡ (w, err (wrong_state fel boot_rom)))
        × (exe_no_return link self addr w ≡ (w, err (wrong_state fel boot_rom)))
        × (disable_icache link self addr w ≡ (w, err (wrong_state fel boot_rom)))
        × (version link self w ≡ (w, err (wrong_state fel boot_rom)))
  unfolding read write_progress exe exe_no_return disable_icache write version
  boot_rom_refuses w addr len bytes on_chunk h =
      let e = require_fel-boot_rom w h in (rw e, rw e, rw e, rw e, rw e, rw e)
