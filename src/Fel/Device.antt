-- ===== src/Fel/Device.antt =====
-- recovery/crates/sunxi-fel/src/device.rs and error.rs: the operations of a FEL device. The USB stack is a
-- parameter: it takes the state of the world from one transfer to the next.
pub mod Writing
pub mod Reading
pub mod Refusals
use project_chronos_engine.Prelude.{
  ℕ, zero, suc, ◌+◌, ◌-◌, ◌*◌, ◌%◌, ◌^◌, min, Bytes, Bool, true, false, not, ◌&&◌, ◌||◌, List, [],
  ◌∷◌, ◌++◌, Option, none, some, length, take, drop, ◌==◌, if◌then◌else◌, bytes_eq, le_bytes,
}
use project_chronos_engine.Fel.Protocol.{
  awus_magic, version_magic, aw_usb_read, aw_usb_write, aw_fel_version, aw_fel_write, aw_fel_exec,
  aw_fel_read, usb_request, usb_request_bytes, usb_status_of, fel_request_of, fel_request_bytes,
  FelVersion, version_of,
}
use project_chronos_engine.Fel.Discovery.{
  DeviceState, boot_rom, fel, UsbError, transfer_out, transfer_in, no_interface, no_alt_setting,
  unknown_endpoints, not_listed, not_opened, not_claimed, several_devices, FelError, not_found, usb,
  bad_status, short_transfer, bad_version, wrong_state, Result, ok, err, FelDevice, bootrom_ep,
  fel_ep, Seen, see, see_all, detect_state, fel_vid, fel_pid, DeviceInfo, is_fel, matches, claim,
  open_only, open_device, any_fel, is_present,
}

-- A bulk transfer on an endpoint: whether it completes, and the bytes that came in.
pub record Usb (W : Type 0) : Type 0 where
  pub bulk_out : ℕ → Bytes → W → W × Bool
  pub bulk_in : ℕ → ℕ → W → W × Option Bytes

-- CHUNK.
abbrev pub chunk_size : ℕ
chunk_size = 512 * 1024

-- A step of the world that may fail.
abbrev pub Fel : Type 0 → Type 0 → Type 0
Fel W A = W → W × Result A

-- The steps that follow a result.
abbrev pub after : {W A B : Type 0} → W × Result A → (A → Fel W B) → W × Result B
after (w, ok a) f = f a w
after (w, err e) f = (w, err e)

infixl 5 ◌>>=◌
abbrev pub ◌>>=◌ : {W A B : Type 0} → Fel W A → (A → Fel W B) → Fel W B
◌>>=◌ m f w = after (m w) f

abbrev pub pure : {W A : Type 0} → A → Fel W A
pure a w = (w, ok a)

abbrev pub fail : {W A : Type 0} → FelError → Fel W A
fail e w = (w, err e)

-- The step with its error dropped: `let _ = step;`.
abbrev pub ignore : {W A : Type 0} → Fel W A → Fel W (Unit {0})
ignore m w = ((m w).0, ok tt)

-- The six ARM instructions of the thunk.
abbrev pub thunk : Bytes
thunk =
    le_bytes 4 0xee11_0f10
    ++ (le_bytes 4 0xe3c0_0a01
        ++ (le_bytes 4 0xee01_0f10
            ++ (le_bytes 4 0xee07_0f15 ++ (le_bytes 4 0xf57f_f06f ++ le_bytes 4 0xe12f_ff1e))))

-- `read_status` from its `read_from_bytes` on.
unfoldable pub check_status : {W : Type 0} → Bytes → Fel W (Unit {0})
check_status buf = elim (usb_status_of buf) [
  | none ↦ fail (short_transfer 13 (length buf))
  | some st ↦
      if not (bytes_eq st.signature awus_magic) || not (st.csw_status == 0)
      then fail (bad_status st.signature st.csw_status)
      else pure tt
]

module _ {W : Type 0} (link : Usb W) (self : FelDevice) where
  unfoldable pub bulk_out : Bytes → Fel W (Unit {0})
  bulk_out bytes w =
      let (w', done) = link.bulk_out self.out bytes w in
      (w', if done then ok tt else err (usb transfer_out))

  unfoldable pub bulk_in : ℕ → Fel W Bytes
  bulk_in len w =
      let (w', came) = link.bulk_in self.in_ len w in
      elim came [
        | some bytes ↦
            (w', if length bytes == len then ok bytes else err (short_transfer len (length bytes)))
        | none ↦ (w', err (usb transfer_in))
      ]

  unfoldable pub read_status : Fel W (Unit {0})
  read_status = do buf ← bulk_in 13; check_status buf

  unfoldable pub fel_request : ℕ → ℕ → ℕ → Fel W (Unit {0})
  fel_request req addr len = do
    let message = fel_request_bytes (fel_request_of req addr len)
    envelope ← bulk_out (usb_request_bytes (usb_request aw_usb_write (length message)))
    sent ← bulk_out message
    read_status

  -- `len as u32`.
  unfoldable pub fel_read_data : ℕ → Fel W Bytes
  fel_read_data len = do
    envelope ← bulk_out (usb_request_bytes (usb_request aw_usb_read (len % 2 ^ 32)))
    bytes ← bulk_in len
    status ← read_status
    pure bytes

  unfoldable pub fel_write_data : Bytes → Fel W (Unit {0})
  fel_write_data bytes = do
    envelope ← bulk_out (usb_request_bytes (usb_request aw_usb_write (length bytes % 2 ^ 32)))
    sent ← bulk_out bytes
    read_status

  unfoldable pub read_fel_status : Fel W (Unit {0})
  read_fel_status = do bytes ← fel_read_data 8; pure tt

  unfoldable pub require_fel : Fel W (Unit {0})
  require_fel = elim self.state [ fel ↦ pure tt | boot_rom ↦ fail (wrong_state fel boot_rom) ]

  -- `while remaining > 0`; a round takes a byte at least, so `remaining` rounds are enough.
  unfoldable pub read_loop : ℕ → ℕ → ℕ → Bytes → Fel W Bytes
  read_loop zero cur remaining out = pure out
  read_loop (suc fuel) cur zero out = pure out
  read_loop (suc fuel) cur (suc remaining) out = do
    let n = min (suc remaining) chunk_size
    requested ← fel_request aw_fel_read cur n
    chunk ← fel_read_data n
    status ← read_fel_status
    read_loop fuel ((cur + n) % 2 ^ 32) (suc remaining - n) (out ++ chunk)

  unfoldable pub read : ℕ → ℕ → Fel W Bytes
  read addr len = do state ← require_fel; read_loop len addr len []

  -- `for chunk in data.chunks(CHUNK)`; a chunk has a byte at least, so as many rounds as bytes are enough.
  unfoldable pub write_loop : (ℕ → W → W) → ℕ → ℕ → Bytes → Fel W (Unit {0})
  write_loop on_chunk zero cur bytes = pure tt
  write_loop on_chunk (suc fuel) cur [] = pure tt
  write_loop on_chunk (suc fuel) cur (b ∷ bs) = do
    let chunk = take chunk_size (b ∷ bs)
    requested ← fel_request aw_fel_write cur (length chunk)
    sent ← fel_write_data chunk
    status ← read_fel_status
    reported ← (λ w. (on_chunk (length chunk) w, ok tt))
    write_loop on_chunk fuel ((cur + length chunk) % 2 ^ 32) (drop chunk_size (b ∷ bs))

  unfoldable pub write_progress : ℕ → Bytes → (ℕ → W → W) → Fel W (Unit {0})
  write_progress addr bytes on_chunk = do
    state ← require_fel
    write_loop on_chunk (length bytes) addr bytes

  unfoldable pub write : ℕ → Bytes → Fel W (Unit {0})
  write addr bytes = write_progress addr bytes (λ n w. w)

  unfoldable pub exe : ℕ → Fel W (Unit {0})
  exe addr = do state ← require_fel; requested ← fel_request aw_fel_exec addr 0; read_fel_status

  unfoldable pub exe_no_return : ℕ → Fel W (Unit {0})
  exe_no_return addr = do
    state ← require_fel
    requested ← fel_request aw_fel_exec addr 0
    ignore read_fel_status

  unfoldable pub disable_icache : ℕ → Fel W (Unit {0})
  disable_icache scratch_addr = do written ← write scratch_addr thunk; exe scratch_addr

  unfoldable pub version : Fel W FelVersion
  version = do
    state ← require_fel
    requested ← fel_request aw_fel_version 0 0
    buf ← fel_read_data 32
    status ← read_fel_status
    elim (version_of buf) [
      | none ↦ fail (short_transfer 32 (length buf))
      | some v ↦
          if bytes_eq v.signature version_magic then pure v else fail (bad_version v.signature)
    ]
