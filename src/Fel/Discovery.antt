-- ===== src/Fel/Discovery.antt =====
-- recovery/crates/sunxi-fel/src/device.rs and error.rs: the errors, the state that a device's endpoints show, and
-- the opening of the only device. What the USB stack lists is an argument.
pub mod States
use project_chronos_engine.Prelude.{
  ℕ, zero, suc, ◌+◌, ◌-◌, ◌*◌, ◌%◌, ◌^◌, min, Bytes, Bool, true, false, not, ◌&&◌, ◌||◌, List, [],
  ◌∷◌, ◌++◌, Option, none, some, length, take, drop, ◌==◌, if◌then◌else◌, bytes_eq, le_bytes,
}
use project_chronos_engine.Fel.Protocol.{
  awus_magic, version_magic, aw_usb_read, aw_usb_write, aw_fel_version, aw_fel_write, aw_fel_exec,
  aw_fel_read, usb_request, usb_request_bytes, usb_status_of, fel_request_of, fel_request_bytes,
  FelVersion, version_of,
}

pub data DeviceState : Type 0 where
  boot_rom fel : DeviceState

-- The causes of `FelError::Usb`.
pub data UsbError : Type 0 where
  transfer_out transfer_in no_interface no_alt_setting unknown_endpoints : UsbError
  not_listed not_opened not_claimed several_devices access_denied : UsbError

pub data FelError : Type 0 where
  not_found : FelError
  usb : UsbError → FelError
  bad_status : Bytes → ℕ → FelError
  short_transfer : ℕ → ℕ → FelError
  bad_version : Bytes → FelError
  wrong_state : DeviceState → DeviceState → FelError

pub data Result {ℓ} (A : Type ℓ) : Type ℓ where
  ok : A → Result A
  err : FelError → Result A

pub record FelDevice : Type 0 where
  pub state : DeviceState
  pub out : ℕ
  pub in_ : ℕ

-- BOOTROM_EP and FEL_EP: the addresses of an endpoint out and an endpoint in.
abbrev pub bootrom_ep : ℕ × ℕ
bootrom_ep = (0x02, 0x81)

abbrev pub fel_ep : ℕ × ℕ
fel_ep = (0x01, 0x82)

-- The flags of `detect_state`.
pub record Seen : Type 0 where
  pub has_bootrom_in : Bool
  pub has_bootrom_out : Bool
  pub has_fel_in : Bool
  pub has_fel_out : Bool

unfoldable pub see : Seen → ℕ → Seen
see s x =
    if x == bootrom_ep.1
    then record s { has_bootrom_in = true }
    else if x == bootrom_ep.0
    then record s { has_bootrom_out = true }
    else if x == fel_ep.1
    then record s { has_fel_in = true }
    else if x == fel_ep.0
    then record s { has_fel_out = true }
    else s

unfoldable pub see_all : List ℕ → Seen → Seen
see_all [] s = s
see_all (x ∷ xs) s = see_all xs (see s x)

-- The interfaces of the active configuration, each a list of alternate settings, each the list of the addresses
-- of its endpoints.
unfoldable pub detect_state : List (List (List ℕ)) → Result (DeviceState × (ℕ × ℕ))
detect_state [] = err (usb no_interface)
detect_state ([] ∷ groups) = err (usb no_alt_setting)
detect_state ((alt ∷ alts) ∷ groups) =
    let s = see_all alt (record {
      has_bootrom_in = false;
      has_bootrom_out = false;
      has_fel_in = false;
      has_fel_out = false;
    }) in
    if s.has_fel_in && s.has_fel_out
    then ok (fel, fel_ep)
    else if s.has_bootrom_in && s.has_bootrom_out
    then ok (boot_rom, bootrom_ep)
    else err (usb unknown_endpoints)

-- FEL_VID and FEL_PID.
abbrev pub fel_vid : ℕ
fel_vid = 0x1f3a

abbrev pub fel_pid : ℕ
fel_pid = 0xefe8

-- What the USB stack says of a device: its ids, its interfaces if it can be opened, and whether its
-- interface can then be claimed.
pub record DeviceInfo : Type 0 where
  pub vendor_id : ℕ
  pub product_id : ℕ
  pub interfaces : Option (List (List (List ℕ)))
  pub claimable : Bool

unfoldable pub is_fel : DeviceInfo → Bool
is_fel d = (d.vendor_id == fel_vid) && (d.product_id == fel_pid)

unfoldable pub matches : List DeviceInfo → List DeviceInfo
matches [] = []
matches (d ∷ ds) = if is_fel d then d ∷ matches ds else matches ds

unfoldable pub claim : DeviceInfo → Result (DeviceState × (ℕ × ℕ)) → Result FelDevice
claim info (err e) = err e
claim info (ok (state, (out, in_))) =
    if info.claimable
    then ok (record { state = state; out = out; in_ = in_ })
    else err (usb not_claimed)

unfoldable pub open_only : List DeviceInfo → Result FelDevice
open_only [] = err not_found
open_only (info ∷ []) = elim info.interfaces [
  | none ↦ err (usb not_opened)
  | some groups ↦ claim info (detect_state groups)
]
open_only (info ∷ other ∷ more) = err (usb several_devices)

-- `open`, on what `nusb::list_devices` returns.
unfoldable pub open_device : Option (List DeviceInfo) → Result FelDevice
open_device none = err (usb not_listed)
open_device (some ds) = open_only (matches ds)

-- `is_present`.
unfoldable pub any_fel : List DeviceInfo → Bool
any_fel [] = false
any_fel (d ∷ ds) = is_fel d || any_fel ds

unfoldable pub is_present : Option (List DeviceInfo) → Bool
is_present none = false
is_present (some ds) = any_fel ds
