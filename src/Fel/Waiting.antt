-- ===== src/Fel/Waiting.antt =====
-- recovery/crates/sunxi-fel/src/device.rs: `wait_for_device` and `wait_for_state`, on what the USB stack and the clock
-- say at each turn of their loops.
pub mod Deadlines
use project_chronos_engine.Prelude.{
  ℕ, ◌+◌, Bool, true, false, ◌||◌, List, [], ◌∷◌, Option, none, some, leb, if◌then◌else◌,
}
use project_chronos_engine.Fel.Discovery.{
  DeviceState, boot_rom, fel, UsbError, not_listed, not_opened, several_devices, access_denied,
  FelError, not_found, usb, Result, ok, err, DeviceInfo, is_fel, matches, detect_state,
}

-- One turn: the devices listed; whether opening one that has no interfaces to show was denied; and the readings of the
-- clock in milliseconds, in the order in which the code takes them. A sleep ends each turn.
pub record Poll : Type 0 where
  pub listed : Option (List DeviceInfo)
  pub permission_denied : Bool
  pub first_denial : ℕ
  pub grace_check : ℕ
  pub denial_check : ℕ
  pub end_check : ℕ

abbrev pub Devices : Type 0
Devices = List (List (List ℕ))

-- What a turn of `wait_for_device` does before its last check: it returns, or it goes on with `access_deadline`.
pub data Turn : Type 0 where
  returned : Result DeviceState → Turn
  goes_on : Option ℕ → Turn

-- `access_deadline.get_or_insert_with(…)`
abbrev pub grace_of : Option ℕ → ℕ → ℕ
grace_of none now = now + 500
grace_of (some grace) now = grace

abbrev pub state_of : Result (DeviceState × (ℕ × ℕ)) → Result DeviceState
state_of (err e) = err e
state_of (ok (state, eps)) = ok state

-- Opening the device failed.
unfoldable pub denied : ℕ → Option ℕ → Poll → Turn
denied deadline grace p =
    if p.permission_denied
    then (if leb (grace_of grace p.first_denial) p.grace_check || leb deadline p.denial_check
        then returned (err (usb access_denied))
        else goes_on (some (grace_of grace p.first_denial)))
    else returned (err (usb not_opened))

unfoldable pub poll_only : ℕ → Option ℕ → Poll → List DeviceInfo → Turn
poll_only deadline grace p [] = goes_on none
poll_only deadline grace p (info ∷ []) = elim info.interfaces [
  | none ↦ denied deadline grace p
  | some groups ↦ returned (state_of (detect_state groups))
]
poll_only deadline grace p (info ∷ other ∷ more) = returned (err (usb several_devices))

unfoldable pub poll_device : ℕ → Option ℕ → Poll → Turn
poll_device deadline grace p = elim p.listed [
  | none ↦ returned (err (usb not_listed))
  | some ds ↦ poll_only deadline grace p (matches ds)
]

-- The check that ends a turn.
abbrev pub expired : ℕ → Poll → Bool
expired deadline p = leb deadline p.end_check

abbrev pub turned :
    (Option ℕ → Option (Result DeviceState)) → Bool → Turn → Option (Result DeviceState)
turned next over (returned r) = some r
turned next true (goes_on grace) = some (err not_found)
turned next false (goes_on grace) = next grace

-- `wait_for_device`, from `access_deadline` on; `none` while it waits.
unfoldable pub wait_for_device : ℕ → Option ℕ → List Poll → Option (Result DeviceState)
wait_for_device deadline grace [] = none
wait_for_device deadline grace (p ∷ ps) =
    turned (λ g. wait_for_device deadline g ps) (expired deadline p) (poll_device deadline grace p)

abbrev first_fel : List DeviceInfo → Option DeviceInfo
first_fel [] = none
first_fel (d ∷ ds) = if is_fel d then some d else first_fel ds

abbrev is_state : DeviceState → DeviceState → Bool
is_state boot_rom boot_rom = true
is_state boot_rom fel = false
is_state fel boot_rom = false
is_state fel fel = true

abbrev in_state : DeviceState → Result DeviceState → Bool
in_state state (err e) = false
in_state state (ok s) = is_state s state

-- Whether a turn finds the first device in the state.
unfoldable pub sees : DeviceState → Poll → Bool
sees state p = elim p.listed [
  | none ↦ false
  | some ds ↦ elim (first_fel ds) [
    | none ↦ false
    | some info ↦ elim info.interfaces [
      | none ↦ false
      | some groups ↦ in_state state (state_of (detect_state groups))
    ]
  ]
]

unfoldable pub wait_for_state : DeviceState → ℕ → List Poll → Option (Result (Unit {0}))
wait_for_state state deadline [] = none
wait_for_state state deadline (p ∷ ps) =
    if sees state p
    then some (ok tt)
    else if expired deadline p
    then some (err not_found)
    else wait_for_state state deadline ps
