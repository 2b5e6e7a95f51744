-- ===== src/Fel/Runs.antt =====
-- Concrete runs of the FEL device, over a link that keeps a log.
use project_chronos_engine.Prelude.{
  ℕ, ◌≡◌, ◌≢◌, refl, Bytes, true, false, none, List, [], ◌∷◌, ◌++◌, some, arith, length, replicate,
  if◌then◌else◌, ◌==◌, ◌&&◌,
}
use project_chronos_engine.Fel.Protocol.{awus_magic}
use project_chronos_engine.Fel.Discovery.{
  not_listed, DeviceInfo, wrong_state, open_device, is_present, not_found, fel, boot_rom, FelDevice,
  ok, err, usb, unknown_endpoints, detect_state,
}
use project_chronos_engine.Fel.Waiting.{Poll, wait_for_device}
use project_chronos_engine.Fel.Waiting.Deadlines.{wait_for_device-returns}
use project_chronos_engine.Fel.Device.{
  exe, exe_no_return, disable_icache, version, Usb, read, read_loop, write_progress, require_fel,
  fel_request, fel_read_data, read_fel_status, bulk_out, bulk_in, read_status, check_status,
}
use project_chronos_engine.Fel.Discovery.States.{
  has, detect_state-has, open_device-only, OpensOnly, NoIds, OpensOnly, NoIds,
}
use project_chronos_engine.Fel.Device.Refusals.{boot_rom_refuses}
use project_chronos_engine.Fel.Device.Reading.{length-read}
use project_chronos_engine.Fel.Device.Writing.{IsObliging, store, replay, write_progress-replay}

-- Takes every transfer; a status reports success, and other transfers in are zeros.
abbrev logging : Usb (List Bytes)
logging = record {
  bulk_out = λ endpoint bytes log. (log ++ (bytes ∷ []), true);
  bulk_in = λ endpoint n log.
      (log, some (if n == 13 then awus_magic ++ replicate 9 0 else replicate n 0));
}

abbrev device : FelDevice
device = record { state = fel; out = 1; in_ = 0x82 }

logging-IsObliging : IsObliging logging device (λ log. log)
logging-IsObliging = record {
  takes = λ bytes log. (refl, refl);
  answers = λ log. (replicate 8 0, refl, refl, refl);
  accepts = λ log. (awus_magic ++ replicate 9 0, refl, refl, refl, refl, refl);
}

write_progress-replay_example :
    (w' : List Bytes) × (log : List Bytes) × (write_progress logging device 0x2000
        (1 ∷ 2 ∷ 3 ∷ [])
        (λ n w. w)
        []
      ≡ (w', ok tt))
    × (w' ≡ [] ++ log)
    × ((mem : ℕ → ℕ) → replay log mem ≡ store mem 0x2000 (1 ∷ 2 ∷ 3 ∷ []))
write_progress-replay_example =
    write_progress-replay logging device (λ log. log) logging-IsObliging (λ n w. w) (λ n w. refl)
      0x2000 (1 ∷ 2 ∷ 3 ∷ []) [] refl (omega arith)

abbrev after_read : List Bytes
after_read = (read logging device 0x2000 3 []).0

read_runs : read logging device 0x2000 3 [] ≡ (after_read, ok (0 ∷ 0 ∷ 0 ∷ []))
unfolding read read_loop require_fel fel_request fel_read_data read_fel_status bulk_out bulk_in
    read_status check_status
read_runs = refl

abbrev zeros : Bytes
zeros = 0 ∷ 0 ∷ 0 ∷ []

length-read_example : (length zeros ≡ 3) × (device.state ≡ fel)
length-read_example = length-read logging device 0x2000 3 [] after_read (0 ∷ 0 ∷ 0 ∷ []) read_runs

abbrev endpoints : List ℕ
endpoints = 0x82 ∷ 0x81 ∷ 0x02 ∷ []

detect_state-has_example : detect_state ((endpoints ∷ []) ∷ []) ≡ (
    if has endpoints 0x82 && has endpoints 0x01
    then ok (fel, (0x01, 0x82))
    else if has endpoints 0x81 && has endpoints 0x02
    then ok (boot_rom, (0x02, 0x81))
    else err (usb unknown_endpoints))
detect_state-has_example = detect_state-has endpoints [] []

-- A mouse and a console in the boot ROM's state.
abbrev listed : List DeviceInfo
listed =
    record { vendor_id = 0x046d; product_id = 1; interfaces = none; claimable = true }
    ∷ record {
      vendor_id = 0x1f3a;
      product_id = 0xefe8;
      interfaces = some ((endpoints ∷ []) ∷ []);
      claimable = true;
    }
    ∷ []

open_device-only_example :
    ((is_present none ≡ false) × (open_device none ≡ err (usb not_listed)))
    × ((d : FelDevice) → open_device (some listed) ≡ ok d → OpensOnly listed d)
    × (is_present (some listed) ≡ false
        → NoIds listed × (open_device (some listed) ≡ err not_found))
open_device-only_example = open_device-only listed

abbrev parked : FelDevice
parked = record { state = boot_rom; out = 2; in_ = 0x81 }

boot_rom_refuses_example :
    (read logging parked 0 4 [] ≡ ([], err (wrong_state fel boot_rom)))
    × (write_progress logging parked 0 zeros (λ n w. w) [] ≡ ([], err (wrong_state fel boot_rom)))
    × (exe logging parked 0 [] ≡ ([], err (wrong_state fel boot_rom)))
    × (exe_no_return logging parked 0 [] ≡ ([], err (wrong_state fel boot_rom)))
    × (disable_icache logging parked 0 [] ≡ ([], err (wrong_state fel boot_rom)))
    × (version logging parked [] ≡ ([], err (wrong_state fel boot_rom)))
boot_rom_refuses_example = boot_rom_refuses logging parked [] 0 4 zeros (λ n w. w) refl

-- A turn at a time, with these devices listed.
abbrev turn : ℕ → List DeviceInfo → Poll
turn now ds = record {
  listed = some ds;
  permission_denied = false;
  first_denial = now;
  grace_check = now;
  denial_check = now;
  end_check = now;
}

abbrev console : DeviceInfo
console = record {
  vendor_id = 0x1f3a;
  product_id = 0xefe8;
  interfaces = some (((1 ∷ 0x82 ∷ []) ∷ []) ∷ []);
  claimable = true;
}

wait_for_device-returns_example : wait_for_device 1000 none (turn 0 [] ∷ turn 1200 [] ∷ []) ≢ none
wait_for_device-returns_example =
    wait_for_device-returns 1000 none (turn 0 [] ∷ []) (turn 1200 []) [] (omega arith)
