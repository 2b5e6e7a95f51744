-- ===== src/Fel/Discovery/States.antt =====
-- The state that the endpoints of a device show.
use project_chronos_engine.Prelude.{
  ℕ, ◌≡◌, refl, Bool, true, false, ◌&&◌, ◌||◌, List, [], ◌∷◌, ◌++◌, All, ◌==◌, if◌then◌else◌, arith,
  some, none, subst, Option-cases, inl, inr, Bool-cases, ap,
}
use project_chronos_engine.Fel.Discovery.{
  DeviceState, boot_rom, fel, usb, unknown_endpoints, Result, ok, err, Seen, see, see_all,
  detect_state, FelDevice, DeviceInfo, not_found, matches, claim, open_only, open_device, any_fel,
  is_present, is_fel, not_listed,
}

-- Whether an address is in a list.
abbrev pub has : List ℕ → ℕ → Bool
has [] a = false
has (x ∷ xs) a = (x == a) || has xs a

or_false : (b : Bool) → b ≡ (b || false)
or_false true = refl
or_false false = refl

-- One address, then the rest.
step : (b c f : Bool) {a e : Bool} → a ≡ (b || c) → e ≡ (a || f) → e ≡ (b || (c || f))
step true c f h k = ground (arith, h, k)
step false c f h k = ground (arith, h, k)

see-is :
    (s : Seen) (x : ℕ)
    → ((see s x).has_bootrom_in ≡ (s.has_bootrom_in || (x == 0x81)))
      × ((see s x).has_bootrom_out ≡ (s.has_bootrom_out || (x == 0x02)))
      × ((see s x).has_fel_in ≡ (s.has_fel_in || (x == 0x82)))
      × ((see s x).has_fel_out ≡ (s.has_fel_out || (x == 0x01)))
unfolding see
see-is s x = (
  ground (arith, or_false s.has_bootrom_in),
  ground (arith, or_false s.has_bootrom_out),
  ground (arith, or_false s.has_fel_in),
  ground (arith, or_false s.has_fel_out),
)

see_all-has :
    (xs : List ℕ) (s : Seen)
    → let t = see_all xs s in
      (t.has_bootrom_in ≡ (s.has_bootrom_in || has xs 0x81))
      × (t.has_bootrom_out ≡ (s.has_bootrom_out || has xs 0x02))
      × (t.has_fel_in ≡ (s.has_fel_in || has xs 0x82))
      × (t.has_fel_out ≡ (s.has_fel_out || has xs 0x01))
unfolding see_all see
see_all-has [] s = (
  or_false s.has_bootrom_in,
  or_false s.has_bootrom_out,
  or_false s.has_fel_in,
  or_false s.has_fel_out,
)
see_all-has (x ∷ xs) s =
    let h = see_all-has xs (see s x) in
    let k = see-is s x in
    (
      step s.has_bootrom_in (x == 0x81) (has xs 0x81) k.0 h.0,
      step s.has_bootrom_out (x == 0x02) (has xs 0x02) k.1 h.1,
      step s.has_fel_in (x == 0x82) (has xs 0x82) k.2 h.2,
      step s.has_fel_out (x == 0x01) (has xs 0x01) k.3 h.3,
    )

-- The state is decided by which of the four addresses the endpoints of the first setting of the first
-- interface have, in any order and however often: FEL if both of FEL's are there, else the boot ROM if both of
-- its are there, else an error; the other settings and interfaces play no part.
pub detect_state-has :
    (alt : List ℕ) (alts : List (List ℕ)) (groups : List (List (List ℕ)))
    → detect_state ((alt ∷ alts) ∷ groups) ≡ (
        if has alt 0x82 && has alt 0x01
        then ok (fel, (0x01, 0x82))
        else if has alt 0x81 && has alt 0x02
        then ok (boot_rom, (0x02, 0x81))
        else err (usb unknown_endpoints))
unfolding detect_state
detect_state-has alt alts groups =
    let h = see_all-has alt (record {
      has_bootrom_in = false;
      has_bootrom_out = false;
      has_fel_in = false;
      has_fel_out = false;
    }) in
    rw (h.0, h.1, h.2, h.3) refl

matches-any : (ds : List DeviceInfo) → any_fel ds ≡ false → matches ds ≡ []
unfolding any_fel matches
matches-any [] h = refl
matches-any (d ∷ ds) h = ground (arith, matches-any ds)

claim-state :
    (info : DeviceInfo) (r : Result (DeviceState × (ℕ × ℕ))) (d : FelDevice)
    → claim info r ≡ ok d
    → r ≡ ok (d.state, (d.out, d.in_))
unfolding claim
claim-state info (err e) d h = cc
claim-state info (ok (state, (out, in_))) d h = elim (Bool-cases info.claimable) [
  | inl e ↦
      let h' = rw (e, claim) at h in
      let same : ◌≡◌ {A = FelDevice} (record { state = state; out = out; in_ = in_ }) d = cc in
      ap (λ (x : FelDevice). ok (x.state, (x.out, x.in_))) same
  | inr e ↦ let h' = rw (e, claim) at h in cc
]

only :
    (ms : List DeviceInfo) (d : FelDevice)
    → open_only ms ≡ ok d
    → (info : DeviceInfo) × (groups : List (List (List ℕ))) × (ms ≡ info ∷ [])
      × (info.interfaces ≡ some groups)
      × (detect_state groups ≡ ok (d.state, (d.out, d.in_)))
unfolding open_only
only [] d h = cc
only (info ∷ other ∷ more) d h = cc
only (info ∷ []) d h = elim (Option-cases info.interfaces) [
  | inl e ↦ (let h' = rw (e, open_only) at h in cc)
  | inr (groups, e) ↦
      (info, groups, refl, e, claim-state info (detect_state groups) d (rw (e, open_only) at h))
]

-- The ids of a console in FEL, and a list where no device has them.
abbrev pub HasIds : DeviceInfo → Type 0
HasIds d = (d.vendor_id ≡ 0x1f3a) × (d.product_id ≡ 0xefe8)

abbrev pub NoIds : List DeviceInfo → Type 0
NoIds ds = All (λ (d : DeviceInfo). ¬ HasIds d) ds

is_fel-HasIds : (d : DeviceInfo) → is_fel d ≡ true → HasIds d
unfolding is_fel
is_fel-HasIds d h = (ground (arith, h), ground (arith, h))

is_fel-not : (d : DeviceInfo) → is_fel d ≡ false → ¬ HasIds d
unfolding is_fel
is_fel-not d h = λ ids. ground (arith, h, ids.0, ids.1)

any_fel-NoIds : (ds : List DeviceInfo) → any_fel ds ≡ false → NoIds ds
unfolding any_fel
any_fel-NoIds [] h = tt
any_fel-NoIds (d ∷ ds) h = (is_fel-not d (ground arith), any_fel-NoIds ds (ground arith))

matches-NoIds : (ds : List DeviceInfo) → matches ds ≡ [] → NoIds ds
unfolding matches
matches-NoIds [] h = tt
matches-NoIds (d ∷ ds) h = elim (Bool-cases (is_fel d)) [
  | inl e ↦ (let h' = rw (e, matches) at h in cc)
  | inr e ↦ (is_fel-not d e, matches-NoIds ds (rw (e, matches) at h))
]

-- The device stands between others that have not its ids.
abbrev pub Sole : List DeviceInfo → DeviceInfo → Type 0
Sole ds info =
    (before : List DeviceInfo) × (after : List DeviceInfo) × (ds ≡ before ++ (info ∷ after))
    × HasIds info
    × NoIds before
    × NoIds after

matches-Sole : (ds : List DeviceInfo) (info : DeviceInfo) → matches ds ≡ info ∷ [] → Sole ds info
unfolding matches
matches-Sole [] info h = cc
matches-Sole (d ∷ ds) info h = elim (Bool-cases (is_fel d)) [
  | inl e ↦
      let h' : d ∷ matches ds ≡ info ∷ [] = rw (e, matches) at h in
      let same : d ≡ info = ground (arith, h') in
      let rest : matches ds ≡ [] = ground (arith, h') in
      (
        [],
        ds,
        ap (λ (x : DeviceInfo). x ∷ ds) same,
        subst HasIds same (is_fel-HasIds d e),
        tt,
        matches-NoIds ds rest,
      )
  | inr e ↦
      let (before, after, eq, ids, l, r) = matches-Sole ds info (rw (e, matches) at h) in
      (d ∷ before, after, ap (λ t. d ∷ t) eq, ids, (is_fel-not d e, l), r)
]

-- What a device that opens from the listed ones says of them.
abbrev pub OpensOnly : List DeviceInfo → FelDevice → Type 0
OpensOnly ds d =
    (info : DeviceInfo) × (groups : List (List (List ℕ))) × Sole ds info
    × (info.interfaces ≡ some groups)
    × (detect_state groups ≡ ok (d.state, (d.out, d.in_)))

opens_only : (ds : List DeviceInfo) (d : FelDevice) → open_only (matches ds) ≡ ok d → OpensOnly ds d
opens_only ds d h =
    let (info, groups, e, i, s) = only (matches ds) d h in
    (info, groups, matches-Sole ds info e, i, s)

-- Where the devices cannot be listed, nothing is present and opening is an error of the USB stack. Among the listed ones,
-- a device that opens is the only one with the vendor id 0x1f3a and the product id 0xefe8, and its state and endpoints
-- are those that `detect_state` reads off its interfaces; and where `is_present` is false none has these ids, and opening
-- says that none was found.
pub open_device-only :
    (ds : List DeviceInfo)
    → ((is_present none ≡ false) × (open_device none ≡ err (usb not_listed)))
      × ((d : FelDevice) → open_device (some ds) ≡ ok d → OpensOnly ds d)
      × (is_present (some ds) ≡ false → NoIds ds × (open_device (some ds) ≡ err not_found))
unfolding open_device is_present
open_device-only ds = (
  (refl, refl),
  λ d h. opens_only ds d h,
  λ h. (any_fel-NoIds ds h, rw (matches-any ds h) (unfold open_only in refl)),
)
