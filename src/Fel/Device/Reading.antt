-- ===== src/Fel/Device/Reading.antt =====
-- What a read returns, whatever the USB stack does.
use project_chronos_engine.Prelude.{
  ℕ, zero, suc, ◌+◌, ◌-◌, ◌%◌, ◌^◌, ◌≤◌, ◌≡◌, refl, sym, ap, ◌∙◌, min, Bytes, [], ◌++◌, Option,
  none, some, length, ◌==◌, if◌then◌else◌, arith, length-append, Bool-cases, inl, inr, ==_iff,
}
use project_chronos_engine.Fel.Protocol.{aw_usb_read, aw_fel_read, usb_request, usb_request_bytes}
use project_chronos_engine.Fel.Discovery.{
  DeviceState, fel, boot_rom, wrong_state, usb, transfer_in, short_transfer, Result, ok, err,
  FelDevice,
}
use project_chronos_engine.Fel.Device.{
  Usb, Fel, after, ◌>>=◌, pure, fail, bulk_out, bulk_in, read_status, fel_request, fel_read_data,
  read_fel_status, require_fel, read_loop, read, chunk_size,
}

-- Inversion of a chain that succeeds.
pub after-eq-ok :
    {W A B : Type 0} (r : W × Result A) (f : A → Fel W B) {w : W} {b : B}
    → after r f ≡ (w, ok b)
    → (w1 : W) × (a : A) × (r ≡ (w1, ok a)) × (f a w1 ≡ (w, ok b))
after-eq-ok (w1, ok a) f h = (w1, a, refl, h)
after-eq-ok (w1, err e) f h = cc

-- Inversion of a transfer in: what came has the length asked for.
came_length :
    {W : Type 0} (len : ℕ) (w1 w' : W) (came : Option Bytes) (bs : Bytes)
    → Path
        (W × Result Bytes)
        (elim came [
          | some bytes ↦ (
            w1,
            if length bytes == len then ok bytes else err (short_transfer len (length bytes)),
          )
          | none ↦ (w1, err (usb transfer_in))
        ])
        (w', ok bs)
    → length bs ≡ len
came_length len w1 w' none bs h = cc
came_length len w1 w' (some bytes) bs h = elim (Bool-cases (length bytes == len)) [
  | inl e ↦
      let same : bytes ≡ bs = ground (arith, h) in
      ap length (sym same) ∙ (==_iff (length bytes) len).0 e
  | inr e ↦ ground (arith, h)
]

require_ok :
    {W : Type 0} (s : DeviceState) (w w' : W) (u : Unit {0})
    → Path
        (W × Result (Unit {0}))
        ((elim s as (λ x. Fel W (Unit {0})) [
          | fel ↦ pure tt
          | boot_rom ↦ fail (wrong_state fel boot_rom)
        ])
          w)
        (w', ok u)
    → s ≡ fel
require_ok fel w w' u h = refl
require_ok boot_rom w w' u h = cc

module _ {W : Type 0} (link : Usb W) (self : FelDevice) where
  bulk_in-length :
      (len : ℕ) (w w' : W) (bs : Bytes) → bulk_in link self len w ≡ (w', ok bs) → length bs ≡ len
  unfolding bulk_in
  bulk_in-length len w w' bs h =
      let (w1, came) = link.bulk_in self.in_ len w in came_length len w1 w' came bs h

  fel_read_data-length :
      (len : ℕ) (w w' : W) (bs : Bytes)
      → fel_read_data link self len w ≡ (w', ok bs)
      → length bs ≡ len
  unfolding fel_read_data
  fel_read_data-length len w w' bs h =
      let (w1, u, e1, h1) =
        after-eq-ok
          (bulk_out link self (usb_request_bytes (usb_request aw_usb_read (len % 2 ^ 32))) w)
          (λ u. bulk_in link self len >>= λ bytes. read_status link self >>= λ v. pure bytes) h in
      let (w2, bytes, e2, h2) =
        after-eq-ok (bulk_in link self len w1) (λ bytes. read_status link self >>= λ v. pure bytes)
          h1 in
      let (w3, v, e3, h3) = after-eq-ok (read_status link self w2) (λ v. pure bytes) h2 in
      let e : bytes ≡ bs = cc in ap length (sym e) ∙ bulk_in-length len w1 w2 bytes e2

  read_loop-length :
      (fuel cur remaining : ℕ) (out : Bytes) (w w' : W) (bs : Bytes)
      → remaining ≤ fuel
      → read_loop link self fuel cur remaining out w ≡ (w', ok bs)
      → length bs ≡ length out + remaining
  unfolding read_loop
  read_loop-length zero cur remaining out w w' bs hf h =
      let e : out ≡ bs = cc in omega (arith, ap length e)
  read_loop-length (suc fuel) cur zero out w w' bs hf h =
      let e : out ≡ bs = cc in omega (arith, ap length e)
  read_loop-length (suc fuel) cur (suc remaining) out w w' bs hf h =
      let n : ℕ = min (suc remaining) chunk_size in
      let rest : Bytes → Fel W Bytes =
        λ chunk. read_loop link self fuel ((cur + n) % 2 ^ 32) (suc remaining - n) (out ++ chunk) in
      let (w1, u, e1, h1) =
        after-eq-ok (fel_request link self aw_fel_read cur n w)
          (λ u.
            fel_read_data link self n >>= λ chunk. read_fel_status link self >>= λ v. rest chunk)
          h in
      let (w2, chunk, e2, h2) =
        after-eq-ok (fel_read_data link self n w1)
          (λ chunk. read_fel_status link self >>= λ v. rest chunk) h1 in
      let (w3, v, e3, h3) = after-eq-ok (read_fel_status link self w2) (λ v. rest chunk) h2 in
      omega (
        arith,
        fel_read_data-length n w1 w2 chunk e2,
        length-append out chunk,
        read_loop-length fuel ((cur + n) % 2 ^ 32) (suc remaining - n) (out ++ chunk) w3 w' bs
            (omega arith) h3,
      )

  require_fel-ok :
      (w w' : W) (u : Unit {0}) → require_fel link self w ≡ (w', ok u) → self.state ≡ fel
  unfolding require_fel
  require_fel-ok w w' u h = require_ok self.state w w' u h

  -- A read that returns bytes returns exactly as many as were asked for, however it was cut into
  -- chunks and whatever the USB stack does, and it does so in the FEL state only.
  pub length-read :
      (addr len : ℕ) (w w' : W) (bs : Bytes)
      → read link self addr len w ≡ (w', ok bs)
      → (length bs ≡ len) × (self.state ≡ fel)
  unfolding read
  length-read addr len w w' bs h =
      let (w1, u, e1, h1) =
        after-eq-ok (require_fel link self w) (λ u. read_loop link self len addr len []) h in
      (
        omega (arith, read_loop-length len addr len [] w1 w' bs (omega arith) h1),
        require_fel-ok w w1 u e1,
      )
