-- ===== src/Fel/Device/Writing.antt =====
-- What a write sends, and what a console that follows the protocol makes of it.
use project_chronos_engine.Prelude.{
  ℕ, zero, suc, ◌+◌, ◌%◌, ◌^◌, ◌<◌, ◌≤◌, ◌≡◌, refl, sym, ap, subst, ◌∙◌, Bytes, Bool, true, ◌&&◌,
  List, [], ◌∷◌, ◌++◌, append_assoc, append-nil, some, length, take, drop, get_or, ◌==◌, leb,
  if◌then◌else◌, arith, bytes_eq, bytes_eq_refl, le_bytes, of_le, of_le-le_bytes, length-take,
  length-drop, take-append-drop,
}
use project_chronos_engine.Fel.Protocol.{
  awus_magic, aw_usb_read, aw_usb_write, aw_fel_write, usb_request, usb_request_bytes,
  fel_request_of, fel_request_bytes,
}
use project_chronos_engine.Fel.Discovery.{fel, ok, FelDevice}
use project_chronos_engine.Fel.Device.{
  Usb, Fel, after, ◌>>=◌, pure, bulk_out, bulk_in, check_status, read_status, fel_request,
  fel_read_data, fel_write_data, read_fel_status, require_fel, write_loop, write_progress,
  chunk_size,
}

-- A link to a console that takes every transfer and answers each status with success; `sent` is the list of the
-- transfers out so far.
pub record IsObliging {W : Type 0} (link : Usb W) (self : FelDevice) (sent : W → List Bytes)
    : Type 0 where
  pub takes :
      (bytes : Bytes) (w : W)
      → ((link.bulk_out self.out bytes w).1 ≡ true)
        × (sent ((link.bulk_out self.out bytes w).0) ≡ sent w ++ (bytes ∷ []))
  pub answers :
      (w : W)
      → (bs : Bytes) × ((link.bulk_in self.in_ 8 w).1 ≡ some bs)
        × (length bs ≡ 8)
        × (sent ((link.bulk_in self.in_ 8 w).0) ≡ sent w)
  pub accepts :
      (w : W)
      → (bs : Bytes) × ((link.bulk_in self.in_ 13 w).1 ≡ some bs)
        × (length bs ≡ 13)
        × (take 4 bs ≡ awus_magic)
        × (get_or bs 12 0 ≡ 0)
        × (sent ((link.bulk_in self.in_ 13 w).0) ≡ sent w)

-- The console's memory, by address, and the store of bytes from an address on, wrapping at 2^32.
abbrev pub store : (ℕ → ℕ) → ℕ → Bytes → ℕ → ℕ
store mem a [] = mem
store mem a (b ∷ bs) = store (λ x. if x == a then b else mem x) ((a + 1) % 2 ^ 32) bs

-- The envelope announces `n` bytes in the direction `kind`.
abbrev pub announces : ℕ → ℕ → Bytes → Bool
announces kind n envelope = bytes_eq envelope (usb_request_bytes (usb_request kind n))

-- The console follows the protocol: a write is an envelope, a request of 16 bytes, an envelope, the payload
-- of the announced length, at most a chunk, and the envelope of the status. Anything else ends the replay.
abbrev pub replay : List Bytes → (ℕ → ℕ) → ℕ → ℕ
replay (e1 ∷ request ∷ e2 ∷ payload ∷ e3 ∷ rest) mem =
    if announces aw_usb_write 16 e1
      && (of_le (take 4 request) == aw_fel_write)
      && (of_le (take 4 (drop 8 request)) == length payload)
      && announces aw_usb_write (length payload) e2
      && leb (length payload) chunk_size
      && announces aw_usb_read 8 e3
    then replay rest (store mem (of_le (take 4 (drop 4 request))) payload)
    else mem
replay log mem = mem

store-append :
    (mem : ℕ → ℕ) (a : ℕ) (xs ys : Bytes)
    → a < 2 ^ 32
    → store mem a (xs ++ ys) ≡ store (store mem a xs) ((a + length xs) % 2 ^ 32) ys
store-append mem a [] ys h = let e : (a + 0) % 2 ^ 32 ≡ a = omega arith in rw e refl
store-append mem a (x ∷ xs) ys h =
    let e : ((a + 1) % 2 ^ 32 + length xs) % 2 ^ 32 ≡ (a + length (x ∷ xs)) % 2 ^ 32 =
      omega arith in
    subst
      (λ (k : ℕ).
        store (λ z. if z == a then x else mem z) ((a + 1) % 2 ^ 32) (xs ++ ys)
        ≡ store (store (λ z. if z == a then x else mem z) ((a + 1) % 2 ^ 32) xs) k ys)
      e (store-append (λ z. if z == a then x else mem z) ((a + 1) % 2 ^ 32) xs ys (omega arith))

module _ {W : Type 0} (sent : W → List Bytes) where
  -- A step that succeeds from every world and sends `log`.
  abbrev Sends : {A : Type 0} → Fel W A → List Bytes → Type 0
  Sends {A = A} m log =
      (w : W) → (w' : W) × (a : A) × (m w ≡ (w', ok a)) × (sent w' ≡ sent w ++ log)

  Sends-pure : {A : Type 0} (a : A) → Sends (pure a) []
  Sends-pure a w = (w, a, refl, sym (append-nil (sent w)))

  Sends-then :
      {A B : Type 0} (m : Fel W A) (f : A → Fel W B) (log1 log2 : List Bytes)
      → Sends m log1
      → ((a : A) → Sends (f a) log2)
      → Sends (m >>= f) (log1 ++ log2)
  Sends-then m f log1 log2 hm hf w =
      let (w1, a, e1, s1) = hm w in
      let (w2, b, e2, s2) = hf a w1 in
      (
        w2,
        b,
        rw e1 e2,
        s2 ∙ ap (λ (l : List Bytes). l ++ log2) s1 ∙ append_assoc (sent w) log1 log2,
      )

module _ {W : Type 0} (link : Usb W) (self : FelDevice) (sent : W → List Bytes)
    (h : IsObliging link self sent) where
  bulk_out-Sends : (bytes : Bytes) → Sends sent (bulk_out link self bytes) (bytes ∷ [])
  unfolding bulk_out
  bulk_out-Sends bytes w =
      let (e, s) = h.takes bytes w in ((link.bulk_out self.out bytes w).0, tt, rw e refl, s)

  bulk_in-some :
      (n : ℕ) (bs : Bytes) (w : W)
      → (link.bulk_in self.in_ n w).1 ≡ some bs
      → length bs ≡ n
      → bulk_in link self n w ≡ ((link.bulk_in self.in_ n w).0, ok bs)
  unfolding bulk_in
  bulk_in-some n bs w e l =
      let l' : (length bs == n) ≡ true = ground arith in rw (e, bulk_in, l') refl

  answer-Sends : Sends sent (bulk_in link self 8) []
  answer-Sends w =
      let (bs, e, l, s) = h.answers w in
      ((link.bulk_in self.in_ 8 w).0, bs, bulk_in-some 8 bs w e l, s ∙ sym (append-nil (sent w)))

  check_status-ok :
      (bs : Bytes) (w : W)
      → length bs ≡ 13
      → take 4 bs ≡ awus_magic
      → get_or bs 12 0 ≡ 0
      → check_status bs w ≡ (w, ok tt)
  unfolding check_status
  check_status-ok bs w l m c =
      let l' : (length bs == 13) ≡ true = ground arith in rw (l', check_status, m, c) refl

  read_status-Sends : Sends sent (read_status link self) []
  unfolding read_status
  read_status-Sends w =
      let (bs, e, l, m, c, s) = h.accepts w in
      let w' = (link.bulk_in self.in_ 13 w).0 in
      (
        w',
        tt,
        ap (λ r. after r (λ buf. check_status buf)) (bulk_in-some 13 bs w e l)
            ∙ check_status-ok bs w' l m c,
        s ∙ sym (append-nil (sent w)),
      )

  -- The messages of a request, of a payload, and of the status.
  abbrev envelope : ℕ → ℕ → Bytes
  envelope kind n = usb_request_bytes (usb_request kind n)

  abbrev request_log : ℕ → ℕ → ℕ → List Bytes
  request_log req addr len =
      envelope aw_usb_write 16 ∷ fel_request_bytes (fel_request_of req addr len) ∷ []

  fel_request-Sends :
      (req addr len : ℕ)
      → Sends sent (fel_request link self req addr len) (request_log req addr len)
  unfolding fel_request
  fel_request-Sends req addr len =
      let message = fel_request_bytes (fel_request_of req addr len) in
      Sends-then sent _ _ (envelope aw_usb_write 16 ∷ []) (message ∷ [])
        (bulk_out-Sends (envelope aw_usb_write 16))
        (λ a.
          Sends-then sent _ _ (message ∷ []) [] (bulk_out-Sends message) (λ b. read_status-Sends))

  fel_write_data-Sends :
      (bytes : Bytes)
      → length bytes < 2 ^ 32
      → Sends sent
          (fel_write_data link self bytes)
          (envelope aw_usb_write (length bytes) ∷ bytes ∷ [])
  unfolding fel_write_data
  fel_write_data-Sends bytes hl =
      let e : length bytes % 2 ^ 32 ≡ length bytes = omega arith in
      Sends-then sent _ _ (envelope aw_usb_write (length bytes) ∷ []) (bytes ∷ [])
        (subst
          (λ (n : ℕ).
            Sends sent (bulk_out link self (envelope aw_usb_write (length bytes % 2 ^ 32)))
              (envelope aw_usb_write n ∷ []))
          e (bulk_out-Sends (envelope aw_usb_write (length bytes % 2 ^ 32))))
        (λ a. Sends-then sent _ _ (bytes ∷ []) [] (bulk_out-Sends bytes) (λ b. read_status-Sends))

  read_fel_status-Sends : Sends sent (read_fel_status link self) (envelope aw_usb_read 8 ∷ [])
  unfolding read_fel_status fel_read_data
  read_fel_status-Sends =
      Sends-then sent _ _ (envelope aw_usb_read 8 ∷ []) []
        (Sends-then sent _ _ (envelope aw_usb_read 8 ∷ []) []
          (bulk_out-Sends (envelope aw_usb_read 8))
          (λ a.
            Sends-then sent _ _ [] [] answer-Sends
              (λ bs. Sends-then sent _ _ [] [] read_status-Sends (λ b. Sends-pure sent bs))))
        (λ a. Sends-pure sent tt)

  -- The five messages of one chunk.
  abbrev chunk_log : ℕ → Bytes → List Bytes
  chunk_log addr chunk =
      envelope aw_usb_write 16
      ∷ fel_request_bytes (fel_request_of aw_fel_write addr (length chunk))
      ∷ envelope aw_usb_write (length chunk)
      ∷ chunk
      ∷ envelope aw_usb_read 8
      ∷ []

  replay-chunk :
      (addr : ℕ) (chunk : Bytes) (rest : List Bytes) (mem : ℕ → ℕ)
      → addr < 2 ^ 32
      → length chunk ≤ chunk_size
      → replay (chunk_log addr chunk ++ rest) mem ≡ replay rest (store mem addr chunk)
  replay-chunk addr chunk rest mem ha hc =
      let e1 : of_le (le_bytes 4 addr) ≡ addr = of_le-le_bytes 4 addr ha in
      let e2 : of_le (le_bytes 4 (length chunk)) ≡ length chunk =
        of_le-le_bytes 4 (length chunk) (omega arith) in
      let e3 = bytes_eq_refl (envelope aw_usb_write (length chunk)) in
      let e4 : (length chunk == length chunk) ≡ true = ground arith in
      let e5 : leb (length chunk) chunk_size ≡ true = ground arith in rw (e1, e2, e3, e4, e5) refl

  module _ (on_chunk : ℕ → W → W) (quiet : (n : ℕ) (w : W) → sent (on_chunk n w) ≡ sent w) where
    report-Sends : (n : ℕ) → Sends sent (λ w. (on_chunk n w, ok (tt {0}))) []
    report-Sends n w = (on_chunk n w, tt, refl, quiet n w ∙ sym (append-nil (sent w)))

    write_loop-Sends :
        (fuel cur : ℕ) (bytes : Bytes)
        → length bytes ≤ fuel
        → cur < 2 ^ 32
        → (log : List Bytes) × Sends sent (write_loop link self on_chunk fuel cur bytes) log
          × ((mem : ℕ → ℕ) → replay log mem ≡ store mem cur bytes)
    unfolding write_loop
    write_loop-Sends zero cur [] hf hc = ([], Sends-pure sent tt, λ mem. refl)
    write_loop-Sends (suc fuel) cur [] hf hc = ([], Sends-pure sent tt, λ mem. refl)
    write_loop-Sends zero cur (b ∷ bs) hf hc = absurd (omega arith)
    write_loop-Sends (suc fuel) cur (b ∷ bs) hf hc =
        let chunk : Bytes = take chunk_size (b ∷ bs) in
        let rest : Bytes = drop chunk_size (b ∷ bs) in
        let lc = length-take chunk_size (b ∷ bs) in
        let lr = length-drop chunk_size (b ∷ bs) in
        let hl : length chunk ≤ chunk_size = omega (arith, lc) in
        let (log, s, r) =
          write_loop-Sends fuel ((cur + length chunk) % 2 ^ 32) rest (omega (arith, lc, lr))
            (omega arith) in
        (
          chunk_log cur chunk ++ log,
          Sends-then sent _ _ (request_log aw_fel_write cur (length chunk))
              (envelope aw_usb_write (length chunk) ∷ chunk ∷ envelope aw_usb_read 8 ∷ log)
              (fel_request-Sends aw_fel_write cur (length chunk))
              (λ a.
                Sends-then sent _ _ (envelope aw_usb_write (length chunk) ∷ chunk ∷ [])
                  (envelope aw_usb_read 8 ∷ log) (fel_write_data-Sends chunk (omega arith))
                  (λ b.
                    Sends-then sent _ _ (envelope aw_usb_read 8 ∷ []) log read_fel_status-Sends
                      (λ c. Sends-then sent _ _ [] log (report-Sends (length chunk)) (λ d. s)))),
          λ mem.
              replay-chunk cur chunk log mem hc hl
              ∙ r (store mem cur chunk)
              ∙ sym (store-append mem cur chunk rest hc)
              ∙ ap (store mem cur) (take-append-drop chunk_size (b ∷ bs)),
        )

    require_fel-ok : (w : W) → self.state ≡ fel → require_fel link self w ≡ (w, ok tt)
    unfolding require_fel
    require_fel-ok w hs = rw hs refl

    -- Over a link that takes and acknowledges every transfer, and with a callback that sends nothing itself, a
    -- write of any bytes at a 32-bit address in the FEL state returns without an error, and a console that
    -- follows the protocol has the bytes in its memory from that address on, as if they had come in one piece.
    pub write_progress-replay :
        (addr : ℕ) (bytes : Bytes) (w : W)
        → self.state ≡ fel
        → addr < 2 ^ 32
        → (w' : W) × (log : List Bytes) × (write_progress link self addr bytes on_chunk w
            ≡ (w', ok tt))
          × (sent w' ≡ sent w ++ log)
          × ((mem : ℕ → ℕ) → replay log mem ≡ store mem addr bytes)
    unfolding write_progress
    write_progress-replay addr bytes w hs ha =
        let (log, s, r) = write_loop-Sends (length bytes) addr bytes (omega arith) ha in
        let (w', u, e, l) = s w in (w', log, rw (require_fel-ok w hs) e, l, r)
