-- ===== src/Mzs/Twister.antt =====
-- editor/crates/m2-mzs/src/mt19937.rs. A u32 is a number below 2^32; the array is a list of 624.
pub mod Bounds
pub mod Counters
use Prim.Native.Nat.{bit_and, bit_or, bit_xor}
use project_chronos_engine.Prelude.{
  ℕ, zero, suc, ◌+◌, ◌-◌, ◌*◌, ◌/◌, ◌%◌, ◌^◌, max, List, [], ◌∷◌, length, get_or, set, replicate,
  leb, ◌==◌, if◌then◌else◌,
}

-- N, M, MATRIX_A, UPPER_MASK and LOWER_MASK.
abbrev pub n_words : ℕ
n_words = 624

abbrev pub m_shift : ℕ
m_shift = 397

abbrev pub matrix_a : ℕ
matrix_a = 0x9908_b0df

pub record Mt19937 : Type 0 where
  pub mt : List ℕ
  pub mti : ℕ

abbrev pub new : Mt19937
new = record { mt = replicate 624 0; mti = 625 }

-- `prev ^ (prev >> 30)`
unfoldable pub mix : ℕ → ℕ
mix prev = bit_xor prev (prev / 2 ^ 30)

-- `for i in 1..N`; `rounds` are left.
unfoldable pub genrand_loop : ℕ → ℕ → List ℕ → List ℕ
unfolding mix
genrand_loop zero i mt = mt
genrand_loop (suc rounds) i mt =
    let prev = get_or mt (i - 1) 0 in
    genrand_loop rounds (i + 1) (set mt i ((1_812_433_253 * mix prev % 2 ^ 32 + i) % 2 ^ 32))

unfoldable pub init_genrand : ℕ → Mt19937 → Mt19937
unfolding genrand_loop
init_genrand s self = record { mt = genrand_loop (n_words - 1) 1 (set self.mt 0 s); mti = n_words }

-- The array and the two counters of `init_by_array`.
pub record Cursor : Type 0 where
  pub mt : List ℕ
  pub i : ℕ
  pub j : ℕ

-- `i += 1`, with the wrap to 1 that copies the last word to the front.
unfoldable pub advance : ℕ → List ℕ → List ℕ × ℕ
advance i mt =
    if leb n_words (i + 1) then (set mt 0 (get_or mt (n_words - 1) 0), 1) else (mt, i + 1)

unfoldable pub key_round : List ℕ → Cursor → Cursor
unfolding mix advance
key_round init_key c =
    let prev = get_or c.mt (c.i - 1) 0 in
    let word =
      ((bit_xor (get_or c.mt c.i 0) (mix prev * 1_664_525 % 2 ^ 32) + get_or init_key c.j 0)
          % 2 ^ 32
        + c.j)
      % 2 ^ 32 in
    let (mt', i') = advance c.i (set c.mt c.i word) in
    record { mt = mt'; i = i'; j = if leb (length init_key) (c.j + 1) then 0 else c.j + 1 }

unfoldable pub key_rounds : ℕ → List ℕ → Cursor → Cursor
key_rounds zero init_key c = c
key_rounds (suc rounds) init_key c = key_rounds rounds init_key (key_round init_key c)

-- `wrapping_sub(i)`; `i` is below 2^32.
unfoldable pub last_round : Cursor → Cursor
unfolding mix advance
last_round c =
    let prev = get_or c.mt (c.i - 1) 0 in
    let word =
      (bit_xor (get_or c.mt c.i 0) (mix prev * 1_566_083_941 % 2 ^ 32) + 2 ^ 32 - c.i) % 2 ^ 32 in
    let (mt', i') = advance c.i (set c.mt c.i word) in record c { mt = mt'; i = i' }

unfoldable pub last_rounds : ℕ → Cursor → Cursor
last_rounds zero c = c
last_rounds (suc rounds) c = last_rounds rounds (last_round c)

unfoldable pub init_by_array : List ℕ → Mt19937 → Mt19937
init_by_array init_key self =
    let seeded = init_genrand 19_650_218 self in
    let k = max n_words (length init_key) in
    let c = key_rounds k init_key (record { mt = seeded.mt; i = 1; j = 0 }) in
    let d = last_rounds (n_words - 1) c in record { mt = set d.mt 0 0x8000_0000; mti = seeded.mti }

-- `(hi & UPPER_MASK) | (lo & LOWER_MASK)`
unfoldable pub join : ℕ → ℕ → ℕ
join hi lo = bit_or (bit_and hi 0x8000_0000) (bit_and lo 0x7fff_ffff)

-- `from ^ (y >> 1) ^ mag01[y & 1]`
unfoldable pub twist : ℕ → ℕ → ℕ
twist from y = bit_xor (bit_xor from (y / 2)) (if bit_and y 1 == 0 then 0 else matrix_a)

-- One word: the word at `kk` from those at `kk`, `next` and `source`.
unfoldable pub twist_at : ℕ → ℕ → ℕ → List ℕ → List ℕ
unfolding join twist
twist_at kk next source mt =
    let y = join (get_or mt kk 0) (get_or mt next 0) in set mt kk (twist (get_or mt source 0) y)

-- `for kk in kk0..` with a fixed shift of the source; `rounds` are left.
unfoldable pub twist_up : ℕ → ℕ → List ℕ → List ℕ
twist_up zero kk mt = mt
twist_up (suc rounds) kk mt = twist_up rounds (kk + 1) (twist_at kk (kk + 1) (kk + m_shift) mt)

unfoldable pub twist_down : ℕ → ℕ → List ℕ → List ℕ
twist_down zero kk mt = mt
twist_down (suc rounds) kk mt =
    twist_down rounds (kk + 1) (twist_at kk (kk + 1) (kk + m_shift - n_words) mt)

unfoldable pub refill : List ℕ → List ℕ
refill mt =
    let up = twist_up (n_words - m_shift) 0 mt in
    let down = twist_down (m_shift - 1) (n_words - m_shift) up in
    twist_at (n_words - 1) 0 (m_shift - 1) down

-- The four tempering steps; `<<` drops the bits beyond 32.
unfoldable pub temper : ℕ → ℕ
temper y0 =
    let y1 = bit_xor y0 (y0 / 2 ^ 11) in
    let y2 = bit_xor y1 (bit_and (y1 * 2 ^ 7 % 2 ^ 32) 0x9d2c_5680) in
    let y3 = bit_xor y2 (bit_and (y2 * 2 ^ 15 % 2 ^ 32) 0xefc6_0000) in bit_xor y3 (y3 / 2 ^ 18)

unfoldable pub genrand_int32 : Mt19937 → Mt19937 × ℕ
genrand_int32 self =
    let s : Mt19937 =
      if leb n_words self.mti then record { mt = refill self.mt; mti = 0 } else self in
    (record s { mti = s.mti + 1 }, temper (get_or s.mt s.mti 0))
