-- ===== src/Mzs/Twister/Counters.antt =====
-- The counters of `init_by_array` of mt19937.rs.
use project_chronos_engine.Prelude.{
  ℕ, zero, suc, ◌+◌, ◌≤◌, ◌<◌, List, length, leb, Bool-cases, inl, inr, arith,
}
use project_chronos_engine.Mzs.Twister.{
  Cursor, advance, key_round, key_rounds, last_round, last_rounds, n_words,
}

-- The index into the array and the one before it are within it.
abbrev pub InArray : ℕ → Type 0
InArray i = (1 ≤ i) × (i < 624)

abbrev pub InBounds : List ℕ → Cursor → Type 0
InBounds init_key c = InArray c.i × (c.j < length init_key)

advance-InArray : (i : ℕ) (mt : List ℕ) → InArray i → InArray ((advance i mt).1)
unfolding advance
advance-InArray i mt h = elim (Bool-cases (leb n_words (i + 1))) [
  | inl e ↦ rw e (omega arith, omega arith)
  | inr e ↦ rw e (omega arith, ground arith)
]

key_round-InBounds :
    (init_key : List ℕ) (c : Cursor)
    → InBounds init_key c
    → InBounds init_key (key_round init_key c)
unfolding key_round
key_round-InBounds init_key c h = (advance-InArray c.i _ h.0, ground (arith, h.1))

key_rounds-InBounds :
    (rounds : ℕ) (init_key : List ℕ) (c : Cursor)
    → InBounds init_key c
    → InBounds init_key (key_rounds rounds init_key c)
unfolding key_rounds
key_rounds-InBounds zero init_key c h = h
key_rounds-InBounds (suc rounds) init_key c h =
    key_rounds-InBounds rounds init_key (key_round init_key c) (key_round-InBounds init_key c h)

last_round-InArray : (c : Cursor) → InArray c.i → InArray (last_round c).i
unfolding last_round
last_round-InArray c h = advance-InArray c.i _ h

last_rounds-InArray : (rounds : ℕ) (c : Cursor) → InArray c.i → InArray (last_rounds rounds c).i
unfolding last_rounds
last_rounds-InArray zero c h = h
last_rounds-InArray (suc rounds) c h =
    last_rounds-InArray rounds (last_round c) (last_round-InArray c h)

-- With a key that is not empty, after any number of rounds of the two loops from the start of the array, the index
-- and the one before it lie within the array, and in the first loop the index into the key lies within the key.
pub counters_bound :
    (init_key mt : List ℕ) (rounds more : ℕ)
    → 0 < length init_key
    → InBounds init_key (key_rounds rounds init_key (record { mt = mt; i = 1; j = 0 }))
      × InArray (last_rounds more (key_rounds rounds init_key (record { mt = mt; i = 1; j = 0 }))).i
counters_bound init_key mt rounds more h =
    let k =
      key_rounds-InBounds rounds init_key (record { mt = mt; i = 1; j = 0 })
        ((omega arith, omega arith), h) in
    (
      k,
      last_rounds-InArray more (key_rounds rounds init_key (record { mt = mt; i = 1; j = 0 })) k.0,
    )
