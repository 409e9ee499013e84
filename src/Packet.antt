-- ===== src/Packet.antt =====
-- The reading of packets, `wcmReadPacket` of src/wcmCommon.c. The model's parser, which the code calls through
-- a pointer, is a parameter: from the bytes and its own state it gives the count of the bytes used.
mod Tests
use xf86_input_wacom.Prelude.{
  ℕ, zero, suc, ◌+◌, ◌-◌, ◌≤◌, ◌<◌, ◌≡◌, refl, sym, ap, ◌∙◌, ◌⊎◌, inl, inr, Bool, true, false,
  Bool-cases, List, [], ◌∷◌, ◌++◌, drop, length, length-append, length-drop, ltb, leb, ◌==◌,
  if◌then◌else◌, arith,
}
use xf86_input_wacom.Prelude.Int.{ℤ, pos, pos_part, leb_ℤ}

-- The loop's end: the parser's state, the bytes used and those left; or a count above the bytes given.
pub data Outcome {ℓ} (S : Type ℓ) : Type ℓ where
  parsed : S → ℕ → List ℕ → Outcome S
  overrun : Outcome S
  out_of_fuel : Outcome S

module _ {ℓ} {S : Type ℓ} (parse : S → List ℕ → ℤ × S) where
  -- `while (len > 0)`; the buffer's bytes from `pos` on are the list.
  unfoldable pub parse_loop : ℕ → S → ℕ → List ℕ → Outcome S
  parse_loop zero s used bytes = out_of_fuel
  parse_loop (suc fuel) s used bytes =
      let (cnt, s') = parse s bytes in
      let rest = parse_loop fuel s' (used + pos_part cnt) (drop (pos_part cnt) bytes) in
      if length bytes == 0
      then parsed s used bytes
      else if leb_ℤ cnt (pos 0)
      then parsed s' used bytes
      else if ltb (length bytes) (pos_part cnt)
      then overrun
      else rest

  -- `wcmReadPacket`, once `read` put `input` behind the bytes kept: what stays is moved down.
  unfoldable pub read_packet : S → List ℕ → List ℕ → Outcome S
  read_packet s kept input = parse_loop (suc (length kept + length input)) s 0 (kept ++ input)

  -- The parser never counts more bytes than it was given.
  abbrev pub IsHonest : Type ℓ
  IsHonest = (s : S) (bytes : List ℕ) → pos_part (parse s bytes).0 ≤ length bytes

  -- The parser would not go on with these bytes.
  abbrev pub Stops : S → List ℕ → Type ℓ
  Stops s bytes =
      (s0 : S) × (((length bytes == 0) ≡ true)
        ⊎ ((leb_ℤ (parse s0 bytes).0 (pos 0) ≡ true) × (s ≡ (parse s0 bytes).1)))

  -- From `used` and `bytes`: the bytes used now and those left are the same bytes, and the parser is done
  -- with those left.
  pub record Reads (used : ℕ) (bytes : List ℕ) (o : Outcome S) : Type ℓ where
    pub state : S
    pub count : ℕ
    pub ends : o ≡ parsed state (used + count) (drop count bytes)
    pub count_le : count ≤ length bytes
    pub stops : Stops state (drop count bytes)

  suc_sum : (m n : ℕ) → suc (m + n) ≡ suc m + n
  suc_sum m n = omega arith

  drop_nil : (n : ℕ) → drop {A = ℕ} n [] ≡ []
  drop_nil zero = refl
  drop_nil (suc n) = refl

  drop-drop : (m n : ℕ) (bytes : List ℕ) → drop n (drop m bytes) ≡ drop (m + n) bytes
  drop-drop zero n bytes = ap (λ (k : ℕ). drop k bytes) (omega arith)
  drop-drop (suc m) n [] = drop_nil n ∙ sym (drop_nil (suc m + n))
  drop-drop (suc m) n (b ∷ bytes) =
      drop-drop m n bytes ∙ ap (λ (k : ℕ). drop k (b ∷ bytes)) (suc_sum m n)

  Reads-more :
      (used c : ℕ) (bytes : List ℕ) (o : Outcome S)
      → c ≤ length bytes
      → Reads (used + c) (drop c bytes) o
      → Reads used bytes o
  Reads-more used c bytes o le f = record {
    state = f.state;
    count = c + f.count;
    ends =
        f.ends
        ∙ rw (drop-drop c f.count bytes)
            (ap (λ (k : ℕ). parsed f.state k (drop (c + f.count) bytes)) (omega arith));
    count_le = omega (arith, f.count_le, length-drop c bytes);
    stops = rw (← drop-drop c f.count bytes) f.stops;
  }

  parse_loop-Reads :
      IsHonest
      → (fuel : ℕ) (s : S) (used : ℕ) (bytes : List ℕ) → length bytes < fuel
      → Reads used bytes (parse_loop fuel s used bytes)
  unfolding parse_loop
  parse_loop-Reads honest zero s used bytes lt = absurd (omega arith)
  parse_loop-Reads honest (suc fuel) s used bytes lt = elim (Bool-cases (length bytes == 0)) [
    | inl empty ↦ rw empty record {
      state = s;
      count = 0;
      ends = ap (λ (k : ℕ). parsed s k bytes) (omega arith);
      count_le = omega arith;
      stops = (s, inl empty);
    }
    | inr some_left ↦ elim (Bool-cases (leb_ℤ (parse s bytes).0 (pos 0))) [
      | inl stop ↦
          rw (some_left, stop)
            record {
              state = (parse s bytes).1;
              count = 0;
              ends = ap (λ (k : ℕ). parsed (parse s bytes).1 k bytes) (omega arith);
              count_le = omega arith;
              stops = (s, inr (stop, refl));
            }
      | inr go ↦
          rw (some_left, go, fits)
            (Reads-more used (pos_part (parse s bytes).0) bytes _ (honest s bytes) (
              parse_loop-Reads honest fuel (parse s bytes).1 _ _
                (omega (arith, length-drop (pos_part (parse s bytes).0) bytes, moves go))))
    ]
  ]
    where
      fits : ltb (length bytes) (pos_part (parse s bytes).0) ≡ false
      fits = ground (arith, honest s bytes)

      moves : leb_ℤ (parse s bytes).0 (pos 0) ≡ false → 0 < pos_part (parse s bytes).0
      moves go = ground arith

  -- With a parser that never counts more bytes than it is given, reading a packet ends: it uses the first bytes
  -- of those kept and those read, in their order, and keeps the rest, of which the parser takes none.
  pub read_packet-Reads :
      IsHonest → (s : S) (kept input : List ℕ) → Reads 0 (kept ++ input) (read_packet s kept input)
  unfolding read_packet
  read_packet-Reads honest s kept input =
      parse_loop-Reads honest _ s 0 (kept ++ input) (omega (arith, length-append kept input))
