-- ===== src/Entropy/VarInt/Write.antt =====
-- What `WriteVarInt` writes, and what it returns.
use kanzi_go.Base.{
  ℕ, zero, suc, ◌+◌, ◌/◌, ◌%◌, ◌^◌, ◌<◌, ◌≡◌, refl, ap, ◌∙◌, List, [], ◌∷◌, ◌++◌, leb, arith,
  length, Exec, ok, Bool-cases, inl, inr, bit_or, bit_and, append_assoc, append-nil, u64, ◌>>=◌,
  true, false,
}
use kanzi_go.Base.Masks.{and_mask, or_fields}
use kanzi_go.Base.Digits.{bits, byte_bits}
use kanzi_go.Bitstream.Api.{OutputBitStream}
use kanzi_go.Entropy.VarInt.{write_groups, write_var_int}
use kanzi_go.Entropy.VarInt.Format.{groups, groups-big, groups-small, var_int_bytes, length-groups}
use native.Mathlib.Nat.{pow-suc}

continuation_byte : (v : ℕ) → u64 (bit_or 0x80 (bit_and v 0x7F)) ≡ 128 + v % 128
continuation_byte v = omega (
  arith,
  and_mask 7 v,
  or_fields 7 1 (v % 128) (omega arith),
  ap (λ (t : ℕ). bit_or 128 t) (and_mask 7 v),
)

module _ (out : OutputBitStream) where
  open out use {State, contents, IsOpen, write_bits_law}

  -- The loop ended, after writing the bytes `bs`.
  record Wrote (s : State) (bs : List ℕ) (res : ℕ) (r : Exec (State × ℕ)) : Type 0 where
    state : State
    returns : r ≡ ok (state, res)
    still_open : IsOpen state
    written : contents state ≡ contents s ++ byte_bits bs

  round_more :
      (k : ℕ) (s : State) (v res : ℕ)
      → leb 128 v ≡ true
      → write_groups out (suc k) s v res
        ≡ (out.write_bits s (128 + v % 128) 8 >>= λ s'. write_groups out k s' (v / 128) (res + 1))
  unfolding write_groups
  round_more k s v res big = rw (big, write_groups) (rw continuation_byte)

  round_last :
      (k : ℕ) (s : State) (v res : ℕ)
      → leb 128 v ≡ false
      → write_groups out (suc k) s v res ≡ (out.write_bits s v 8 >>= λ s'. ok (s', res))
  unfolding write_groups
  round_last k s v res small = rw (small, write_groups)

  write_last :
      (k : ℕ) (s : State) (v res : ℕ)
      → IsOpen s
      → leb 128 v ≡ false
      → Wrote s (v ∷ []) (res + 0) (write_groups out (suc k) s v res)
  write_last k s v res o small =
      let (s', e, o', c) = write_bits_law s v 8 o (omega arith) (omega arith) in
      record {
        state = s';
        returns = rw (round_last k s v res small, e) (ap (λ n. ok (s', n)) (omega arith));
        still_open = o';
        written = c ∙ rw append-nil;
      }

  -- With fuel for the groups, all of them are written, and `res` counts all but one.
  write_groups_lem :
      (k : ℕ) (s : State) (v res : ℕ)
      → IsOpen s
      → v < 128 ^ suc k
      → (n : ℕ) × (length (groups k v) ≡ n + 1)
        × Wrote s (groups k v) (res + n) (write_groups out (suc k) s v res)
  write_groups_lem zero s v res o h =
      let small : leb 128 v ≡ false = ground arith in
      rw (groups-small zero v small) (0, refl, write_last zero s v res o small)
  write_groups_lem (suc k) s v res o h = elim (Bool-cases (leb 128 v)) [
    | inr small ↦ rw (groups-small (suc k) v small) (0, refl, write_last (suc k) s v res o small)
    | inl big ↦
        let (s', e, o', c) = write_bits_law s (128 + v % 128) 8 o (omega arith) (omega arith) in
        let (n, l, w) =
          write_groups_lem k s' (v / 128) (res + 1) o' (omega (arith, h, pow-suc 128 (suc k))) in
        rw (groups-big k v big) (
          n + 1,
          omega arith,
          record {
            state = w.state;
            returns =
                rw (round_more (suc k) s v res big, e)
                  (w.returns ∙ ap (λ m. ok (w.state, m)) (omega arith));
            still_open = w.still_open;
            written =
                w.written
                ∙ ap (λ b. b ++ byte_bits (groups k (v / 128))) c
                ∙ append_assoc (contents s) (bits 8 (128 + v % 128))
                    (byte_bits (groups k (v / 128)));
          },
        )
  ]

  -- On an open stream `WriteVarInt` writes the bytes of a uint32, at most five, and leaves the stream
  -- open. What it returns is one less than their number.
  pub write_var_int_lem :
      (s : State) (v : ℕ)
      → IsOpen s
      → v < 2 ^ 32
      → (s' : State) × (n : ℕ) × (write_var_int out s v ≡ ok (s', n))
        × IsOpen s'
        × (contents s' ≡ contents s ++ byte_bits (var_int_bytes v))
        × (length (var_int_bytes v) ≡ n + 1)
        × (n < 5)
  unfolding write_var_int
  write_var_int_lem s v o h =
      let (n, l, w) = write_groups_lem 4 s v 0 o (omega arith) in
      (
        w.state,
        n,
        w.returns ∙ ap (λ m. ok (w.state, m)) (omega arith),
        w.still_open,
        w.written,
        l,
        omega (arith, length-groups 4 v),
      )
