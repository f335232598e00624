-- ===== src/Entropy/VarInt/Read.antt =====
-- What `ReadVarInt` reads of the bytes that `WriteVarInt` writes.
use kanzi_go.Base.{
  ℕ, suc, ◌+◌, ◌*◌, ◌/◌, ◌%◌, ◌^◌, ◌<◌, ◌≤◌, ◌≡◌, ap, ◌∙◌, List, [], ◌∷◌, ◌++◌, leb, ltb, arith,
  if◌then◌else◌, Exec, ok, Bool-cases, inl, inr, bit_or, bit_and, append_assoc, u32, shl, true,
  false,
}
use kanzi_go.Base.Masks.{and_mask, or_fields_high}
use kanzi_go.Base.Pow.{two_pow_mono}
use native.Mathlib.Nat.{mod-eq_of_lt}
use kanzi_go.Base.Digits.{bits, byte_bits}
use kanzi_go.Bitstream.Api.{InputBitStream}
use kanzi_go.Entropy.VarInt.{read_fourth, read_third, read_var_int}
use kanzi_go.Entropy.VarInt.Format.{first, groups, more, groups-suc, var_int_bytes}

-- The group that a byte adds, and its place.
first-mod : (v : ℕ) → first v < 256 × (first v % 128 ≡ v % 128)
first-mod v = ground arith

first-ltb : (v : ℕ) → v < 2 ^ 32 → ltb (first v) 128 ≡ ltb v 128
first-ltb v h = ground arith

first-last : (v : ℕ) → leb 128 v ≡ false → ltb (first v) 128 ≡ true
first-last v h = ground arith

first-more : (v : ℕ) → leb 128 v ≡ true → ltb (first v) 128 ≡ false
first-more v h = ground arith

no_more : (k v : ℕ) → leb 128 v ≡ false → more k (v / 128) ≡ []
no_more k v h = ground arith

-- The bits of a byte below the top one, shifted to their place; nothing wraps in a uint32.
add_group :
    (r v k : ℕ)
    → r < 2 ^ k
    → k ≤ 21
    → bit_or r (u32 (shl (bit_and (first v) 0x7F) k)) ≡ r + v % 128 * 2 ^ k
add_group r v k h hk =
    rw (and_mask 7 (first v), (first-mod v).1, fits) (or_fields_high k (v % 128) r h)
  where
    fits : u32 (v % 128 * 2 ^ k) ≡ v % 128 * 2 ^ k
    fits = mod-eq_of_lt (grind (arith, two_pow_mono k 21 hk))

-- The fifth byte.
abbrev pub unread : ℕ → List ℕ
unread v = if leb (2 ^ 28) v then v / 2 ^ 28 ∷ [] else []

module _ (in_ : InputBitStream) where
  open in_ use {State, remaining, IsOpen, read_bits_law}

  -- The call returned `v`, and left `rest`.
  record Read (v : ℕ) (rest : List ℕ) (r : Exec (ℕ × State)) : Type 0 where
    state : State
    returns : r ≡ ok (v, state)
    still_open : IsOpen state
    left : remaining state ≡ rest

  read_group :
      (k : ℕ) (s : State) (v : ℕ) (rest : List ℕ)
      → IsOpen s
      → remaining s ≡ byte_bits (groups (suc k) v) ++ rest
      → Read (first v) (byte_bits (more k v) ++ rest) (in_.read_bits s 8)
  read_group k s v rest o h =
      let e : remaining s ≡ bits 8 (first v) ++ (byte_bits (more k v) ++ rest) =
        h
        ∙ ap (λ g. byte_bits g ++ rest) (groups-suc k v)
        ∙ append_assoc (bits 8 (first v)) (byte_bits (more k v)) rest in
      let (s', r, o', l) = read_bits_law s (first v) 8 _ o (omega arith) (omega arith) e in
      record {
        state = s';
        returns = r ∙ ap (λ n. ok (n, s')) (omega (arith, first-mod v));
        still_open = o';
        left = l;
      }

  -- Nothing is read behind a last byte.
  stop :
      (k : ℕ) (s : State) (v res total : ℕ) (rest : List ℕ)
      → IsOpen s
      → leb 128 v ≡ false
      → remaining s ≡ byte_bits (more k v) ++ rest
      → res ≡ total
      → Read total rest (ok (res, s))
  stop k s v res total rest o small h e = record {
    state = s;
    returns = ap (λ n. ok (n, s)) e;
    still_open = o;
    left = h ∙ rw small;
  }

  -- Behind the byte of `v`: nothing, or the fourth group.
  read_fourth_lem :
      (s : State) (v res : ℕ) (rest : List ℕ)
      → IsOpen s
      → v < 2 ^ 18
      → res < 2 ^ 21
      → remaining s ≡ byte_bits (more 1 v) ++ rest
      → Read
          (res + v / 128 % 128 * 2 ^ 21)
          (byte_bits (more 0 (v / 128)) ++ rest)
          (read_fourth in_ s (first v) res)
  unfolding read_fourth
  read_fourth_lem s v res rest o hv hr h = elim (Bool-cases (leb 128 v)) [
    | inr small ↦
        rw (first-last v small, no_more 0 v small, read_fourth)
          (stop 1 s v res _ rest o small h (ground arith))
    | inl big ↦
        let r = read_group 0 s (v / 128) rest o (h ∙ rw big) in
        rw (first-more v big, r.returns, read_fourth)
          (record {
            state = r.state;
            returns = ap (λ n. ok (n, r.state)) (add_group res (v / 128) 21 hr (omega arith));
            still_open = r.still_open;
            left = r.left;
          })
  ]

  read_third_lem :
      (s : State) (v res : ℕ) (rest : List ℕ)
      → IsOpen s
      → v < 2 ^ 25
      → res < 2 ^ 14
      → remaining s ≡ byte_bits (more 2 v) ++ rest
      → Read
          (res + v / 128 % 128 * 2 ^ 14 + v / 128 / 128 % 128 * 2 ^ 21)
          (byte_bits (more 0 (v / 128 / 128)) ++ rest)
          (read_third in_ s (first v) res)
  unfolding read_third
  read_third_lem s v res rest o hv hr h = elim (Bool-cases (leb 128 v)) [
    | inr small ↦
        rw (first-last v small, no_more 0 (v / 128) (ground arith), read_third)
          (stop 2 s v res _ rest o small h (ground arith))
    | inl big ↦
        let r = read_group 1 s (v / 128) rest o (h ∙ rw big) in
        rw (first-more v big, r.returns, read_third)
          (rw (add_group res (v / 128) 14 hr (omega arith)) (
            read_fourth_lem r.state (v / 128) (res + v / 128 % 128 * 2 ^ 14) rest r.still_open
              (omega arith) (omega arith) r.left))
  ]

  read_var_int_Read :
      (s : State) (v : ℕ) (rest : List ℕ)
      → IsOpen s
      → v < 2 ^ 32
      → remaining s ≡ byte_bits (var_int_bytes v) ++ rest
      → Read (v % 2 ^ 28) (byte_bits (more 0 (v / 128 / 128 / 128)) ++ rest) (read_var_int in_ s)
  unfolding read_var_int
  read_var_int_Read s v rest o hv h =
      let r = read_group 3 s v rest o h in
      rw r.returns (elim (Bool-cases (leb 128 v)) [
        | inr small ↦
            rw (first-last v small, no_more 0 (v / 128 / 128) (ground arith))
              (stop 3 r.state v (first v) (v % 2 ^ 28) rest r.still_open small r.left
                (ground arith))
        | inl big ↦
            let r' = read_group 2 r.state (v / 128) rest r.still_open (r.left ∙ rw big) in
            rw (first-more v big, r'.returns)
              (rw
                (
                  and_mask 7 (first v),
                  (first-mod v).1,
                  add_group (v % 128) (v / 128) 7 (omega arith) (omega arith),
                )
                (third r'.state r'.still_open r'.left))
      ])
    where
      value :
          v % 128
            + v / 128 % 128 * 2 ^ 7
            + v / 128 / 128 % 128 * 2 ^ 14
            + v / 128 / 128 / 128 % 128 * 2 ^ 21
          ≡ v % 2 ^ 28
      value = omega arith

      third :
          (t : State)
          → IsOpen t
          → remaining t ≡ byte_bits (more 2 (v / 128)) ++ rest
          → Read
              (v % 2 ^ 28)
              (byte_bits (more 0 (v / 128 / 128 / 128)) ++ rest)
              (read_third in_ t (first (v / 128)) (v % 128 + v / 128 % 128 * 2 ^ 7))
      third t o' l = rw (← value) (
          read_third_lem t (v / 128) (v % 128 + v / 128 % 128 * 2 ^ 7) rest o' (omega arith)
            (omega arith) l)

  -- From the bytes of a uint32 `ReadVarInt` reads at most four: it returns the 28 lowest bits, and
  -- leaves the fifth byte, if there is one, on the stream.
  pub read_var_int_lem :
      (s : State) (v : ℕ) (rest : List ℕ)
      → IsOpen s
      → v < 2 ^ 32
      → remaining s ≡ byte_bits (var_int_bytes v) ++ rest
      → (s' : State) × (read_var_int in_ s ≡ ok (v % 2 ^ 28, s'))
        × IsOpen s'
        × (remaining s' ≡ byte_bits (unread v) ++ rest)
  read_var_int_lem s v rest o hv h =
      let r = read_var_int_Read s v rest o hv h in
      let left : more 0 (v / 128 / 128 / 128) ≡ unread v = unfold groups in ground arith in
      (r.state, r.returns, r.still_open, r.left ∙ ap (λ b. byte_bits b ++ rest) left)
