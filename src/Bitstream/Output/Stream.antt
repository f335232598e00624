-- ===== src/Bitstream/Output/Stream.antt =====
-- What the fields of an open stream stand for, and how `current` grows.
use kanzi_go.Base.{
  ℕ, ◌+◌, ◌-◌, ◌*◌, ◌/◌, ◌^◌, ◌<◌, ◌≤◌, ◌≡◌, sym, ap, ap₂, ◌∙◌, arith, List, ◌++◌, u64, length,
  append_assoc, length-append,
}
use kanzi_go.Base.Pow.{two_pow_pos, two_pow_add}
use kanzi_go.Base.Fields.{bits-fields}
use kanzi_go.Base.Digits.{bits, byte_bits, length-bits}
use kanzi_go.Bitstream.Sink.{Sink}
use kanzi_go.Bitstream.Output.{BitOutput, bits_written, bytes_of_64}
use kanzi_go.Bitstream.Output.Push.{IsReady, flushed, Pushed, bits-bytes_of_64}
use native.Mathlib.Nat.{mul-lt-mul_of_pos_right, mul-div_cancel}

module _ (os : Sink) where
  -- `used` is the bits of `current` that are in use.
  pub record IsValid (t : BitOutput os) : Type 0 where
    pub ready : IsReady os t
    pub avail_pos : 0 < t.avail_bits
    pub avail_bound : t.avail_bits ≤ 64
    pub used : ℕ
    pub current_eq : t.current ≡ used * 2 ^ t.avail_bits
    pub used_bound : used < 2 ^ (64 - t.avail_bits)

  -- The bits that were written.
  abbrev pub contents : BitOutput os → List ℕ
  contents t = flushed os t ++ bits (64 - t.avail_bits) (t.current / 2 ^ t.avail_bits)

  pub record Extends (t t' : BitOutput os) (new : List ℕ) : Type 0 where
    pub valid : IsValid t'
    pub appended : contents t' ≡ contents t ++ new
    pub counted : bits_written os t' ≡ u64 (bits_written os t + length new)

module _ (os : Sink) where
  pub contents-used :
      (t : BitOutput os) (n used a : ℕ)
      → t.current ≡ used * 2 ^ a
      → flushed os t ++ bits n (t.current / 2 ^ a) ≡ flushed os t ++ bits n used
  contents-used t n used a e =
      ap (λ x. flushed os t ++ bits n x)
        (ap (λ x. x / 2 ^ a) e ∙ mul-div_cancel used (two_pow_pos a))

  -- There is room in `current`.
  pub keep_lem :
      (t : BitOutput os) (v : IsValid os t) (c w count k : ℕ)
      → t.avail_bits ≡ count + k
      → 0 < k
      → w < 2 ^ count
      → c ≡ (v.used * 2 ^ count + w) * 2 ^ k
      → Extends os t (record t { current = c; avail_bits = k }) (bits count w)
  keep_lem t v c w count k e p h f =
      let low = v.avail_pos in
      let high = v.avail_bound in
      let wide : 64 - k ≡ (64 - t.avail_bits) + count = omega arith in
      let bound = v.used_bound in
      record {
        valid = record {
          ready = record {
            is_open = v.ready.is_open;
            room = v.ready.room;
            aligned = v.ready.aligned;
            sized = v.ready.sized;
            whole = v.ready.whole;
            sink_open = v.ready.sink_open;
          };
          avail_pos = p;
          avail_bound = omega arith;
          used = v.used * 2 ^ count + w;
          current_eq = f;
          used_bound = fields_bound v.used w (64 - t.avail_bits) count (64 - k) wide bound h;
        };
        appended =
            contents-used (record t { current = c; avail_bits = k }) (64 - k)
              (v.used * 2 ^ count + w) k f
            ∙ ap (λ n. flushed os t ++ bits n (v.used * 2 ^ count + w)) wide
            ∙ ap (λ x. flushed os t ++ x) (bits-fields (64 - t.avail_bits) count v.used w h)
            ∙ sym (append_assoc (flushed os t) (bits (64 - t.avail_bits) v.used) (bits count w))
            ∙ ap (λ x. x ++ bits count w)
                (sym (contents-used t (64 - t.avail_bits) v.used t.avail_bits v.current_eq));
        counted = omega (arith, length-bits count w);
      }
    where
      fields_bound : (q w m n k : ℕ) → k ≡ m + n → q < 2 ^ m → w < 2 ^ n → q * 2 ^ n + w < 2 ^ k
      fields_bound q w m n k e h i =
          let s = ap (λ x. 2 ^ x) e in
          let p = mul-lt-mul_of_pos_right {m = q} {n = 2 ^ m} {k = 2 ^ n} h (two_pow_pos n) in
          grind (arith, s, two_pow_add m n)

  -- `current` is full, and pushed; the rest of the new bits goes to the next word.
  pub push_on :
      (t u : BitOutput os) (v : IsValid os t) (val hi lo r c : ℕ)
      → Pushed os t u (bytes_of_64 val)
      → val ≡ v.used * 2 ^ t.avail_bits + hi
      → hi < 2 ^ t.avail_bits
      → lo < 2 ^ r
      → r < 64
      → c ≡ lo * 2 ^ (64 - r)
      → Extends os t
          (record u { current = c; avail_bits = 64 - r })
          (bits t.avail_bits hi ++ bits r lo)
  push_on t u v val hi lo r c q d h l k e =
      let a = t.avail_bits in
      let full : 64 ≡ (64 - a) + a = let high = v.avail_bound in omega arith in
      let high = v.avail_bound in
      let low = v.avail_pos in
      let back : 64 - (64 - r) ≡ r = omega arith in
      let counted = q.counted in
      let word : byte_bits (bytes_of_64 val) ≡ bits (64 - a) v.used ++ bits a hi =
        sym (bits-bytes_of_64 val)
        ∙ ap (bits 64) d
        ∙ ap (λ n. bits n (v.used * 2 ^ a + hi)) full
        ∙ bits-fields (64 - a) a v.used hi h in
      record {
        valid = record {
          ready = record {
            is_open = q.ready.is_open;
            room = q.ready.room;
            aligned = q.ready.aligned;
            sized = q.ready.sized;
            whole = q.ready.whole;
            sink_open = q.ready.sink_open;
          };
          avail_pos = omega arith;
          avail_bound = omega arith;
          used = lo;
          current_eq = e;
          used_bound = same_bound lo r (64 - (64 - r)) back l;
        };
        appended =
            contents-used (record u { current = c; avail_bits = 64 - r }) (64 - (64 - r)) lo
              (64 - r) e
            ∙ ap₂ (λ x n. x ++ bits n lo) (q.appended ∙ ap (λ x. flushed os t ++ x) word) back
            ∙ regroup (flushed os t) (bits (64 - a) v.used) (bits a hi) (bits r lo)
            ∙ ap (λ x. x ++ (bits a hi ++ bits r lo))
                (sym (contents-used t (64 - a) v.used a v.current_eq));
        counted = omega (
          arith,
          counted,
          length-append (bits a hi) (bits r lo),
          length-bits a hi,
          length-bits r lo,
        );
      }
    where
      same_bound : (x r n : ℕ) → n ≡ r → x < 2 ^ r → x < 2 ^ n
      same_bound x r n e h = let p = ap (λ m. 2 ^ m) e in omega arith

      regroup : (f b a l : List ℕ) → (f ++ (b ++ a)) ++ l ≡ (f ++ b) ++ (a ++ l)
      regroup f b a l = ap (λ x. x ++ l) (sym (append_assoc f b a)) ∙ append_assoc (f ++ b) a l

  pub with_bits :
      (t t' : BitOutput os) (xs ys : List ℕ) → xs ≡ ys → Extends os t t' xs → Extends os t t' ys
  with_bits t t' xs ys e x = rw (← e) x
