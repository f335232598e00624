-- ===== src/Transform/Zrlt/Decode.antt =====
-- `Inverse` reads the code of a sequence of tokens back to what they stand for.
use kanzi_go.Base.{
  ℕ, zero, suc, ◌+◌, ◌-◌, ◌*◌, ◌/◌, ◌%◌, ◌^◌, ◌≤◌, ◌<◌, ◌≡◌, refl, ap, ◌∙◌, List, [], ◌∷◌, ◌++◌,
  replicate, ◌==◌, leb, arith, length, length-append, length-replicate, append_assoc, append-nil,
  Exec, ok, some, Bool-cases, inl, inr, true, false, sub64, u64, ◌>>=◌, ◌≢◌, ◌||◌,
}
use kanzi_go.Base.Pow.{mod_two_pow_suc, two_pow_suc, two_pow_add, mod_fields, le-mul_two_pow}
use kanzi_go.Internal.Log2.Bounds.{IsLog2}
use kanzi_go.Transform.Api.{Reply}
use kanzi_go.Transform.Zrlt.{
  read_run, write_zeros, write_data, generate_run, inverse_run, inverse_data, bottom_test,
  inverse_loop, end_inverse, reply_inverse, at_end, Inverse, go_on,
}
use kanzi_go.Base.Digits.{bits, length-bits}
use kanzi_go.Transform.Zrlt.Format.{Token, lit, run, literal, expand, code, IsFormed}

read_run_step :
    (acc d : ℕ) (rest : List ℕ)
    → d < 2
    → acc + acc + d < 2 ^ 64
    → read_run acc (d ∷ rest) ≡ read_run (acc + acc + d) rest
unfolding read_run
read_run_step acc d rest hd h =
    let e : u64 (acc + u64 (acc + d)) ≡ acc + acc + d = omega arith in ground arith

read_run-bits :
    (k v acc : ℕ) (rest : List ℕ)
    → acc * 2 ^ k + v % 2 ^ k < 2 ^ 64
    → read_run acc (bits k v ++ rest) ≡ read_run (acc * 2 ^ k + v % 2 ^ k) rest
unfolding bits
read_run-bits zero v acc rest h = ap (λ n. read_run n rest) (omega arith)
read_run-bits (suc k) v acc rest h =
    let d = v / 2 ^ k % 2 in
    let total : (acc + acc + d) * 2 ^ k + v % 2 ^ k ≡ acc * 2 ^ suc k + v % 2 ^ suc k =
      omega (arith, mod_two_pow_suc v k, ap (λ (t : ℕ). acc * t) (two_pow_suc k)) in
    let fits : acc + acc + d ≤ acc * 2 ^ suc k + v % 2 ^ suc k =
      omega (arith, total, le-mul_two_pow (acc + acc + d) k) in
    let step : read_run acc (d ∷ (bits k v ++ rest)) ≡ read_run (acc + acc + d) (bits k v ++ rest) =
      read_run_step acc d (bits k v ++ rest) (omega arith) (omega arith) in
    step ∙ read_run-bits k v (acc + acc + d) rest (omega arith) ∙ ap (λ n. read_run n rest) total

write_zeros_lem :
    (dst_len n : ℕ) (out : List ℕ)
    → length out + n ≤ dst_len
    → write_zeros dst_len n out ≡ ok (out ++ replicate n 0)
unfolding write_zeros
write_zeros_lem dst_len zero out h = ground (arith, append-nil out)
write_zeros_lem dst_len (suc n) out h = ground (
  arith,
  write_zeros_lem dst_len n (out ++ (0 ∷ [])),
  length-append out (0 ∷ []),
  append_assoc out (0 ∷ []) (replicate n 0),
)

-- How a byte is written, and that the code is read back as that byte.
record Written (c : ℕ) : Type 0 where
  first : ℕ
  more : List ℕ
  split : literal c ≡ first ∷ more
  data_byte : 1 < first
  read_back :
      (dst_len : ℕ) (rest out : List ℕ)
      → length out < dst_len
      → write_data dst_len first (more ++ rest) out ≡ ok (some (rest, out ++ (c ∷ [])))

literal-Written : (c : ℕ) → 0 < c → c < 256 → Written c
unfolding write_data
literal-Written c p h = elim (Bool-cases (leb 0xFE c)) [
  | inl big ↦ record {
    first = 0xFF;
    more = (c - 0xFE) ∷ [];
    split = rw big;
    data_byte = omega arith;
    read_back = λ dst_len rest out room. ground arith;
  }
  | inr small ↦ record {
    first = c + 1;
    more = [];
    split = rw small;
    data_byte = omega arith;
    read_back = λ dst_len rest out room. ground arith;
  }
]

pub code-pos : (t : Token) (ts : List Token) → IsFormed (t ∷ ts) → 0 < length (code (t ∷ ts))
code-pos (lit c) ts f = ground arith
code-pos (run n zero) ts f = absurd (omega arith)
code-pos (run n (suc k)) ts f = unfold bits in omega arith

pub expand-pos : (t : Token) (ts : List Token) → IsFormed (t ∷ ts) → 0 < length (expand (t ∷ ts))
expand-pos (lit c) ts f = omega arith
expand-pos (run zero k) ts f = absurd (omega arith)
expand-pos (run (suc n) k) ts f = omega arith

-- The run length of `n` zeros is read from its digits, its highest one being implied.
run_value :
    (n k : ℕ) (rest : List ℕ)
    → n + 1 < 2 ^ 32
    → IsLog2 (n + 1) k
    → read_run 1 (bits k (n + 1) ++ rest) ≡ read_run (n + 1) rest
run_value n k rest h (lo, hi) =
    read_run-bits k (n + 1) 1 rest (omega (arith, total)) ∙ ap (λ v. read_run v rest) total
  where
    low : ℕ
    low = n + 1 - 2 ^ k

    total : 1 * 2 ^ k + (n + 1) % 2 ^ k ≡ n + 1
    total =
        let e : 1 * 2 ^ k + low ≡ n + 1 = omega (arith, lo) in
        omega (
          arith,
          ap (λ (t : ℕ). t % 2 ^ k) e,
          mod_fields 1 low (2 ^ k) (omega (arith, hi, lo, two_pow_add k 1)),
        )

-- One round of the loop at a byte, and at a run in front of the end or of a byte.
round_byte :
    (fuel dst_len d : ℕ) (rest out : List ℕ)
    → 1 < d
    → inverse_loop (suc fuel) dst_len (d ∷ rest) out
      ≡ inverse_data dst_len (inverse_loop fuel dst_len) (go_on d rest out)
unfolding inverse_loop inverse_run
round_byte fuel dst_len d rest out h =
    let e : leb d 1 ≡ false = ground arith in rw (e, inverse_loop)

round_run :
    (fuel dst_len n k : ℕ) (rest out : List ℕ)
    → 0 < n
    → n + 1 < 2 ^ 32
    → IsLog2 (n + 1) k
    → inverse_loop (suc fuel) dst_len (bits k (n + 1) ++ rest) out ≡ (
        generate_run dst_len out (read_run (n + 1) rest)
        >>= inverse_data dst_len (inverse_loop fuel dst_len))
round_run fuel dst_len n zero rest out p h l = absurd (omega arith)
round_run fuel dst_len n (suc k) rest out p h l =
    let e : leb ((n + 1) / 2 ^ k % 2) 1 ≡ true = ground arith in
    opened e
    ∙ ap (λ r. generate_run dst_len out r >>= inverse_data dst_len (inverse_loop fuel dst_len))
        (run_value n (suc k) rest h l)
  where
    opened :
        leb ((n + 1) / 2 ^ k % 2) 1 ≡ true
        → inverse_loop (suc fuel) dst_len (bits (suc k) (n + 1) ++ rest) out ≡ (
            generate_run dst_len out (read_run 1 (bits (suc k) (n + 1) ++ rest))
            >>= inverse_data dst_len (inverse_loop fuel dst_len))
    opened e = unfold bits inverse_loop inverse_run in rw (e, inverse_loop)

read_run-byte : (acc d : ℕ) (rest : List ℕ) → 1 < d → read_run acc (d ∷ rest) ≡ (acc, d ∷ rest)
unfolding read_run
read_run-byte acc d rest h = let e : leb d 1 ≡ false = ground arith in rw (e, read_run)

read_run-nil : (acc : ℕ) → read_run acc [] ≡ (acc, [])
unfolding read_run
read_run-nil acc = refl

generate_run-byte :
    (dst_len n d : ℕ) (rest out : List ℕ)
    → 0 < n
    → n + 1 < 2 ^ 32
    → length out + n < dst_len
    → generate_run dst_len out (n + 1, d ∷ rest) ≡ ok (go_on d rest (out ++ replicate n 0))
unfolding generate_run
generate_run-byte dst_len n d rest out p h fits =
    let e : sub64 (n + 1) 1 ≡ n = omega arith in ground (arith, write_zeros_lem dst_len n out)

-- A success of `Inverse` that read all of `src` and wrote `out`.
abbrev pub finished : ℕ → List ℕ → List ℕ → Exec Reply
finished src_len dst out = reply_inverse src_len dst [] false out

module _ (src_len : ℕ) (dst : List ℕ) (small : length dst < 2 ^ 32) where
  end_with_run :
      (n : ℕ) (out : List ℕ)
      → 0 < n
      → length out + n ≤ length dst
      → end_inverse src_len dst (record { rest = []; out = out; run_length = n + 1 })
        ≡ finished src_len dst (out ++ replicate n 0)
  unfolding end_inverse
  end_with_run n out p h =
      let e : sub64 (n + 1) 1 ≡ n = omega arith in
      ground (arith, write_zeros_lem (length dst) n out)

  -- The bottom of the loop: stop at the end of the code, and go round again before it.
  resume :
      (loop : List ℕ → List ℕ → Exec Inverse) (ts : List Token) (out before : List ℕ)
      → IsFormed ts
      → length out + length (expand ts) ≤ length dst
      → (ts ≢ []
          → (loop (code ts) out >>= end_inverse src_len dst)
            ≡ finished src_len dst (out ++ expand ts))
      → (bottom_test (length dst) loop (some (code ts, out)) before >>= end_inverse src_len dst)
        ≡ finished src_len dst (out ++ expand ts)
  unfolding bottom_test
  resume loop [] out before f h again = rw append-nil (unfold at_end end_inverse in refl)
  resume loop (t ∷ ts) out before f h again =
      let more : (length (code (t ∷ ts)) == 0 || leb (length dst) (length out)) ≡ false =
        ground (arith, code-pos t ts f, expand-pos t ts f) in
      rw (more, bottom_test) (again (λ e. cc))

  data_step :
      (loop : List ℕ → List ℕ → Exec Inverse) (c : ℕ) (w : Written c) (ts : List Token)
      (out : List ℕ)
      → IsFormed ts
      → length out + length (expand ts) < length dst
      → (ts ≢ []
          → (loop (code ts) (out ++ (c ∷ [])) >>= end_inverse src_len dst)
            ≡ finished src_len dst ((out ++ (c ∷ [])) ++ expand ts))
      → (inverse_data (length dst) loop (go_on w.first (w.more ++ code ts) out)
          >>= end_inverse src_len dst)
        ≡ finished src_len dst (out ++ (c ∷ expand ts))
  data_step loop c w ts out f h again =
      unfold inverse_data in
      rw (w.read_back (length dst) (code ts) out (omega arith)) (
        resume loop ts (out ++ (c ∷ [])) out f (omega (arith, length-append out (c ∷ []))) again
        ∙ ap (finished src_len dst) (append_assoc out (c ∷ []) (expand ts)))

  shorter :
      (c : ℕ) (ts : List Token) {fuel : ℕ}
      → 0 < c
      → c < 256
      → length (code (lit c ∷ ts)) ≤ suc fuel
      → length (code ts) ≤ fuel
  shorter c ts p b h = ground (arith, length-append (literal c) (code ts))

  room :
      (n : ℕ) (out : List ℕ)
      → length out + length (replicate {A = ℕ} n 0 ++ []) ≤ length dst
      → length out + n ≤ length dst
  room n out h =
      let zeros : List ℕ = replicate n 0 in
      omega (arith, h, length-append zeros [], length-replicate {A = ℕ} n 0)

  -- The whole of the loop and of the code at `End`.
  pub decode :
      (fuel : ℕ) (ts : List Token) (out : List ℕ)
      → IsFormed ts
      → ts ≢ []
      → length (code ts) ≤ fuel
      → length out + length (expand ts) ≤ length dst
      → (inverse_loop fuel (length dst) (code ts) out >>= end_inverse src_len dst)
        ≡ finished src_len dst (out ++ expand ts)
  decode fuel [] out f ne hf h = absurd (ne refl)
  decode zero (t ∷ ts) out f ne hf h = absurd (omega (arith, code-pos t ts f))
  decode (suc fuel) (lit c ∷ ts) out (p, b, f) ne hf h =
      let w = literal-Written c p b in
      rw (w.split, round_byte fuel (length dst) w.first (w.more ++ code ts) out w.data_byte)
        (data_step (inverse_loop fuel (length dst)) c w ts out f (omega arith) (λ more.
          decode fuel ts (out ++ (c ∷ [])) f more (shorter c ts p b hf)
            (omega (arith, length-append out (c ∷ [])))))
  decode (suc fuel) (run n k ∷ []) out (p, b, l, s, f) ne hf h =
      rw (round_run fuel (length dst) n k [] out p b l, read_run-nil)
        (unfold generate_run inverse_data at_end in
          rw append-nil (end_with_run n out p (room n out h)))
  decode (suc fuel) (run n k ∷ lit c ∷ ts) out (p, b, l, s, (pc, bc, f)) ne hf h =
      let w = literal-Written c pc bc in
      let zeros : List ℕ = replicate n 0 in
      let short : length (code ts) ≤ fuel = shorter c ts pc bc (
        omega (
          arith,
          hf,
          p,
          l,
          length-append (bits k (n + 1)) (literal c ++ code ts),
          length-bits k (n + 1),
        )) in
      let fits : length out + n + suc (length (expand ts)) ≤ length dst =
        omega (arith, h, length-append zeros (c ∷ expand ts), length-replicate {A = ℕ} n 0) in
      rw
        (
          w.split,
          round_run fuel (length dst) n k (w.first ∷ (w.more ++ code ts)) out p b l,
          read_run-byte (n + 1) w.first (w.more ++ code ts) w.data_byte,
          generate_run-byte (length dst) n w.first (w.more ++ code ts) out p b (omega arith),
        )
        (data_step (inverse_loop fuel (length dst)) c w ts (out ++ zeros) f
            (omega (arith, length-append out zeros, length-replicate {A = ℕ} n 0))
            (λ more. decode fuel ts ((out ++ zeros) ++ (c ∷ [])) f more short (
              omega (
                arith,
                length-append (out ++ zeros) (c ∷ []),
                length-append out zeros,
                length-replicate {A = ℕ} n 0,
              )))
          ∙ ap (finished src_len dst) (append_assoc out zeros (c ∷ expand ts)))
  decode (suc fuel) (run n k ∷ run m j ∷ ts) out f ne hf h = elim (f.3) [ ]
