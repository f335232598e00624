-- ===== src/Transform/Zrlt/Encode.antt =====
-- What `Forward` writes is the code of its input.
use kanzi_go.Base.{
  ℕ, zero, suc, ◌+◌, ◌^◌, ◌≤◌, ◌<◌, ◌≡◌, refl, sym, ap, ◌∙◌, List, [], ◌∷◌, ◌++◌, replicate, ◌==◌,
  arith, length, append_assoc, append-nil, ok, IsBytes, Bool-cases, inl, inr, true, false, sub64,
  ◌>>=◌,
}
use mathlib.Core.Path.{ap₂}
use kanzi_go.Internal.Log2.Bounds.{IsLog2}
use kanzi_go.Transform.Zrlt.{write_run, write_literal, Forward, forward_loop, after_write}
use kanzi_go.Base.Digits.{bits}
use kanzi_go.Transform.Zrlt.Format.{
  Token, lit, run, literal, expand, code, StartsWithByte, IsFormed,
}
use kanzi_go.Transform.Zrlt.Steps.{lead, strip, skip_pairs_lem, write_run_lem, write_literal_lem}

abbrev pub IsNonzeroHead : List ℕ → Type 0
IsNonzeroHead [] = Unit {0}
IsNonzeroHead (c ∷ r) = 0 < c

lead-le : (l : List ℕ) → lead l ≤ length l
lead-le [] = omega arith
lead-le (c ∷ r) = ground (arith, lead-le r)

replicate-append-strip : (l : List ℕ) → replicate (lead l) 0 ++ strip l ≡ l
replicate-append-strip [] = refl
replicate-append-strip (c ∷ r) = ground (arith, replicate-append-strip r)

strip_facts :
    (l : List ℕ)
    → IsBytes l
    → (lead l + length (strip l) ≡ length l) × IsNonzeroHead (strip l) × IsBytes (strip l)
strip_facts [] h = (refl, tt, tt)
strip_facts (c ∷ r) h = elim (Bool-cases (c == 0)) [
  | inl z ↦ rw z (let (a, b, d) = strip_facts r h.1 in (omega (arith, a), b, d))
  | inr nz ↦ rw nz (omega arith, ground arith, h)
]

-- `ts` are the tokens of `rest`, and `code ts` is what was added to `out`.
pub record Tokens (rest out out' : List ℕ) : Type 0 where
  pub tokens : List Token
  pub formed : IsFormed tokens
  pub stands_for : expand tokens ≡ rest
  pub written : out' ≡ out ++ code tokens
  pub head : IsNonzeroHead rest → StartsWithByte tokens

-- The state in which the loop ends, started at `rest` with `out` written.
pub record Encoded (dst_end i : ℕ) (rest out : List ℕ) (r : Forward) : Type 0 where
  pub read : r.src_idx ≤ i + length rest
  pub fits : length r.out ≤ dst_end
  pub whole : r.res ≡ true → (r.src_idx ≡ i + length rest) × Tokens rest out r.out

Encoded-stop :
    (dst_end i j : ℕ) (rest out : List ℕ)
    → j ≤ i + length rest
    → length out ≤ dst_end
    → Encoded dst_end i rest out (record { src_idx = j; out = out; res = false })
Encoded-stop dst_end i j rest out h k = record {
  read = h;
  fits = k;
  whole = λ e. absurd (ground arith);
}

Encoded-extend :
    {dst_end i j : ℕ} {rest rest' out out' : List ℕ} {r : Forward}
    → j + length rest' ≡ i + length rest
    → (Tokens rest' out' r.out → Tokens rest out r.out)
    → Encoded dst_end j rest' out' r
    → Encoded dst_end i rest out r
Encoded-extend e f enc = record {
  read = omega arith;
  fits = enc.fits;
  whole = λ q. ((enc.whole q).0 ∙ e, f (enc.whole q).1);
}

Tokens-lit :
    (c : ℕ) (rest out : List ℕ) {out' : List ℕ}
    → 0 < c
    → c < 256
    → Tokens rest (out ++ literal c) out'
    → Tokens (c ∷ rest) out out'
Tokens-lit c rest out p h t = record {
  tokens = lit c ∷ t.tokens;
  formed = (p, h, t.formed);
  stands_for = ap (λ r. c ∷ r) t.stands_for;
  written = t.written ∙ append_assoc out (literal c) (code t.tokens);
  head = λ _. tt;
}

Tokens-run :
    (m k : ℕ) (rest out : List ℕ) {out' : List ℕ}
    → m + 2 < 2 ^ 32
    → IsLog2 (m + 2) k
    → IsNonzeroHead rest
    → Tokens rest (out ++ bits k (m + 2)) out'
    → (c : ℕ) (all : List ℕ) → c ≡ 0
    → replicate m 0 ++ rest ≡ all
    → Tokens (c ∷ all) out out'
Tokens-run m k rest out h l z t c all q w =
    let e : m + 2 ≡ suc m + 1 = omega arith in
    record {
      tokens = run (suc m) k ∷ t.tokens;
      formed = (omega arith, omega arith, rw e at l, t.head z, t.formed);
      stands_for = ap (λ r. 0 ∷ replicate m 0 ++ r) t.stands_for ∙ ap₂ ◌∷◌ (sym q) w;
      written =
          t.written
          ∙ append_assoc out (bits k (m + 2)) (code t.tokens)
          ∙ ap (λ v. out ++ (bits k v ++ code t.tokens)) e;
      head = λ p. absurd (omega arith);
    }

-- One round of the loop at a 0 and at another byte, its parts kept shut.
forward_loop-zero :
    (fuel dst_end dst_len i c : ℕ) (rest out : List ℕ)
    → (c == 0) ≡ true
    → i + length rest < 2 ^ 32
    → forward_loop (suc fuel) dst_end dst_len i (c ∷ rest) out ≡ (
        write_run dst_end dst_len (lead rest + 2) out
        >>= after_write
            (forward_loop fuel dst_end dst_len (i + 1 + lead rest) (strip rest))
            (i + 1 + lead rest)
            out)
forward_loop-zero fuel dst_end dst_len i c rest out z h =
    opened
    ∙ ap
        (λ (n : ℕ).
          write_run dst_end dst_len n out
          >>= after_write (forward_loop fuel dst_end dst_len (i + 1 + lead rest) (strip rest))
              (i + 1 + lead rest) out)
        (omega (arith, lead-le rest))
  where
    opened : forward_loop (suc fuel) dst_end dst_len i (c ∷ rest) out ≡ (
        write_run dst_end dst_len (sub64 (i + 1 + lead rest) (sub64 i 1)) out
        >>= after_write
            (forward_loop fuel dst_end dst_len (i + 1 + lead rest) (strip rest))
            (i + 1 + lead rest)
            out)
    opened = unfold forward_loop in rw (z, forward_loop) (rw (skip_pairs_lem rest (i + 1)))

forward_loop-byte :
    (fuel dst_end dst_len i c : ℕ) (rest out : List ℕ)
    → (c == 0) ≡ false
    → forward_loop (suc fuel) dst_end dst_len i (c ∷ rest) out ≡ (
        write_literal dst_end dst_len c out
        >>= after_write (forward_loop fuel dst_end dst_len (i + 1) rest) i out)
forward_loop-byte fuel dst_end dst_len i c rest out z = unfold forward_loop in rw (z, forward_loop)

pub forward_loop-Encoded :
    (fuel dst_end dst_len i : ℕ) (rest out : List ℕ)
    → length rest ≤ fuel
    → i + length rest ≡ dst_end
    → dst_end + 1 < 2 ^ 32
    → dst_end ≤ dst_len
    → IsBytes rest
    → length out ≤ dst_end
    → (r : Forward) × (forward_loop fuel dst_end dst_len i rest out ≡ ok r)
      × Encoded dst_end i rest out r
unfolding forward_loop
forward_loop-Encoded fuel dst_end dst_len i [] out hf hi h32 hc hb ho = (
  record { src_idx = i; out = out; res = true },
  refl,
  record {
    read = omega arith;
    fits = ho;
    whole = λ _. (
      omega arith,
      record {
        tokens = [];
        formed = tt;
        stands_for = refl;
        written = sym (append-nil out);
        head = λ _. tt;
      },
    );
  },
)
forward_loop-Encoded zero dst_end dst_len i (c ∷ rest) out hf hi h32 hc hb ho = absurd (omega arith)
forward_loop-Encoded (suc fuel) dst_end dst_len i (c ∷ rest) out hf hi h32 hc hb ho =
    elim (Bool-cases (c == 0)) [
      | inl z ↦
          let (cut, z', b) = strip_facts rest hb.1 in
          let (k, l, w) =
            write_run_lem dst_end dst_len (lead rest + 2) out (omega arith) (omega arith) h32 hc
              ho in
          rw (forward_loop-zero fuel dst_end dst_len i c rest out z (omega arith)) (elim w [
            | inl full ↦ (
              record { src_idx = i + 1 + lead rest; out = out; res = false },
              rw full (unfold after_write in refl),
              Encoded-stop dst_end i (i + 1 + lead rest) (c ∷ rest) out (omega arith) ho,
            )
            | inr (e, fits) ↦
                let (r, runs, enc) =
                  forward_loop-Encoded fuel dst_end dst_len (i + 1 + lead rest) (strip rest)
                    (out ++ bits k (lead rest + 2)) (omega arith) (omega arith) h32 hc b fits in
                (
                  r,
                  rw e (unfold after_write in runs),
                  Encoded-extend (omega arith)
                      (λ t.
                        Tokens-run (lead rest) k (strip rest) out (omega arith) l z' t c rest
                          (ground arith) (replicate-append-strip rest))
                      enc,
                )
          ])
      | inr nz ↦
          rw (forward_loop-byte fuel dst_end dst_len i c rest out nz)
            (elim (write_literal_lem dst_end dst_len c out (omega arith) (omega arith) hb.0 hc ho) [
              | inl full ↦ (
                record { src_idx = i; out = out; res = false },
                rw full (unfold after_write in refl),
                Encoded-stop dst_end i i (c ∷ rest) out (omega arith) ho,
              )
              | inr (e, fits) ↦
                  let (r, runs, enc) =
                    forward_loop-Encoded fuel dst_end dst_len (i + 1) rest (out ++ literal c)
                      (omega arith) (omega arith) h32 hc hb.1 fits in
                  (
                    r,
                    rw e (unfold after_write in runs),
                    Encoded-extend (omega arith) (λ t. Tokens-lit c rest out (ground arith) hb.0 t)
                        enc,
                  )
            ])
    ]
