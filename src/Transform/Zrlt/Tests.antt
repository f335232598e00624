-- ===== src/Transform/Zrlt/Tests.antt =====
-- Concrete runs of the zero run length transform, and its theorems at concrete inputs.
use kanzi_go.Base.{
  ℕ, ◌≤◌, ◌≡◌, refl, List, [], ◌∷◌, ok, none, false, replicate, ◌++◌, arith, length,
}
use kanzi_go.Internal.Log2.{log2_no_check, log2_table}
use kanzi_go.Transform.Api.{Reply}
use kanzi_go.Base.Digits.{bits}
use kanzi_go.Transform.Zrlt.Format.{Token, lit, run, code}
use kanzi_go.Transform.Zrlt.RoundTrip.{slices, forward_returns, inverse-code, inverse-forward}
use kanzi_go.Transform.Zrlt.{
  forward, forward_loop, skip_pairs, skip_zeros, write_run, write_literal, write_bits, end_forward,
  inverse, inverse_loop, inverse_run, inverse_data, read_run, write_zeros, write_data, end_inverse,
}

abbrev sample : List ℕ
sample = 0 ∷ 0 ∷ 0 ∷ 0 ∷ 7 ∷ 255 ∷ 0 ∷ 0 ∷ 3 ∷ 0 ∷ 0 ∷ 0 ∷ []

abbrev coded : List ℕ
coded = 0 ∷ 1 ∷ 8 ∷ 255 ∷ 1 ∷ 1 ∷ 4 ∷ 0 ∷ 0 ∷ []

forward-sample :
    forward (record { src = sample; dst = replicate 12 9; same = false })
    ≡ ok (record { read = 12; written = 9; error = none; dst = coded ++ replicate 3 9 })
unfolding forward forward_loop skip_pairs skip_zeros write_run write_literal write_bits end_forward
    log2_no_check log2_table
forward-sample = refl

inverse-sample :
    inverse (record { src = coded; dst = replicate 13 9; same = false })
    ≡ ok (record { read = 9; written = 12; error = none; dst = sample ++ replicate 1 9 })
unfolding inverse inverse_loop inverse_run inverse_data read_run write_zeros write_data end_inverse
inverse-sample = refl

forward_returns_example :
    (r : Reply) × (forward (slices sample (replicate 12 9)) ≡ ok r)
    × (r.read ≤ 12)
    × (r.written ≤ 12)
    × (length r.dst ≡ 12)
    × (r.error ≡ none → r.read ≡ 12)
forward_returns_example =
    forward_returns sample (replicate 12 9) (omega arith) (omega arith) (omega arith) (omega arith)

inverse-forward_example :
    inverse (slices coded (replicate 13 9))
    ≡ ok (record { read = 9; written = 12; error = none; dst = sample ++ replicate 1 9 })
inverse-forward_example =
    inverse-forward sample (replicate 12 9) (replicate 13 9)
      (record { read = 12; written = 9; error = none; dst = coded ++ replicate 3 9 }) (omega arith)
      (omega arith) (omega arith) (omega arith) (omega arith) (omega arith) forward-sample refl

abbrev tokens : List Token
tokens = run 4 2 ∷ lit 7 ∷ lit 255 ∷ run 2 1 ∷ []

inverse-code_example :
    inverse (slices (code tokens) (replicate 8 9))
    ≡ ok
        (record { read = 6; written = 8; error = none; dst = 0 ∷ 0 ∷ 0 ∷ 0 ∷ 7 ∷ 255 ∷ 0 ∷ 0 ∷ [] })
unfolding bits
inverse-code_example =
    inverse-code tokens (replicate 8 9) (omega arith) (λ e. cc) (omega arith) (omega arith)
