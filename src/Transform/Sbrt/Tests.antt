-- ===== src/Transform/Sbrt/Tests.antt =====
-- Concrete runs of SBRT, and its theorem at a concrete input.
use kanzi_go.Base.{
  ℕ, ◌^◌, ◌-◌, ◌≡◌, refl, arith, List, [], ◌∷◌, none, some, ok, length, take, replicate, IsBytes,
}
use kanzi_go.Transform.Api.{overwrite}
use kanzi_go.Transform.Sbrt.{Sbrt, new_sbrt, new_sbrt_with_ctx, forward, inverse}
use kanzi_go.Transform.Sbrt.RoundTrip.{slices, inverse-forward_ranks}

abbrev rank_mode : Sbrt
rank_mode = record { mode = 2; mask1 = 2 ^ 64 - 1; mask2 = 2 ^ 64 - 1; shift = 1 }

new_sbrt_rank : new_sbrt 2 ≡ some rank_mode
unfolding new_sbrt
new_sbrt_rank = refl

new_sbrt_unknown : new_sbrt_with_ctx (some 4) ≡ none
unfolding new_sbrt_with_ctx new_sbrt
new_sbrt_unknown = refl

abbrev sample : List ℕ
sample = 2 ∷ 2 ∷ 0 ∷ 2 ∷ 255 ∷ 1 ∷ []

abbrev sample_dst : List ℕ
sample_dst = replicate 38 7

sample-IsBytes : IsBytes sample
sample-IsBytes =
    (omega arith, (omega arith, (omega arith, (omega arith, (omega arith, (omega arith, tt))))))

inverse-forward_ranks_example :
    (ranks : List ℕ) × (forward rank_mode (slices sample sample_dst)
      ≡ ok (record { read = 6; written = 6; error = none; dst = overwrite ranks sample_dst }))
    × (length ranks ≡ 6)
    × IsBytes ranks
    × (inverse rank_mode (slices (take 6 (overwrite ranks sample_dst)) (replicate 6 0))
        ≡ ok (record {
          read = 6;
          written = 6;
          error = none;
          dst = overwrite sample (replicate 6 0);
        }))
inverse-forward_ranks_example =
    inverse-forward_ranks rank_mode sample sample_dst (replicate 6 0) sample-IsBytes (omega arith)
      (omega arith) (omega arith)
