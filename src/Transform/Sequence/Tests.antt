-- ===== src/Transform/Sequence/Tests.antt =====
-- Concrete runs of a sequence, and its theorem at a concrete input.
use kanzi_go.Base.{
  ℕ, ◌^◌, ◌-◌, ◌≡◌, ◌≤◌, refl, arith, List, [], ◌∷◌, none, some, ok, take, replicate, IsBytes,
}
use kanzi_go.Transform.Api.{Reply}
use kanzi_go.Transform.Interface.{ByteTransform, slices}
use kanzi_go.Transform.NullTransform.{null_transform}
use kanzi_go.Transform.Zrlt.AsTransform.{zrlt}
use kanzi_go.Transform.Sbrt.{Sbrt}
use kanzi_go.Transform.Sbrt.AsTransform.{sbrt}
use kanzi_go.Transform.Sequence.{SequenceReply, new_sequence, max_encoded_len, forward, inverse}
use kanzi_go.Transform.Sequence.RoundTrip.{Restored, inverse-forward_sequence}

abbrev rank_mode : Sbrt
rank_mode = record { mode = 2; mask1 = 2 ^ 64 - 1; mask2 = 2 ^ 64 - 1; shift = 1 }

abbrev transforms : List ByteTransform
transforms = sbrt rank_mode ∷ null_transform ∷ zrlt ∷ []

abbrev sample : List ℕ
sample = 2 ∷ 2 ∷ 2 ∷ 2 ∷ 2 ∷ 2 ∷ 255 ∷ []

abbrev sample_dst : List ℕ
sample_dst = replicate 39 7

sample-IsBytes : IsBytes sample
sample-IsBytes = (
  omega arith,
  (omega arith, (omega arith, (omega arith, (omega arith, (omega arith, (omega arith, tt)))))),
)

new_sequence_refused : new_sequence (some []) ≡ none
unfolding new_sequence
new_sequence_refused = refl

sample_room : max_encoded_len transforms 7 ≤ 39
unfolding max_encoded_len null_transform zrlt sbrt
sample_room = omega arith

inverse-forward_sequence_example :
    (r : SequenceReply) × (forward
        (record { transforms = transforms; skip_flags = 0 })
        []
        (slices sample sample_dst)
      ≡ ok r)
    × (r.reply.error ≡ none)
    × (r.reply.read ≡ 7)
    × (r.reply.written ≤ max_encoded_len transforms 7)
    × (r' : Reply) × (inverse
          (record { transforms = transforms; skip_flags = r.flags })
          (0 ∷ [])
          (slices (take r.reply.written r.reply.dst) sample_dst)
        ≡ ok r')
    × Restored r' r.reply.written sample 39
unfolding null_transform zrlt sbrt
inverse-forward_sequence_example =
    inverse-forward_sequence transforms 0 1000 sample sample_dst sample_dst [] (0 ∷ [])
      (omega arith) (omega arith, (omega arith, (omega arith, tt))) sample-IsBytes (omega arith)
      sample_room (omega arith) sample_room (omega arith)
