-- ===== src/Bitstream/Sink.antt =====
-- The `io.WriteCloser` behind a bit stream: what Go's documentation of `Write` promises while nothing fails.
use kanzi_go.Base.{ℕ, ◌≡◌, List, ◌++◌, Bool, false, refl}

pub record Sink : Type 1 where
  pub State : Type 0
  -- Whether there is an error, and the sink after the call.
  pub write : State → List ℕ → Bool × State
  pub received : State → List ℕ
  pub IsOpen : State → Type 0
  pub write_law :
      (s : State) (bytes : List ℕ)
      → IsOpen s
      → (s' : State) × (write s bytes ≡ (false, s'))
        × IsOpen s'
        × (received s' ≡ received s ++ bytes)

abbrev pub reference_sink : Sink
reference_sink = record {
  State = List ℕ;
  write = λ s bytes. (false, s ++ bytes);
  received = λ s. s;
  IsOpen = λ s. Unit {0};
  write_law = λ s bytes o. (s ++ bytes, refl, tt, refl);
}
