-- ===== src/Bitstream/Source.antt =====
-- The `io.ReadCloser` behind a bit stream, for a source that fills the slice while it has bytes, as a
-- `bytes.Reader` does, and tells the end of the bytes by a call that reads none.
use kanzi_go.Base.{
  take_nil, drop_nil, ap, ap₂, sym, ◌∙◌, ◌∷◌, ℕ, ◌≢◌, ◌<◌, ◌≡◌, refl, List, [], Bool, true, false,
  IsBytes, take, drop,
}
use kanzi_go.Base.Bytes.{drop-IsBytes}

pub record Source : Type 1 where
  pub State : Type 0
  -- Whether there is an error, the bytes read, and the source after the call.
  pub read : State → ℕ → Bool × List ℕ × State
  -- The bytes that are still to be read.
  pub pending : State → List ℕ
  pub IsOpen : State → Type 0
  pub bytes_law : (s : State) → IsOpen s → IsBytes (pending s)
  pub read_law :
      (s : State) (n : ℕ)
      → IsOpen s
      → 0 < n
      → pending s ≢ []
      → (s' : State) × (read s n ≡ (false, take n (pending s), s'))
        × IsOpen s'
        × (pending s' ≡ drop n (pending s))
  pub end_law :
      (s : State) (n : ℕ)
      → IsOpen s
      → 0 < n
      → pending s ≡ []
      → (s' : State) × (read s n ≡ (true, [], s')) × IsOpen s' × (pending s' ≡ [])

abbrev pub ended : List ℕ → Bool
ended [] = true
ended (b ∷ s) = false

pub ended_lem : (s : List ℕ) → s ≢ [] → ended s ≡ false
ended_lem [] h = absurd (h refl)
ended_lem (b ∷ s) h = refl

abbrev pub reference_source : Source
reference_source = record {
  State = List ℕ;
  read = λ s n. (ended s, take n s, drop n s);
  pending = λ s. s;
  IsOpen = IsBytes;
  bytes_law = λ s o. o;
  read_law = λ s n o p h.
      (drop n s, ap (λ e. (e, take n s, drop n s)) (ended_lem s h), drop-IsBytes n s o, refl);
  end_law = λ s n o p e. (
    drop n s,
    ap (λ x. (ended x, take n x, drop n x)) e
        ∙ ap₂ (λ x y. (true, x, y)) (take_nil n) (drop_nil n)
        ∙ ap (λ x. (true, [], x)) (sym (drop_nil n) ∙ ap (drop n) (sym e)),
    drop-IsBytes n s o,
    ap (drop n) e ∙ drop_nil n,
  );
}
