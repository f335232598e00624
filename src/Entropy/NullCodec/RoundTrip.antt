-- ===== src/Entropy/NullCodec/RoundTrip.antt =====
-- Blocks through the codec and back.
use kanzi_go.Base.Bytes.{take-IsBytes, drop-IsBytes}
use kanzi_go.Base.{
  ℕ, zero, suc, ◌+◌, ◌-◌, ◌*◌, ◌<◌, ◌≤◌, ◌≡◌, refl, sym, ap, ◌∙◌, List, [], ◌∷◌, ◌++◌, arith,
  length, take, drop, take-append-drop, length-take, length-drop, append_assoc, append-nil, ok,
  IsBytes, shr,
}
use kanzi_go.Base.Digits.{byte_bits, byte_bits-append}
use kanzi_go.Bitstream.Api.{OutputBitStream, InputBitStream}
use kanzi_go.Entropy.NullCodec.{chunk_size, write_chunks, write, read_chunks, read}

chunk_size_bounds : (n : ℕ) → 0 < n → (0 < chunk_size n) × (chunk_size n ≤ n)
chunk_size_bounds n h = (ground arith, ground arith)

byte_bits-split :
    (n : ℕ) (xs : List ℕ) → byte_bits xs ≡ byte_bits (take n xs) ++ byte_bits (drop n xs)
byte_bits-split n xs =
    ap byte_bits (sym (take-append-drop n xs)) ∙ byte_bits-append (take n xs) (drop n xs)

module _ (out : OutputBitStream) where
  open out use {State, contents, IsOpen, write_array_law}

  write_chunks_lem :
      (fuel : ℕ) (s : State) (block : List ℕ) (res : ℕ)
      → IsOpen s
      → IsBytes block
      → length block ≤ fuel
      → (s' : State) × (write_chunks out fuel s block res ≡ ok (res + length block, s'))
        × IsOpen s'
        × (contents s' ≡ contents s ++ byte_bits block)
  unfolding write_chunks
  write_chunks_lem fuel s [] res o i h =
      (s, ap (λ n. ok (n, s)) (omega arith), o, sym (append-nil (contents s)))
  write_chunks_lem zero s (b ∷ block) res o i h = absurd (omega arith)
  write_chunks_lem (suc fuel) s (b ∷ block) res o i h =
      let all = b ∷ block in
      let size = chunk_size (length all) in
      let c = chunk_size_bounds (length all) (omega arith) in
      let (s1, r1, o1, c1) = write_array_law s all size o i c.1 in
      let l = length-drop size all in
      let (s2, r2, o2, c2) =
        write_chunks_lem fuel s1 (drop size all) (res + shr (8 * size) 3) o1
          (drop-IsBytes size all i) (omega (arith, l, c.0)) in
      (
        s2,
        rw r1 (r2 ∙ ap (λ n. ok (n, s2)) (omega (arith, l, c.1))),
        o2,
        c2
            ∙ ap (λ x. x ++ byte_bits (drop size all)) c1
            ∙ append_assoc (contents s) (byte_bits (take size all)) (byte_bits (drop size all))
            ∙ ap (λ x. contents s ++ x) (sym (byte_bits-split size all)),
      )

module _ (in_ : InputBitStream) where
  open in_ use {State, remaining, IsOpen, read_array_law}

  read_chunks_lem :
      (fuel : ℕ) (s : State) (block rest done : List ℕ) (res count : ℕ)
      → IsOpen s
      → IsBytes block
      → count ≡ length block
      → count ≤ fuel
      → remaining s ≡ byte_bits block ++ rest
      → (s' : State) × (read_chunks in_ fuel s count res done
          ≡ ok ((res + count, done ++ block), s'))
        × IsOpen s'
        × (remaining s' ≡ rest)
  unfolding read_chunks
  read_chunks_lem fuel s [] rest done res zero o b e h r = (
    s,
    ap (λ n. ok (n, s))
        (ap (λ m. (m, done)) (omega arith) ∙ ap (λ d. (res + 0, d)) (sym (append-nil done))),
    o,
    r,
  )
  read_chunks_lem fuel s (x ∷ block) rest done res zero o b e h r = absurd (omega (arith, e))
  read_chunks_lem zero s block rest done res (suc count) o b e h r = absurd (omega arith)
  read_chunks_lem (suc fuel) s block rest done res (suc count) o b e h r =
      let size = chunk_size (suc count) in
      let c = chunk_size_bounds (suc count) (omega arith) in
      let lt = length-take size block in
      let len : length (take size block) ≡ size = omega (arith, lt, c.1, e) in
      let start =
        r
        ∙ ap (λ x. x ++ rest) (byte_bits-split size block)
        ∙ append_assoc (byte_bits (take size block)) (byte_bits (drop size block)) rest in
      let (s1, r1, o1, c1) =
        read_array_law s (take size block) (byte_bits (drop size block) ++ rest) o
          (take-IsBytes size block b) start in
      let r1' = rw len at r1 in
      let l = length-drop size block in
      let (s2, r2, o2, c2) =
        read_chunks_lem fuel s1 (drop size block) rest (done ++ take size block)
          (res + shr (8 * length (take size block)) 3) (suc count - size) o1
          (drop-IsBytes size block b) (omega (arith, l, e)) (omega (arith, c.0)) c1 in
      let total : res + shr (8 * length (take size block)) 3 + (suc count - size)
          ≡ res + suc count =
        omega (arith, len, c.1) in
      let joined =
        append_assoc done (take size block) (drop size block)
        ∙ ap (λ d. done ++ d) (take-append-drop size block) in
      (
        s2,
        rw r1' (
            r2
            ∙ ap (λ n. ok ((n, (done ++ take size block) ++ drop size block), s2)) total
            ∙ ap (λ d. ok ((res + suc count, d), s2)) joined),
        o2,
        c2,
      )

pub write_whole :
    (out : OutputBitStream) (s : out.State) (block : List ℕ)
    → out.IsOpen s
    → IsBytes block
    → (s' : out.State) × (write out s block ≡ ok (length block, s'))
      × out.IsOpen s'
      × (out.contents s' ≡ out.contents s ++ byte_bits block)
unfolding write
write_whole out s block o b =
    let (s', e, o', c) = write_chunks_lem out (length block) s block 0 o b (omega arith) in
    (s', e ∙ ap (λ n. ok (n, s')) (omega arith), o', c)

pub read_whole :
    (in_ : InputBitStream) (t : in_.State) (block rest : List ℕ)
    → in_.IsOpen t
    → IsBytes block
    → in_.remaining t ≡ byte_bits block ++ rest
    → (t' : in_.State) × (read in_ t (length block) ≡ ok ((length block, block), t'))
      × in_.IsOpen t'
      × (in_.remaining t' ≡ rest)
unfolding read
read_whole in_ t block rest o b h =
    let (t', e, o', c) =
      read_chunks_lem in_ (length block) t block rest [] 0 (length block) o b refl (omega arith)
        h in
    (t', e ∙ ap (λ n. ok ((n, block), t')) (omega arith), o', c)

module _ (out : OutputBitStream) (in_ : InputBitStream) where
  -- For a block of bytes of any length, an open output stream and an open input stream that starts with the
  -- bits of the block: `Write` appends these bits and returns the block's length, and `Read` of as many bytes
  -- returns that number and the block, leaving on the input what follows. Neither loop runs out of fuel.
  pub read-write_chunks :
      (s : out.State) (t : in_.State) (block rest : List ℕ)
      → out.IsOpen s
      → in_.IsOpen t
      → IsBytes block
      → in_.remaining t ≡ byte_bits block ++ rest
      → ((s' : out.State) × (write out s block ≡ ok (length block, s'))
          × out.IsOpen s'
          × (out.contents s' ≡ out.contents s ++ byte_bits block))
        × ((t' : in_.State) × (read in_ t (length block) ≡ ok ((length block, block), t'))
            × in_.IsOpen t'
            × (in_.remaining t' ≡ rest))
  read-write_chunks s t block rest o ot b h =
      (write_whole out s block o b, read_whole in_ t block rest ot b h)
