-- ===== src/Entropy/Binary/ReadChunks.antt =====
-- The loop that reads a block, chunk after chunk.
use kanzi_go.Base.Bytes.{take-IsBytes, drop-IsBytes}
use kanzi_go.Base.{
  ℕ, zero, suc, ◌-◌, ◌%◌, ◌^◌, ◌<◌, ◌≤◌, ◌≡◌, refl, sym, ap, ◌∙◌, arith, false, min, List, [], ◌∷◌,
  ◌++◌, length, u32, IsBytes, append_assoc, append-nil, take, drop, length-append, length-drop,
  length-take, take-append-drop, ltb, Option, some, Exec, ok,
}
use kanzi_go.Base.Digits.{bits, byte_bits, byte_bits-append}
use kanzi_go.Bitstream.Api.{InputBitStream}
use kanzi_go.Entropy.Predictor.{Predictor}
use kanzi_go.Entropy.VarInt.{read_var_int}
use kanzi_go.Entropy.VarInt.Format.{var_int_bytes}
use kanzi_go.Entropy.VarInt.Read.{unread, read_var_int_lem}
use kanzi_go.Entropy.Binary.{Decoder, decode_chunk, fill, read_chunks, buffer_size}
use kanzi_go.Entropy.Binary.Interval.{
  Interval, IsOpen, final-IsOpen, final_state-IsValid, byte_bits-AreBits,
}
use kanzi_go.Entropy.Binary.Window.{window, code-IsBytes}
use kanzi_go.Entropy.Binary.Decode.{Follows}
use kanzi_go.Entropy.Binary.Bytes.{decode_chunk_lem}
use kanzi_go.Entropy.Binary.Ending.{
  seven_bytes, ending, seven_bytes-IsBytes, ending-Contains, byte_bits-window, window_bound,
}
use kanzi_go.Entropy.Binary.Chunks.{chunk_code, chunk_final, chunk_state, block_code, CodeFits}
use native.Mathlib.Nat.{mod-eq_of_lt}

drop-length-append : (xs ys : List ℕ) → drop (length xs) (xs ++ ys) ≡ ys
drop-length-append [] ys = refl
drop-length-append (x ∷ xs) ys = drop-length-append xs ys

module _ (P : Predictor) where
  -- Between two chunks the decoder has the encoder's interval and predictor.
  pub record Agrees (t : Decoder P) (i : Interval) (s : P.State) : Type 0 where
    pub low_eq : t.low ≡ i.low
    pub high_eq : t.high ≡ i.high
    pub state_eq : t.predictor ≡ s

  -- A chunk's code and the 56 bits behind it.
  abbrev whole_code : Interval → P.State → List ℕ → List ℕ
  whole_code i q buf = chunk_code P i q buf ++ seven_bytes (ending (chunk_final P i q buf))

  chunk_lem :
      (t : Decoder P) (i : Interval) (q : P.State) (buf stale : List ℕ)
      → IsOpen i
      → P.IsValid q
      → IsBytes buf
      → Agrees t i q
      → (t' : Decoder P) × (decode_chunk P (length buf) (record t {
        current = window (whole_code i q buf);
        buffer = drop 7 (whole_code i q buf) ++ stale;
        index = 0;
      })
          ≡ ok (buf, t'))
        × Follows P t'
            (chunk_final P i q buf)
            (chunk_state P q buf)
            (seven_bytes (ending (chunk_final P i q buf)))
            stale
  chunk_lem t i q buf stale o v b a =
      let j = chunk_final P i q buf in
      decode_chunk_lem P buf _ i q (seven_bytes (ending j)) stale o v b
        (seven_bytes-IsBytes (ending j)) (omega arith)
        (ending-Contains j (final-IsOpen P i q (byte_bits buf) o v (byte_bits-AreBits P buf)))
        (record {
          low_eq = a.low_eq;
          high_eq = a.high_eq;
          state_eq = a.state_eq;
          current_eq = refl;
          behind = refl;
        })

  module _ (in_ : InputBitStream) where
    open in_ use {remaining, read_bits_law, read_array_law}

    record Filled (n : ℕ) (bytes rest : List ℕ) (r : Exec (List ℕ × in_.State)) : Type 0 where
      stale : List ℕ
      state : in_.State
      returns : r ≡ ok (bytes ++ stale, state)
      still_open : in_.IsOpen state
      left : remaining state ≡ rest

    fill_lem :
        (s : in_.State) (bytes rest buffer : List ℕ)
        → in_.IsOpen s
        → IsBytes bytes
        → remaining s ≡ byte_bits bytes ++ rest
        → Filled (length bytes) bytes rest (fill P in_ s (length bytes) buffer)
    unfolding fill
    fill_lem s [] rest buffer o h e = record {
      stale = buffer;
      state = s;
      returns = refl;
      still_open = o;
      left = e;
    }
    fill_lem s (x ∷ bytes) rest buffer o h e =
        let (s', r, o', l) = read_array_law s (x ∷ bytes) rest o h e in
        record {
          stale = drop (length (x ∷ bytes)) buffer;
          state = s';
          returns = rw r refl;
          still_open = o';
          left = l;
        }

    -- The size, the window and the rest of the code of a chunk.
    record Loaded (len : ℕ) (s : in_.State) (w seven rest buffer : List ℕ) : Type 0 where
      s1 : in_.State
      size_read : read_var_int in_ s ≡ ok (length w, s1)
      s2 : in_.State
      window_read : in_.read_bits s1 56 ≡ ok (window (w ++ seven), s2)
      stale : List ℕ
      s3 : in_.State
      code_read : fill P in_ s2 (length w) buffer ≡ ok (drop 7 (w ++ seven) ++ stale, s3)
      still_open : in_.IsOpen s3
      left : remaining s3 ≡ rest

    load_lem :
        (len : ℕ) (s : in_.State) (w seven rest buffer : List ℕ)
        → in_.IsOpen s
        → length seven ≡ 7
        → length w < 2 ^ 28
        → IsBytes (w ++ seven)
        → remaining s
          ≡ byte_bits (var_int_bytes (length w)) ++ (byte_bits w ++ (byte_bits seven ++ rest))
        → Loaded len s w seven rest buffer
    load_lem len s w seven rest buffer o l k h e =
        let long : 7 ≤ length (w ++ seven) = omega (arith, length-append w seven, l) in
        let (s1, e1, o1, l1) = read_var_int_lem in_ s (length w) _ o (omega arith) e in
        let all_read : unread (length w) ≡ [] = ground arith in
        let size : length w % 2 ^ 28 ≡ length w = mod-eq_of_lt k in
        let together : remaining s1
            ≡ bits 56 (window (w ++ seven)) ++ (byte_bits (drop 7 (w ++ seven)) ++ rest) =
          l1
          ∙ ap (λ b. byte_bits b ++ (byte_bits w ++ (byte_bits seven ++ rest))) all_read
          ∙ sym (append_assoc (byte_bits w) (byte_bits seven) rest)
          ∙ ap (λ b. b ++ rest)
              (sym (byte_bits-append w seven) ∙ byte_bits-window (w ++ seven) h long)
          ∙ append_assoc (bits 56 (window (w ++ seven))) (byte_bits (drop 7 (w ++ seven))) rest in
        let (s2, e2, o2, l2) =
          read_bits_law s1 (window (w ++ seven)) 56 _ o1 (omega arith) (omega arith) together in
        let same : length (drop 7 (w ++ seven)) ≡ length w =
          omega (arith, length-drop 7 (w ++ seven), length-append w seven, l) in
        let f =
          fill_lem s2 (drop 7 (w ++ seven)) rest buffer o2 (drop-IsBytes 7 (w ++ seven) h) l2 in
        record {
          s1 = s1;
          size_read = e1 ∙ ap (λ n. ok (n, s1)) size;
          s2 = s2;
          window_read = e2 ∙ ap (λ n. ok (n, s2)) (mod-eq_of_lt (window_bound (w ++ seven) h long));
          stale = f.stale;
          s3 = f.state;
          code_read = ap (λ n. fill P in_ s2 n buffer) (sym same) ∙ f.returns;
          still_open = f.still_open;
          left = f.left;
        }

    -- The loop returned the block behind what was done before, and left `rest`.
    pub record HasRead (block rest : List ℕ) (r : Exec (Option (List ℕ) × (Decoder P × in_.State)))
        : Type 0 where
      pub after : Decoder P
      pub state : in_.State
      pub returns : r ≡ ok (some block, (after, state))
      pub still_open : in_.IsOpen state
      pub left : remaining state ≡ rest

    round_lem :
        (fuel : ℕ) (s s1 s2 s3 : in_.State) (t t' : Decoder P) (len left n current : ℕ)
        (buffer buf done : List ℕ)
        → read_var_int in_ s ≡ ok (n, s1)
        → ltb (u32 (buffer_size len)) n ≡ false
        → in_.read_bits s1 56 ≡ ok (current, s2)
        → fill P in_ s2 n t.buffer ≡ ok (buffer, s3)
        → decode_chunk P
            (min len (suc left))
            (record t { current = current; buffer = buffer; index = 0 })
          ≡ ok (buf, t')
        → read_chunks P in_ (suc fuel) s t len (suc left) done
          ≡ read_chunks P in_ fuel s3 t' len (suc left - min len (suc left)) (done ++ buf)
    unfolding read_chunks
    round_lem fuel s s1 s2 s3 t t' len left n current buffer buf done e1 e2 e3 e4 e5 =
        rw e1 (rw e2 (rw e3 (rw e4 (rw e5 refl))))

    regroup : (a b c d e : List ℕ) → (a ++ (b ++ (c ++ d))) ++ e ≡ a ++ (b ++ (c ++ (d ++ e)))
    regroup a b c d e =
        append_assoc a (b ++ (c ++ d)) e
        ∙ ap (λ x. a ++ x) (append_assoc b (c ++ d) e ∙ ap (λ x. b ++ x) (append_assoc c d e))

    finished :
        (rest block block' : List ℕ) (r r' : Exec (Option (List ℕ) × (Decoder P × in_.State)))
        → r ≡ r'
        → block' ≡ block
        → HasRead block' rest r'
        → HasRead block rest r
    finished rest block block' r r' e f a = rw e (rw (← f) a)

    -- With fuel for the length of the block, all of it is read.
    pub read_chunks_lem :
        (fuel : ℕ) (s : in_.State) (t : Decoder P) (i : Interval) (q : P.State) (len : ℕ)
        (block done rest : List ℕ)
        → in_.IsOpen s
        → Agrees t i q
        → IsOpen i
        → P.IsValid q
        → CodeFits P fuel (buffer_size len) i q len block
        → buffer_size len < 2 ^ 28
        → 0 < len
        → IsBytes block
        → length block ≤ fuel
        → remaining s ≡ block_code P fuel i q len block ++ rest
        → HasRead (done ++ block) rest (read_chunks P in_ fuel s t len (length block) done)
    unfolding block_code CodeFits
    read_chunks_lem fuel s t i q len [] done rest o a io v h k l b f e = record {
      after = t;
      state = s;
      returns = unfold read_chunks in ap (λ x. ok (some x, (t, s))) (sym (append-nil done));
      still_open = o;
      left = e;
    }
    read_chunks_lem zero s t i q len (val ∷ block) done rest o a io v h k l b f e =
        absurd (omega arith)
    read_chunks_lem (suc fuel) s t i q len (val ∷ block) done rest o a io v h k l b f e =
        let size = min len (length (val ∷ block)) in
        let buf = take size (val ∷ block) in
        let more = drop size (val ∷ block) in
        let w = chunk_code P i q buf in
        let i' = chunk_final P i q buf in
        let q' = chunk_state P q buf in
        let io' = final-IsOpen P i q (byte_bits buf) io v (byte_bits-AreBits P buf) in
        let v' = final_state-IsValid P q (byte_bits buf) v (byte_bits-AreBits P buf) in
        let seven = seven_bytes (ending i') in
        let coded =
          e
          ∙ regroup (byte_bits (var_int_bytes (length w))) (byte_bits w) (byte_bits seven)
              (block_code P fuel i' q' len more) rest in
        let d =
          load_lem len s w seven (block_code P fuel i' q' len more ++ rest) t.buffer o refl
            (omega (arith, h.0))
            (code-IsBytes P i q (byte_bits buf) seven (seven_bytes-IsBytes (ending i'))) coded in
        let (t', r, g) = chunk_lem t i q buf d.stale io v (take-IsBytes size (val ∷ block) b) a in
        let length_buf : length buf ≡ size = omega (arith, length-take size (val ∷ block)) in
        let length_more : length more ≡ suc (length block) - size =
          omega (arith, length-drop size (val ∷ block)) in
        let fits : ltb (u32 (buffer_size len)) (length w) ≡ false = ground (arith, h.0, k) in
        let again =
          read_chunks_lem fuel d.s3 t' i' q' len more (done ++ buf) rest d.still_open
            (record { low_eq = g.low_eq; high_eq = g.high_eq; state_eq = g.state_eq }) io' v' h.1 k
            l (drop-IsBytes size (val ∷ block) b) (omega (arith, length_more)) d.left in
        finished rest _ _ _ _
          (round_lem fuel s d.s1 d.s2 d.s3 t t' len (length block) (length w)
              (window (whole_code i q buf)) (drop 7 (whole_code i q buf) ++ d.stale) buf done
              d.size_read fits d.window_read d.code_read
              (ap
                  (λ n. decode_chunk P n (record t {
                    current = window (whole_code i q buf);
                    buffer = drop 7 (whole_code i q buf) ++ d.stale;
                    index = 0;
                  }))
                  (sym length_buf)
                ∙ r)
            ∙ ap (λ n. read_chunks P in_ fuel d.s3 t' len n (done ++ buf)) (sym length_more))
          (append_assoc done buf more ∙ ap (λ x. done ++ x) (take-append-drop size (val ∷ block)))
          again
