-- ===== src/Bitstream/Output/Push.antt =====
-- Eight bytes go to the buffer, which goes to the sink when it is full.
use kanzi_go.Base.{
  ℕ, ◌+◌, ◌*◌, ◌/◌, ◌%◌, ◌^◌, ◌<◌, ◌≤◌, ◌≡◌, refl, sym, ap, ap₂, ◌∙◌, arith, true, false, List, [],
  ◌++◌, u64, shl, ltb, leb, Bool-cases, inl, inr, length, take, drop, length-append, length-drop,
  length-take, take-length-append, append_assoc, append-nil, ok,
}
use kanzi_go.Base.Digits.{bits, byte_bits, byte_bits-append, bits-split, bits-mod_256}
use kanzi_go.Bitstream.Sink.{Sink}
use kanzi_go.Bitstream.Output.{BitOutput, put_uint64, bytes_of_64, flush, flush_if_full, push}

pub bits-bytes_of_64 : (v : ℕ) → bits 64 v ≡ byte_bits (bytes_of_64 v)
bits-bytes_of_64 v =
    let step : (k : ℕ) → bits 8 (v / 2 ^ k % 256) ≡ bits 8 (v / 2 ^ k) =
      λ k. bits-mod_256 (v / 2 ^ k) in
    bits-split 8 56 v
    ∙ ap₂ ◌++◌ (sym (step 56)) (
        bits-split 8 48 v
        ∙ ap₂ ◌++◌ (sym (step 48)) (
            bits-split 8 40 v
            ∙ ap₂ ◌++◌ (sym (step 40)) (
                bits-split 8 32 v
                ∙ ap₂ ◌++◌ (sym (step 32)) (
                    bits-split 8 24 v
                    ∙ ap₂ ◌++◌ (sym (step 24)) (
                        bits-split 8 16 v
                        ∙ ap₂ ◌++◌ (sym (step 16)) (
                            bits-split 8 8 v
                            ∙ ap₂ ◌++◌ (sym (step 8)) (
                                sym (append-nil (bits 8 v))
                                ∙ ap (λ b. b ++ []) (sym (bits-mod_256 v)))))))))

-- `mid` replaces what is in the buffer behind its first `index` bytes.
pub take-replaced :
    (index : ℕ) (buffer mid rest : List ℕ)
    → index ≤ length buffer
    → take (index + length mid) (take index buffer ++ (mid ++ rest)) ≡ take index buffer ++ mid
take-replaced index buffer mid rest h =
    let n : index + length mid ≡ length (take index buffer ++ mid) =
      omega (arith, length-append (take index buffer) mid, length-take index buffer) in
    ap (λ k. take k (take index buffer ++ (mid ++ rest))) n
    ∙ ap (take (length (take index buffer ++ mid)))
        (sym (append_assoc (take index buffer) mid rest))
    ∙ take-length-append (take index buffer ++ mid) rest

pub length-replaced :
    (index : ℕ) (buffer mid : List ℕ)
    → index + length mid ≤ length buffer
    → length (take index buffer ++ (mid ++ drop (index + length mid) buffer)) ≡ length buffer
length-replaced index buffer mid h = omega (
  arith,
  length-append (take index buffer) (mid ++ drop (index + length mid) buffer),
  length-append mid (drop (index + length mid) buffer),
  length-take index buffer,
  length-drop (index + length mid) buffer,
)

module _ (os : Sink) where
  -- What holds of the buffer and the sink, whatever is in `current`.
  pub record IsReady (t : BitOutput os) : Type 0 where
    pub is_open : t.closed ≡ false
    pub room : t.position + 8 ≤ length t.buffer
    pub aligned : t.position % 8 ≡ 0
    pub sized : 1024 ≤ length t.buffer
    pub whole : length t.buffer % 8 ≡ 0
    pub sink_open : os.IsOpen t.sink

  -- The bits before those of `current`.
  abbrev pub flushed : BitOutput os → List ℕ
  flushed t = byte_bits (os.received t.sink) ++ byte_bits (take t.position t.buffer)

  pub record Pushed (t t' : BitOutput os) (new : List ℕ) : Type 0 where
    pub ready : IsReady t'
    pub appended : flushed t' ≡ flushed t ++ byte_bits new
    pub counted :
        u64 (t'.written + shl t'.position 3) ≡ u64 (t.written + shl t.position 3 + 8 * length new)
    pub current_eq : t'.current ≡ t.current
    pub avail_eq : t'.avail_bits ≡ t.avail_bits
    pub length_eq : length t'.buffer ≡ length t.buffer

  flush_eq :
      (t : BitOutput os) (s : os.State)
      → t.closed ≡ false
      → 0 < t.position
      → t.position ≤ length t.buffer
      → os.write t.sink (take t.position t.buffer) ≡ (false, s)
      → flush os t
        ≡ ok (
          false,
          record t { sink = s; written = u64 (t.written + shl t.position 3); position = 0 },
        )
  unfolding flush
  flush_eq t s o p h e =
      let some_bytes : ltb 0 t.position ≡ true = ground arith in
      let fits : leb t.position (length t.buffer) ≡ true = ground arith in
      rw (o, some_bytes, fits, e) refl

  -- All of the buffer goes to the sink.
  pub flush_lem :
      (t : BitOutput os)
      → t.closed ≡ false
      → os.IsOpen t.sink
      → 0 < t.position
      → t.position ≤ length t.buffer
      → 1024 ≤ length t.buffer
      → length t.buffer % 8 ≡ 0
      → (t' : BitOutput os) × (flush os t ≡ ok (false, t'))
        × Pushed t t' []
        × (t'.position ≡ 0)
        × (os.received t'.sink ≡ os.received t.sink ++ take t.position t.buffer)
  flush_lem t c o p h k w =
      let (s, e, o', r) = os.write_law t.sink (take t.position t.buffer) o in
      (
        record t { sink = s; written = u64 (t.written + shl t.position 3); position = 0 },
        flush_eq t s c p h e,
        record {
          ready = record {
            is_open = c;
            room = omega arith;
            aligned = refl;
            whole = w;
            sized = k;
            sink_open = o';
          };
          appended =
              ap (λ x. byte_bits x ++ []) r
              ∙ ap (λ x. x ++ [])
                  (byte_bits-append (os.received t.sink) (take t.position t.buffer));
          counted = omega arith;
          current_eq = refl;
          avail_eq = refl;
          length_eq = refl;
        },
        refl,
        r,
      )

  flush_if_full_lem :
      (t : BitOutput os)
      → t.closed ≡ false
      → os.IsOpen t.sink
      → 0 < t.position
      → t.position ≤ length t.buffer
      → 1024 ≤ length t.buffer
      → length t.buffer % 8 ≡ 0
      → t.position % 8 ≡ 0
      → (t' : BitOutput os) × (flush_if_full os t ≡ ok t') × Pushed t t' []
  unfolding flush_if_full
  flush_if_full_lem t c o p h k w a = elim (Bool-cases (leb (length t.buffer) (t.position + 8))) [
    | inl full ↦ let (t', e, q, z, r) = flush_lem t c o p h k w in (t', rw full (rw e refl), q)
    | inr not_full ↦ (
      t,
      rw not_full refl,
      record {
        ready = record {
          is_open = c;
          room = ground arith;
          aligned = a;
          whole = w;
          sized = k;
          sink_open = o;
        };
        appended = sym (append-nil (flushed t));
        counted = omega arith;
        current_eq = refl;
        avail_eq = refl;
        length_eq = refl;
      },
    )
  ]

  put_eq :
      (t t' : BitOutput os) (val : ℕ)
      → t.position + 8 ≤ length t.buffer
      → flush_if_full os (record t {
        buffer = take t.position t.buffer ++ (bytes_of_64 val ++ drop (t.position + 8) t.buffer);
        position = t.position + 8;
      })
        ≡ ok t'
      → push os t val ≡ ok t'
  unfolding push put_uint64
  put_eq t t' val h e =
      let fits : leb (t.position + 8) (length t.buffer) ≡ true = ground arith in rw fits e

  -- Push the eight bytes of a value.
  pub push_lem :
      (t : BitOutput os) (val : ℕ)
      → IsReady t
      → (t' : BitOutput os) × (push os t val ≡ ok t') × Pushed t t' (bytes_of_64 val)
  push_lem t val r =
      let room = r.room in
      let aligned = r.aligned in
      let whole = r.whole in
      let sized = r.sized in
      let buffer =
        take t.position t.buffer ++ (bytes_of_64 val ++ drop (t.position + 8) t.buffer) in
      let l : length buffer ≡ length t.buffer =
        length-replaced t.position t.buffer (bytes_of_64 val) (omega arith) in
      let u : BitOutput os = record t { buffer = buffer; position = t.position + 8 } in
      let (t', e, q) =
        flush_if_full_lem u r.is_open r.sink_open (omega arith) (omega (arith, l))
          (omega (arith, l)) (omega (arith, l, whole)) (omega (arith, aligned)) in
      let taken =
        take-replaced t.position t.buffer (bytes_of_64 val) (drop (t.position + 8) t.buffer)
          (omega arith) in
      let a = q.counted in
      (
        t',
        put_eq t t' val (omega arith) e,
        record {
          ready = q.ready;
          appended =
              q.appended
              ∙ append-nil (flushed u)
              ∙ ap (λ x. byte_bits (os.received t.sink) ++ byte_bits x) taken
              ∙ ap (λ x. byte_bits (os.received t.sink) ++ x)
                  (byte_bits-append (take t.position t.buffer) (bytes_of_64 val))
              ∙ sym (
                  append_assoc (byte_bits (os.received t.sink))
                    (byte_bits (take t.position t.buffer)) (byte_bits (bytes_of_64 val)));
          counted = omega (arith, a);
          current_eq = q.current_eq;
          avail_eq = q.avail_eq;
          length_eq = q.length_eq ∙ l;
        },
      )
