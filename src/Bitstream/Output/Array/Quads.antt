-- ===== src/Bitstream/Output/Array/Quads.antt =====
-- The loop of `WriteArray` over four words at a time.
use kanzi_go.Base.Bytes.{drop-IsBytes}
use kanzi_go.Base.{
  ℕ, zero, suc, ◌+◌, ◌-◌, ◌*◌, ◌/◌, ◌^◌, ◌<◌, ◌≤◌, ◌≡◌, refl, sym, ap, ap₂, ◌∙◌, arith, true, false,
  List, [], ◌++◌, u64, shl, shr, leb, bit_or, Bool-cases, inl, inr, length, take, drop,
  append_assoc, append-nil, length-take, length-drop, drop-add, ok, IsBytes,
}
use kanzi_go.Base.Digits.{bits, byte_bits, byte_bits-append}
use kanzi_go.Bitstream.Sink.{Sink}
use kanzi_go.Bitstream.Output.{BitOutput, put_uint64, uint64_of, bytes_of_64}
use kanzi_go.Bitstream.Output.Push.{
  IsReady, flushed, Pushed, flush_lem, take-replaced, length-replaced,
}
use kanzi_go.Bitstream.Output.Array.{write_quads, flush_quad}
use kanzi_go.Bitstream.Output.Array.Progress.{take-drop-append}
use kanzi_go.Bitstream.Output.Array.Shift.{
  Word, word_lem, word_in, Pending, Shifted, shift_step, trans-Shifted, nothing-Shifted, Shifting,
  pending_bits,
}

module _ (os : Sink) where
  record Stored (t : BitOutput os) (val : ℕ) : Type 0 where
    buffer : List ℕ
    returns : put_uint64 t.buffer t.position val ≡ ok buffer
    pushed : Pushed os t (record t { buffer = buffer; position = t.position + 8 }) (bytes_of_64 val)

  store_lem :
      (t : BitOutput os) (val : ℕ) → IsReady os t → t.position + 16 ≤ length t.buffer → Stored t val
  unfolding put_uint64
  store_lem t val r h =
      let whole = r.whole in
      let aligned = r.aligned in
      let sized = r.sized in
      let fits : leb (t.position + 8) (length t.buffer) ≡ true = ground arith in
      let c = byte_bits (os.received t.sink) in
      let l = length-replaced t.position t.buffer (bytes_of_64 val) (omega arith) in
      record {
        buffer = take t.position t.buffer ++ (bytes_of_64 val ++ drop (t.position + 8) t.buffer);
        returns = rw fits refl;
        pushed = record {
          ready = record {
            is_open = r.is_open;
            room = omega (arith, l);
            aligned = omega arith;
            sized = omega (arith, l);
            whole = omega (arith, l);
            sink_open = r.sink_open;
          };
          appended =
              ap (λ x. c ++ byte_bits x)
                (take-replaced t.position t.buffer (bytes_of_64 val)
                  (drop (t.position + 8) t.buffer) (omega arith))
              ∙ ap (λ x. c ++ x) (byte_bits-append (take t.position t.buffer) (bytes_of_64 val))
              ∙ sym (
                  append_assoc c (byte_bits (take t.position t.buffer))
                    (byte_bits (bytes_of_64 val)));
          counted = omega arith;
          current_eq = refl;
          avail_eq = refl;
          length_eq = l;
        };
      }

  -- The flush before four words leaves room for them.
  flush_quad_lem :
      (t : BitOutput os)
      → IsReady os t
      → (t' : BitOutput os) × (flush_quad os t ≡ ok t')
        × Pushed os t t' []
        × (t'.position + 40 ≤ length t'.buffer)
  unfolding flush_quad
  flush_quad_lem t r =
      let room = r.room in
      let aligned = r.aligned in
      let whole = r.whole in
      let sized = r.sized in
      elim (Bool-cases (leb (length t.buffer) (t.position + 32))) [
        | inl full ↦
            let near : length t.buffer ≤ t.position + 32 = ground arith in
            let (t', e, q, z, s) =
              flush_lem os t r.is_open r.sink_open (omega arith) (omega arith) sized whole in
            let l = q.length_eq in (t', rw full (rw e refl), q, omega (arith, l))
        | inr free ↦
            let far : t.position + 32 < length t.buffer = ground arith in
            (
              t,
              rw free refl,
              record {
                ready = r;
                appended = sym (append-nil (flushed os t));
                counted = omega arith;
                current_eq = refl;
                avail_eq = refl;
                length_eq = refl;
              },
              omega arith,
            )
      ]

  quad_eq :
      (fuel a m : ℕ) (t t1 : BitOutput os) (bits : List ℕ) (val1 val2 val3 val4 : ℕ)
      (b1 b2 b3 b4 : List ℕ)
      → 32 ≤ m
      → uint64_of bits ≡ ok val1
      → uint64_of (drop 8 bits) ≡ ok val2
      → uint64_of (drop 16 bits) ≡ ok val3
      → uint64_of (drop 24 bits) ≡ ok val4
      → flush_quad os (record t { current = bit_or t.current (shr val1 (64 - a)) }) ≡ ok t1
      → put_uint64 t1.buffer t1.position t1.current ≡ ok b1
      → put_uint64 b1 (t1.position + 8) (bit_or (u64 (shl val1 a)) (shr val2 (64 - a))) ≡ ok b2
      → put_uint64 b2 (t1.position + 8 + 8) (bit_or (u64 (shl val2 a)) (shr val3 (64 - a))) ≡ ok b3
      → put_uint64 b3 (t1.position + 8 + 8 + 8) (bit_or (u64 (shl val3 a)) (shr val4 (64 - a)))
        ≡ ok b4
      → write_quads os (suc fuel) a t bits (8 * m)
        ≡ write_quads os fuel a
            (record t1 {
              buffer = b4;
              current = u64 (shl val4 a);
              avail_bits = 64;
              position = t1.position + 8 + 8 + 8 + 8;
            })
            (drop 32 bits)
            (8 * (m - 32))
  unfolding write_quads
  quad_eq fuel a m t t1 bits val1 val2 val3 val4 b1 b2 b3 b4 h e1 e2 e3 e4 f g1 g2 g3 g4 =
      let more : leb 256 (8 * m) ≡ true = ground arith in
      let less : 8 * m - 256 ≡ 8 * (m - 32) = omega arith in
      let p16 : t1.position + 16 ≡ t1.position + 8 + 8 = omega arith in
      let p24 : t1.position + 24 ≡ t1.position + 8 + 8 + 8 = omega arith in
      let p32 : t1.position + 32 ≡ t1.position + 8 + 8 + 8 + 8 = omega arith in
      let h3 = ap (λ p. put_uint64 b2 p (bit_or (u64 (shl val2 a)) (shr val3 (64 - a)))) p16 ∙ g3 in
      let h4 = ap (λ p. put_uint64 b3 p (bit_or (u64 (shl val3 a)) (shr val4 (64 - a)))) p24 ∙ g4 in
      rw (more, write_quads)
        (rw (e1, write_quads)
          (rw (e2, write_quads)
            (rw (e3, write_quads)
              (rw (e4, write_quads)
                (rw (f, write_quads)
                  (rw (g1, write_quads)
                    (rw (g2, write_quads)
                      (rw (h3, write_quads)
                        (rw (h4, write_quads)
                          (ap₂
                            (λ p n.
                              write_quads os fuel a
                                (record t1 {
                                  buffer = b4;
                                  current = u64 (shl val4 a);
                                  avail_bits = 64;
                                  position = p;
                                })
                                (drop 32 bits) n)
                            p32 less))))))))))

  -- One of the four words.
  record Step (a : ℕ) (t : BitOutput os) (val : ℕ) (new : List ℕ) : Type 0 where
    buffer : List ℕ
    stored : put_uint64 t.buffer t.position (bit_or t.current (shr val (64 - a))) ≡ ok buffer
    shifted :
        Shifted os a t
          (record t {
            buffer = buffer;
            position = t.position + 8;
            avail_bits = 64;
            current = u64 (shl val a);
          })
          new
    length_eq : length buffer ≡ length t.buffer

  step_lem :
      (a : ℕ) (t : BitOutput os) (l : List ℕ) (w : Word l)
      → Pending os a t
      → a ≤ 64
      → t.position + 16 ≤ length t.buffer
      → 8 ≤ length l
      → Step a t w.val (take 8 l)
  step_lem a t l w p h k n =
      let value =
        ap (λ c. bit_or c (shr w.val (64 - a))) p.current_eq ∙ word_in p.used a w.val h w.bound in
      let s = store_lem t (bit_or t.current (shr w.val (64 - a))) p.ready k in
      record {
        buffer = s.buffer;
        stored = s.returns;
        shifted =
            shift_step os a w.val 64 t (record t { buffer = s.buffer; position = t.position + 8 })
              (take 8 l) p h w.bound (with-Pushed t _ _ _ value s.pushed) w.same_bits
              (omega (arith, length-take 8 l));
        length_eq = s.pushed.length_eq;
      }
    where
      with-Pushed :
          (t t' : BitOutput os) (x y : ℕ)
          → x ≡ y
          → Pushed os t t' (bytes_of_64 x)
          → Pushed os t t' (bytes_of_64 y)
      with-Pushed t t' x y e p = rw (← e) p

  flushed-Shifted :
      (a : ℕ) (t t1 : BitOutput os) (c : ℕ)
      → Pending os a t
      → Pushed os (record t { current = c }) t1 []
      → Shifted os a t (record t1 { current = t.current }) []
  flushed-Shifted a t t1 c p q = record {
    pending = record {
      ready = record {
        is_open = q.ready.is_open;
        room = q.ready.room;
        aligned = q.ready.aligned;
        sized = q.ready.sized;
        whole = q.ready.whole;
        sink_open = q.ready.sink_open;
      };
      used = p.used;
      current_eq = p.current_eq;
      used_bound = p.used_bound;
    };
    appended =
        ap (λ f. f ++ bits (64 - a) (t.current / 2 ^ a)) (q.appended ∙ append-nil (flushed os t))
        ∙ sym (append-nil (pending_bits os a t));
    counted = q.counted;
  }

  -- Four words, and the stream after them.
  record Quad (fuel a : ℕ) (t : BitOutput os) (bits : List ℕ) (m : ℕ) : Type 0 where
    next : BitOutput os
    round :
        write_quads os (suc fuel) a t bits (8 * m)
        ≡ write_quads os fuel a next (drop 32 bits) (8 * (m - 32))
    shifted : Shifted os a t next (take 32 bits)

  quad_lem :
      (fuel a : ℕ) (t : BitOutput os) (bits : List ℕ) (m : ℕ)
      → Pending os a t
      → a ≤ 64
      → IsBytes bits
      → m ≤ length bits
      → 32 ≤ m
      → Quad fuel a t bits m
  quad_lem fuel a t bits m p h i l k =
      let n8 = length-drop 8 bits in
      let n16 = length-drop 16 bits in
      let n24 = length-drop 24 bits in
      let x1 = word_lem bits i (omega arith) in
      let x2 = word_lem (drop 8 bits) (drop-IsBytes 8 bits i) (omega (arith, n8)) in
      let x3 = word_lem (drop 16 bits) (drop-IsBytes 16 bits i) (omega (arith, n16)) in
      let x4 = word_lem (drop 24 bits) (drop-IsBytes 24 bits i) (omega (arith, n24)) in
      let joined = bit_or t.current (shr x1.val (64 - a)) in
      let (t1, f, q, room) =
        flush_quad_lem (record t { current = joined }) (again t joined p.ready) in
      let g = flushed-Shifted a t t1 joined p q in
      let s1 =
        step_lem a (record t1 { current = t.current }) bits x1 g.pending h (omega arith)
          (omega arith) in
      let m1 = s1.length_eq in
      let s2 =
        step_lem a _ (drop 8 bits) x2 s1.shifted.pending h (omega (arith, m1))
          (omega (arith, n8)) in
      let m2 = s2.length_eq in
      let s3 =
        step_lem a _ (drop 16 bits) x3 s2.shifted.pending h (omega (arith, m1, m2))
          (omega (arith, n16)) in
      let m3 = s3.length_eq in
      let s4 =
        step_lem a _ (drop 24 bits) x4 s3.shifted.pending h (omega (arith, m1, m2, m3))
          (omega (arith, n24)) in
      let first = ap (put_uint64 t1.buffer t1.position) q.current_eq ∙ s1.stored in
      let y1 = trans-Shifted os a t _ _ [] (take 8 bits) (take 8 bits) refl g s1.shifted in
      let y2 =
        trans-Shifted os a t _ _ (take 8 bits) (take 8 (drop 8 bits)) (take 16 bits)
          (take-drop-append 8 8 bits) y1 s2.shifted in
      let y3 =
        trans-Shifted os a t _ _ (take 16 bits) (take 8 (drop 16 bits)) (take 24 bits)
          (take-drop-append 16 8 bits) y2 s3.shifted in
      let y4 =
        trans-Shifted os a t _ _ (take 24 bits) (take 8 (drop 24 bits)) (take 32 bits)
          (take-drop-append 24 8 bits) y3 s4.shifted in
      record {
        next = record t1 {
          buffer = s4.buffer;
          current = u64 (shl x4.val a);
          avail_bits = 64;
          position = t1.position + 8 + 8 + 8 + 8;
        };
        round =
            quad_eq fuel a m t t1 bits x1.val x2.val x3.val x4.val s1.buffer s2.buffer s3.buffer
              s4.buffer k x1.returns x2.returns x3.returns x4.returns f first s2.stored s3.stored
              s4.stored;
        shifted = y4;
      }
    where
      again : (t : BitOutput os) (c : ℕ) → IsReady os t → IsReady os (record t { current = c })
      again t c r = record {
        is_open = r.is_open;
        room = r.room;
        aligned = r.aligned;
        sized = r.sized;
        whole = r.whole;
        sink_open = r.sink_open;
      }

  quads_stop :
      (fuel a m : ℕ) (t : BitOutput os) (bits : List ℕ)
      → m < 32
      → write_quads os (suc fuel) a t bits (8 * m) ≡ ok (t, bits, 8 * m)
  unfolding write_quads
  quads_stop fuel a m t bits h =
      let done : leb 256 (8 * m) ≡ false = ground arith in rw (done, write_quads) refl

  pub write_quads_lem :
      (fuel a : ℕ) (t : BitOutput os) (bits : List ℕ) (m : ℕ)
      → Pending os a t
      → a ≤ 64
      → IsBytes bits
      → m ≤ length bits
      → m < fuel
      → Shifting os a t bits m (write_quads os fuel a t bits (8 * m))
  write_quads_lem zero a t bits m p h i l f = absurd (omega arith)
  write_quads_lem (suc fuel) a t bits m p h i l f = elim (Bool-cases (leb 32 m)) [
    | inr few ↦ record {
      after = t;
      k = 0;
      bound = omega arith;
      returns =
          quads_stop fuel a m t bits (ground arith) ∙ ap (λ n. ok (t, bits, 8 * n)) (omega arith);
      shifted = nothing-Shifted os a t p;
    }
    | inl many ↦
        let more : 32 ≤ m = ground arith in
        let q = quad_lem fuel a t bits m p h i l more in
        let r =
          write_quads_lem fuel a q.next (drop 32 bits) (m - 32) q.shifted.pending h
            (drop-IsBytes 32 bits i) (omega (arith, length-drop 32 bits)) (omega arith) in
        let bound = r.bound in
        let left : m - 32 - r.k ≡ m - (32 + r.k) = omega arith in
        record {
          after = r.after;
          k = 32 + r.k;
          bound = omega arith;
          returns =
              q.round
              ∙ r.returns
              ∙ ap₂ (λ x n. ok (r.after, x, 8 * n)) (sym (drop-add 32 r.k bits)) left;
          shifted =
              trans-Shifted os a t q.next r.after _ _ _ (take-drop-append 32 r.k bits) q.shifted
                r.shifted;
        }
  ]
