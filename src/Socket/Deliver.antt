-- ===== src/Socket/Deliver.antt =====
-- WriteTCPMsg on any part of a stream of messages.
use sg_core.Prelude.{
  ℕ, zero, suc, ◌+◌, ◌-◌, ◌^◌, ◌≤◌, ◌<◌, ◌≡◌, refl, sym, ap, ◌∙◌, some, List, [], ◌∷◌, ◌++◌,
  append-nil, append_assoc, length, take, drop, arith, ltb, lt→ltb, ltb→lt, ge→ltb, ltb_false→ge,
  ◌⊎◌, false, ◌-◌, if◌then◌else◌, Bool-cases, inl, inr, pos, length-append, length-drop, take_all,
  All,
}
use sg_core.Socket.Frame.{
  Bytes, msg_length_size, read_int64, slice, done, message, judge, next_frame, Written, parsed,
  write_loop,
}
use sg_core.Socket.Stream.{encode, length-encode_cons, read_int64-frame, slice-frame, rest-frame}

judge_small :
    (n position size : ℕ)
    → position + msg_length_size + size < 2 ^ 63
    → judge n position (pos size) ≡ (
        if ltb n (position + msg_length_size + size)
        then done
        else message (position + msg_length_size + size))
unfolding judge
judge_small n position size h = ground arith

next_frame_small :
    (buf : Bytes) (n position size : ℕ)
    → position + msg_length_size < n
    → position + msg_length_size + size < 2 ^ 63
    → read_int64 buf position ≡ some (pos size)
    → next_frame buf n position ≡ (
        if ltb n (position + msg_length_size + size)
        then done
        else message (position + msg_length_size + size))
unfolding next_frame
next_frame_small buf n position size room small e =
    rw (lt→ltb (position + msg_length_size) n room) (rw e (judge_small n position size small))

-- How far a call gets with the messages `ms`, whose bytes lie from its position on and in `e`,
-- the bytes still to come: it hands over the messages `now` and leaves the bytes of `later`.
pub record Progress (buf e : Bytes) (out ms : List Bytes) (w : Written) : Type 0 where
  pub now : List Bytes
  pub later : List Bytes
  pub stop : ℕ
  pub split : ms ≡ now ++ later
  pub result : w ≡ parsed stop (out ++ now)
  pub within : stop ≤ length buf
  pub left : drop stop buf ++ e ≡ encode later
  pub complete : e ≡ [] → All (λ m. 0 < length m) ms → later ≡ []

-- No frame is complete: the call returns, and everything is left.
Progress-stop :
    (buf e : Bytes) (out ms : List Bytes) (position fuel : ℕ)
    → position ≤ length buf
    → drop position buf ++ e ≡ encode ms
    → next_frame (take (length buf) buf) (length buf) position ≡ done
    → (e ≡ [] → All (λ m. 0 < length m) ms → ms ≡ [])
    → Progress buf e out ms (write_loop (suc fuel) buf (length buf) position out)
unfolding write_loop
Progress-stop buf e out ms position fuel within left stops complete = record {
  now = [];
  later = ms;
  stop = position;
  split = refl;
  result = rw (stops, write_loop) (ap (parsed position) (sym (append-nil out)));
  within = within;
  left = left;
  complete = complete;
}

-- One message is handed over before the others.
Progress-message :
    (buf e m : Bytes) (out ms : List Bytes) (position end fuel : ℕ)
    → next_frame (take (length buf) buf) (length buf) position ≡ message end
    → slice buf (position + msg_length_size) end ≡ m
    → Progress buf e (out ++ m ∷ []) ms (write_loop fuel buf (length buf) end (out ++ m ∷ []))
    → Progress buf e out (m ∷ ms) (write_loop (suc fuel) buf (length buf) position out)
unfolding write_loop
Progress-message buf e m out ms position end fuel found cut p = record {
  now = m ∷ p.now;
  later = p.later;
  stop = p.stop;
  split = ap (◌∷◌ m) p.split;
  result =
      rw (found, write_loop)
        (rw cut (p.result ∙ ap (parsed p.stop) (append_assoc out (m ∷ []) p.now)));
  within = p.within;
  left = p.left;
  complete = λ ended full. p.complete ended full.1;
}

-- With nothing still to come, the bytes from the position on are those of the messages.
size_left :
    (buf e s : Bytes) (position : ℕ)
    → drop position buf ++ e ≡ s
    → e ≡ []
    → length buf - position ≡ length s
size_left buf e s position stream ended = omega (
  arith,
  ap length stream,
  length-append (drop position buf) e,
  ap length ended,
  length-drop position buf,
)

next_frame_short :
    (buf : Bytes) (n position : ℕ)
    → ltb (position + msg_length_size) n ≡ false
    → next_frame buf n position ≡ done
unfolding next_frame
next_frame_short buf n position short = rw short

module _ (buf e m : Bytes) (ms : List Bytes) (position : ℕ)
    (stream : drop position buf ++ e ≡ encode (m ∷ ms)) where
  -- A full message is not left behind at the end of the stream.
  not_ended :
      length buf < position + msg_length_size + length m ⊎ length buf ≤ position + msg_length_size
      → e ≡ []
      → All (λ (m' : Bytes). 0 < length m') (m ∷ ms)
      → m ∷ ms ≡ []
  not_ended short ended full = absurd (
      omega (
        arith,
        size_left buf e (encode (m ∷ ms)) position stream ended,
        length-encode_cons m ms,
        full.0,
      ))

  module _ (room : position + msg_length_size < length buf)
      (small : position + length (encode (m ∷ ms)) < 2 ^ 63) where
    next_frame-frame : next_frame (take (length buf) buf) (length buf) position ≡ (
        if ltb (length buf) (position + msg_length_size + length m)
        then done
        else message (position + msg_length_size + length m))
    unfolding encode
    next_frame-frame =
        ap (λ b. next_frame b (length buf) position) (take_all buf)
        ∙ next_frame_small buf (length buf) position (length m) room
            (omega (arith, length-encode_cons m ms))
            (read_int64-frame buf e m (encode ms) position stream (omega arith)
              (omega (arith, length-encode_cons m ms)))

module _ (buf e : Bytes) where
  -- The position is below 2 ^ 63, with all that follows.
  pub write_loop-Progress :
      (ms out : List Bytes) (position fuel : ℕ)
      → position ≤ length buf
      → length buf < position + fuel
      → position + length (encode ms) < 2 ^ 63
      → drop position buf ++ e ≡ encode ms
      → Progress buf e out ms (write_loop fuel buf (length buf) position out)
  unfolding encode
  write_loop-Progress ms out position zero within fuelled small stream = absurd (omega arith)
  write_loop-Progress [] out position (suc fuel) within fuelled small stream =
      Progress-stop buf e out [] position fuel within stream
        (next_frame_short _ (length buf) position (
          ge→ltb _ _ (
            omega (
              arith,
              ap length stream,
              length-append (drop position buf) e,
              length-drop position buf,
            ))))
        (λ _ _. refl)
  write_loop-Progress (m ∷ ms) out position (suc fuel) within fuelled small stream =
      elim (Bool-cases (ltb (position + msg_length_size) (length buf))) [
        | inr short ↦
            Progress-stop buf e out (m ∷ ms) position fuel within stream
              (next_frame_short _ (length buf) position short)
              (not_ended buf e m ms position stream (inr (ltb_false→ge _ _ short)))
        | inl room ↦ elim (Bool-cases (ltb (length buf) end)) [
          | inl partial ↦
              Progress-stop buf e out (m ∷ ms) position fuel within stream
                (next_frame-frame buf e m ms position stream (ltb→lt _ _ room) small ∙ (rw partial))
                (not_ended buf e m ms position stream (inl (ltb→lt _ _ partial)))
          | inr whole ↦
              let fits : end ≤ length buf = ltb_false→ge _ _ whole in
              Progress-message buf e m out ms position end fuel
                (next_frame-frame buf e m ms position stream (ltb→lt _ _ room) small ∙ (rw whole))
                (slice-frame buf e m (encode ms) position stream (omega arith) fits)
                (write_loop-Progress ms (out ++ m ∷ []) end fuel fits (omega arith)
                  (omega (arith, length-encode_cons m ms))
                  (rest-frame buf e m (encode ms) position stream (omega arith) fits))
        ]
      ]
    where
      end : ℕ
      end = position + msg_length_size + length m
