-- ===== src/Socket/Safety.antt =====
-- How WriteTCPMsg can end, on any bytes.
use sg_core.Prelude.{
  ℕ, zero, suc, ◌+◌, ◌^◌, ◌≤◌, ◌<◌, ◌≡◌, ap, ◌∙◌, inl, inr, some, List, [], ◌∷◌, ◌++◌, length, take,
  drop, arith, ltb, lt→ltb, ltb→lt, le→leb, Bool-cases, ℤ, pos, negsuc, signed64, length-drop,
  take_all,
}
use sg_core.Socket.Frame.{
  Bytes, msg_length_size, le_value, read_int64, slice, Frame, done, unreadable, overrun, message,
  judge, next_frame, Written, parsed, failed, panicked, starved, write_loop, write_tcp_msg,
}

-- A message that is found lies behind its length and within the bytes.
Lies : ℕ → ℕ → Frame → Type 0
Lies n position done = Unit
Lies n position unreadable = ⊥
Lies n position overrun = Unit
Lies n position (message end) = (position + msg_length_size ≤ end) × (end ≤ n)

judge-Lies :
    (n position : ℕ) (msg_length : ℤ)
    → position + msg_length_size < n
    → n < 2 ^ 63
    → Lies n position (judge n position msg_length)
unfolding judge Lies
judge-Lies n position (pos k) room small = ground arith
judge-Lies n position (negsuc k) room small = ground arith

-- Eight bytes can be read.
read_int64-some :
    (reader : Bytes) (position : ℕ)
    → position + msg_length_size ≤ length reader
    → (l : ℤ) × (read_int64 reader position ≡ some l)
unfolding read_int64
read_int64-some reader position room = (
  signed64 (le_value (take msg_length_size (drop position reader))),
  rw (
      le→leb msg_length_size (length (drop position reader))
        (omega (arith, length-drop position reader))),
)

next_frame-Lies :
    (reader : Bytes) (position : ℕ)
    → length reader < 2 ^ 63
    → Lies (length reader) position (next_frame reader (length reader) position)
unfolding next_frame
next_frame-Lies reader position small =
    elim (Bool-cases (ltb (position + msg_length_size) (length reader))) [
      | inr short ↦ rw (short, next_frame) (unfold Lies in tt)
      | inl room ↦
          let r = read_int64-some reader position (omega (arith, ltb→lt _ _ room)) in
          rw (room, next_frame)
            (rw r.1 (judge-Lies (length reader) position r.0 (ltb→lt _ _ room) small))
    ]

-- The call returns no error, and a position within the bytes, or it panics.
abbrev pub EndsWithin : ℕ → Written → Type 0
EndsWithin n (parsed position out) = position ≤ n
EndsWithin n (failed position out) = ⊥
EndsWithin n (panicked out) = Unit
EndsWithin n (starved out) = ⊥

write_loop-EndsWithin :
    (buf : Bytes) (fuel position : ℕ) (out : List Bytes)
    → length buf < 2 ^ 63
    → position ≤ length buf
    → length buf < position + fuel
    → EndsWithin (length buf) (write_loop fuel buf (length buf) position out)
unfolding write_loop Lies
write_loop-EndsWithin buf zero position out small within fuelled = absurd (omega arith)
write_loop-EndsWithin buf (suc fuel) position out small within fuelled =
    go (next_frame (take (length buf) buf) (length buf) position)
      (rw (take_all buf) (next_frame-Lies buf position small))
      (λ end l.
        write_loop-EndsWithin buf fuel end (out ++ slice buf (position + msg_length_size) end ∷ [])
          small l.1 (omega (arith, l.0)))
  where
    next : ℕ → Written
    next end =
        write_loop fuel buf (length buf) end
          (out ++ slice buf (position + msg_length_size) end ∷ [])

    go :
        (f : Frame)
        → Lies (length buf) position f
        → ((end : ℕ)
            → Lies (length buf) position (message end)
            → EndsWithin (length buf) (next end))
        → EndsWithin (length buf) (elim f [
          | done ↦ parsed position out
          | unreadable ↦ failed position out
          | overrun ↦ panicked out
          | message end ↦ next end
        ])
    go done l k = within
    go unreadable l k = elim l [ ]
    go overrun l k = tt
    go (message end) l k = k end l

-- On bytes of any content, fewer than 2 ^ 63 of them, the call ends: it panics, or it returns no error
-- and a position within the bytes. Neither a read error nor the bound on the rounds is ever met.
pub write_tcp_msg_total :
    (buf : Bytes) → length buf < 2 ^ 63 → EndsWithin (length buf) (write_tcp_msg buf (length buf))
unfolding write_tcp_msg
write_tcp_msg_total buf small =
    write_loop-EndsWithin buf (suc (length buf)) 0 [] small (omega arith) (omega arith)

judge_negative :
    (n position k : ℕ)
    → position + msg_length_size < n
    → n < 2 ^ 63
    → k < position + msg_length_size
    → judge n position (negsuc k) ≡ overrun
unfolding judge
judge_negative n position k room small h = ground arith

-- A frame whose length field is negative, with the frame's body not before the start of the buffer,
-- makes the slice run backwards: the call panics, whatever the other bytes are. Here the frame is the
-- first one, and its length one of -1 to -8.
pub write_tcp_msg_negative :
    (buf : Bytes) (k : ℕ)
    → msg_length_size < length buf
    → length buf < 2 ^ 63
    → read_int64 buf 0 ≡ some (negsuc k)
    → k < msg_length_size
    → write_tcp_msg buf (length buf) ≡ panicked []
unfolding write_tcp_msg write_loop
write_tcp_msg_negative buf k room small header h = rw (first, write_loop)
  where
    first : next_frame (take (length buf) buf) (length buf) 0 ≡ overrun
    first =
        ap (λ b. next_frame b (length buf) 0) (take_all buf)
        ∙ (unfold next_frame in
            rw (lt→ltb msg_length_size (length buf) room)
              (rw header (judge_negative (length buf) 0 k room small h)))
