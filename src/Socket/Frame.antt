-- ===== src/Socket/Frame.antt =====
-- The TCP framing of plugins/transport/socket/main.go: every message comes behind its length, an
-- int64 in eight little-endian bytes. A slice, a read and a position follow Go's rules: a slice
-- whose bounds cross panics, and the int64 sums that involve the length wrap around.
use sg_core.Prelude.{
  ℕ, zero, suc, ◌+◌, ◌-◌, ◌*◌, ◌||◌, Option, none, some, List, [], ◌∷◌, ◌++◌, length, take, drop,
  ltb, leb, if◌then◌else◌, ℤ, pos, negsuc, ◌+ℤ◌, ltbℤ, signed64, wrap64,
}

abbrev pub Bytes : Type 0
Bytes = List ℕ

abbrev pub msg_length_size : ℕ
msg_length_size = 8

-- The number that little-endian bytes stand for.
unfoldable pub le_value : Bytes → ℕ
le_value [] = 0
le_value (b ∷ bs) = b + 256 * le_value bs

-- binary.Read of an int64 behind a Seek to `position`: an error on fewer than eight bytes.
unfoldable pub read_int64 : Bytes → ℕ → Option ℤ
unfolding le_value
read_int64 reader position =
    let rest = drop position reader in
    if leb msg_length_size (length rest)
    then some (signed64 (le_value (take msg_length_size rest)))
    else none

-- b[from:to]
abbrev pub slice : Bytes → ℕ → ℕ → Bytes
slice b from to = take (to - from) (drop from b)

-- What one round of the loop finds: the loop ends, the read fails, the slice panics, or a message
-- ends at the given position.
pub data Frame : Type 0 where
  done unreadable overrun : Frame
  message : ℕ → Frame

-- The slice msgBuffer[low:end], where the test before it has shown that end is in 0..n.
unfoldable pub frame_end : ℕ → ℤ → Frame
frame_end low (pos end) = if leb low end then message end else overrun
frame_end low (negsuc k) = overrun

-- The test of a length read at `position`, and the slice that follows it.
unfoldable pub judge : ℕ → ℕ → ℤ → Frame
unfolding frame_end
judge n position msg_length =
    let end = wrap64 (pos (position + msg_length_size) +ℤ msg_length) in
    if ltbℤ (pos n) end || ltbℤ end (pos 0)
    then done
    else frame_end (position + msg_length_size) end

unfoldable pub next_frame : Bytes → ℕ → ℕ → Frame
next_frame reader n position =
    if ltb (position + msg_length_size) n
    then elim (read_int64 reader position) [
      | none ↦ unreadable
      | some msg_length ↦ judge n position msg_length
    ]
    else done

-- How WriteTCPMsg ends, with the messages that it has handed to the write function: at a position
-- with no error, at a position with a read error, by a panic, or short of fuel.
pub data Written : Type 0 where
  parsed failed : ℕ → List Bytes → Written
  panicked starved : List Bytes → Written

unfoldable pub write_loop : ℕ → Bytes → ℕ → ℕ → List Bytes → Written
write_loop zero buf n position out = starved out
write_loop (suc fuel) buf n position out = elim (next_frame (take n buf) n position) [
  | done ↦ parsed position out
  | unreadable ↦ failed position out
  | overrun ↦ panicked out
  | message end ↦ write_loop fuel buf n end (out ++ slice buf (position + msg_length_size) end ∷ [])
]

-- WriteTCPMsg: every round passes at least eight bytes, so that `n` rounds and one are enough.
unfoldable pub write_tcp_msg : Bytes → ℕ → Written
unfolding write_loop next_frame judge read_int64
write_tcp_msg msg_buffer n = write_loop (suc n) msg_buffer n 0 []
