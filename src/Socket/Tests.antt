-- ===== src/Socket/Tests.antt =====
-- Runs of the socket transport, and its theorems at concrete inputs.
use sg_core.Prelude.{
  ◌≤◌, ◌≡◌, refl, true, false, ◌&&◌, ◌||◌, not, str_eq, none, List, [], ◌∷◌, arith, pos,
  if◌then◌else◌,
}
use sg_core.Socket.Setup
use sg_core.Socket.Setup.{
  default_settings, validate, finish_config, open_dump, configure, is_none, is_usable,
  configure_iff,
}
use sg_core.Socket.Frame.{Bytes, read_int64, parsed, panicked, write_tcp_msg}
use sg_core.Socket.Stream.{encode, frame, le_bytes}
use sg_core.Socket.Receive.{
  Config, Receiver, running, tcp, udp, unix, receive_data, on_read, on_chunk, count_up,
  max_buffer_size, max_buffer_size_unix, get_max_buffer_size,
}
use sg_core.Socket.Chunks.{chunks, Delivered, receive_data-stream, Full}
use sg_core.Socket.Buffer.{of_type, grow, grow_max, receive_data-datagrams}
use sg_core.Socket.Safety.{EndsWithin, write_tcp_msg_total, write_tcp_msg_negative}

abbrev pub fresh : Receiver
fresh = record {
  current_buff_size = max_buffer_size;
  remaining_msg = [];
  written = [];
  msg_count = pos 0;
  dumped = [];
}

abbrev pub hello : Bytes
hello = 104 ∷ 105 ∷ []

abbrev pub bang : Bytes
bang = 33 ∷ []

-- Two frames, cut in the middle of the first length and before the last byte.
abbrev pub cut_stream : List Bytes
cut_stream =
    (2 ∷ 0 ∷ 0 ∷ [])
    ∷ (0 ∷ 0 ∷ 0 ∷ 0 ∷ 0 ∷ 104 ∷ 105 ∷ 1 ∷ 0 ∷ 0 ∷ 0 ∷ 0 ∷ 0 ∷ 0 ∷ 0 ∷ [])
    ∷ (33 ∷ [])
    ∷ []

abbrev pub tcp_conf : Config
tcp_conf = of_type tcp false

cut_stream_runs : (receive_data tcp_conf (chunks cut_stream) fresh).0.written ≡ hello ∷ bang ∷ []
unfolding receive_data on_read on_chunk write_tcp_msg
cut_stream_runs = refl

cut_stream_counted : (receive_data tcp_conf (chunks cut_stream) fresh).0.msg_count ≡ pos 2
unfolding receive_data on_read on_chunk write_tcp_msg count_up
cut_stream_counted = refl

-- A message without a body at the end of the stream stays in the buffer.
empty_waits : write_tcp_msg (0 ∷ 0 ∷ 0 ∷ 0 ∷ 0 ∷ 0 ∷ 0 ∷ 0 ∷ []) 8 ≡ parsed 0 []
unfolding write_tcp_msg
empty_waits = refl

receive_data-stream_example :
    Delivered
      (Full hello × (Full bang × Unit))
      fresh
      []
      (hello ∷ bang ∷ [])
      (receive_data tcp_conf (chunks cut_stream) fresh)
unfolding encode frame le_bytes
receive_data-stream_example =
    receive_data-stream tcp_conf cut_stream [] fresh hello (bang ∷ []) refl (omega arith)
      (omega arith) refl refl

receive_data-datagrams_example :
    ((receive_data (of_type udp false) (chunks (hello ∷ bang ∷ [])) fresh).1 ≡ running)
    × ((receive_data (of_type udp false) (chunks (hello ∷ bang ∷ [])) fresh).0.written
        ≡ hello ∷ bang ∷ [])
    × ((receive_data (of_type udp false) (chunks (hello ∷ bang ∷ [])) fresh).0.remaining_msg ≡ [])
    × (max_buffer_size
        ≤ (receive_data (of_type udp false) (chunks (hello ∷ bang ∷ [])) fresh).0.current_buff_size)
    × ((receive_data (of_type udp false) (chunks (hello ∷ bang ∷ [])) fresh).0.current_buff_size
        ≤ get_max_buffer_size (of_type udp false))
unfolding get_max_buffer_size
receive_data-datagrams_example =
    receive_data-datagrams (of_type udp false) refl (hello ∷ bang ∷ []) fresh (omega arith) refl
      (omega arith)

grow_max_example :
    (grow (of_type unix true) 9 max_buffer_size ≡ max_buffer_size_unix)
    × (grow (of_type udp true) 9 max_buffer_size ≡ max_buffer_size)
grow_max_example = grow_max true 9 (omega arith)

-- The length -1, then one byte.
abbrev minus_one : Bytes
minus_one = 255 ∷ 255 ∷ 255 ∷ 255 ∷ 255 ∷ 255 ∷ 255 ∷ 255 ∷ 33 ∷ []

write_tcp_msg_total_example : EndsWithin 9 (write_tcp_msg minus_one 9)
write_tcp_msg_total_example = write_tcp_msg_total minus_one (omega arith)

write_tcp_msg_negative_example : write_tcp_msg minus_one 9 ≡ panicked []
unfolding read_int64
write_tcp_msg_negative_example =
    write_tcp_msg_negative minus_one 0 (omega arith) (omega arith) refl (omega arith)

-- A configuration that asks for TCP in capital letters and names no address.
abbrev tcp_setup : sg_core.Socket.Setup.Setup
tcp_setup = record {
  parse_config = λ conf. (record conf { type = "TCP" }, none);
  open_file = λ path. none;
  to_lower = λ s. if str_eq s "TCP" then "tcp" else s;
}

configure_iff_example : is_none (configure tcp_setup).1 ≡ (
    let parsed = tcp_setup.parse_config default_settings in
    is_none parsed.1
    && (not parsed.0.dump_enabled || is_none (tcp_setup.open_file parsed.0.dump_path))
    && is_usable (record parsed.0 { type = tcp_setup.to_lower parsed.0.type }))
configure_iff_example = configure_iff tcp_setup

tcp_refused : is_none (configure tcp_setup).1 ≡ false
unfolding configure open_dump finish_config validate
tcp_refused = refl
