-- ===== src/Socket/Receive.antt =====
-- ReceiveData and getMaxBufferSize of plugins/transport/socket/main.go. What pc.Read returns is a
-- list of reads; what the write function is handed, the counter and the dump are kept in the state.
use sg_core.Prelude.{
  ℕ, ◌*◌, Bool, false, not, String, str_eq, List, [], ◌∷◌, ◌++◌, length, drop, ltb, ◌==◌,
  if◌then◌else◌, ℤ, pos, ◌+ℤ◌, ◌-ℤ◌, wrap64,
}
use sg_core.Socket.Frame.{Bytes, Written, parsed, failed, panicked, starved, write_tcp_msg}

abbrev pub max_buffer_size : ℕ
max_buffer_size = 65535

abbrev pub max_buffer_size_unix : ℕ
max_buffer_size_unix = 10485760

abbrev pub max_buffer_size_tcp : ℕ
max_buffer_size_tcp = 104857600

abbrev pub udp : String
udp = "udp"

abbrev pub unix : String
unix = "unix"

abbrev pub tcp : String
tcp = "tcp"

-- The part of configT that the receive loop reads.
pub record Config : Type 0 where
  pub type : String
  pub dump_messages : Bool

unfoldable pub get_max_buffer_size : Config → ℕ
get_max_buffer_size conf =
    if str_eq conf.type udp
    then max_buffer_size
    else if str_eq conf.type tcp
    then max_buffer_size_tcp
    else max_buffer_size_unix

-- pc.Read: `n` bytes, or an error.
pub data Read : Type 0 where
  received : Bytes → Read
  read_error : Read

pub record Receiver : Type 0 where
  pub current_buff_size : ℕ
  pub remaining_msg : Bytes
  pub written : List Bytes
  pub msg_count : ℤ
  pub dumped : Bytes

-- The loop goes on, has returned (after `done <- true` or not), or has panicked.
pub data Status : Type 0 where
  running crashed : Status
  returned : Bool → Status

-- msgCount++ once for every message.
unfoldable pub count_up : List Bytes → ℤ → ℤ
count_up [] c = c
count_up (m ∷ ms) c = count_up ms (wrap64 (c +ℤ pos 1))

-- rate(): the messages since the last call, and the new `lastVal`.
unfoldable pub rate : ℤ → ℤ → ℤ × ℤ
rate msg_count last_val = (wrap64 (msg_count -ℤ last_val), msg_count)

-- The buffer for the next read, after a read of `n` bytes.
unfoldable pub next_buff_size : Config → ℕ → ℕ → ℕ
unfolding get_max_buffer_size
next_buff_size conf current n =
    if n == current
    then (if str_eq conf.type tcp
        then current
        else if ltb current (get_max_buffer_size conf)
        then (if ltb (get_max_buffer_size conf) (current * 2)
            then get_max_buffer_size conf
            else current * 2)
        else current)
    else current

-- The remaining bytes of the read before come first.
unfoldable pub combine : Bytes → Bytes → Bytes
combine [] chunk = chunk
combine (b ∷ rest) chunk = (b ∷ rest) ++ chunk

unfoldable pub dump : Config → Bytes → Bytes → Bytes
dump conf bytes dumped = if conf.dump_messages then dumped ++ bytes ++ b'\n' ∷ [] else dumped

-- What is done with the bytes once they are read.
unfoldable pub settle : Receiver → Bytes → Written → Receiver × Status
settle st bytes (parsed position out) = (
  record st {
    remaining_msg = drop position bytes;
    written = st.written ++ out;
    msg_count = count_up out st.msg_count;
  },
  running,
)
settle st bytes (failed position out) = (
  record st { written = st.written ++ out; msg_count = count_up out st.msg_count },
  returned false,
)
settle st bytes (panicked out) =
    (record st { written = st.written ++ out; msg_count = count_up out st.msg_count }, crashed)
settle st bytes (starved out) =
    (record st { written = st.written ++ out; msg_count = count_up out st.msg_count }, crashed)

-- The body of the loop after a successful read of at least one byte.
unfoldable pub on_chunk : Config → Bytes → Receiver → Receiver × Status
unfolding next_buff_size combine dump settle
on_chunk conf chunk st =
    let bytes = combine st.remaining_msg chunk in
    let grown : Receiver = record st {
      current_buff_size = next_buff_size conf st.current_buff_size (length chunk);
      dumped = dump conf bytes st.dumped;
    } in
    if str_eq conf.type tcp then settle grown bytes (write_tcp_msg bytes (length bytes)) else (
      record grown {
        written = st.written ++ bytes ∷ [];
        msg_count = count_up (bytes ∷ []) st.msg_count;
        remaining_msg = [];
      },
      running,
    )

unfoldable pub on_read : Config → Read → Receiver → Receiver × Status
on_read conf read_error st = (st, returned (not (str_eq conf.type tcp)))
on_read conf (received []) st = (st, returned (not (str_eq conf.type tcp)))
on_read conf (received (b ∷ bs)) st = on_chunk conf (b ∷ bs) st

-- The loop over the reads; it ends with the first round that is not `running`.
unfoldable pub receive_data : Config → List Read → Receiver → Receiver × Status
receive_data conf [] st = (st, running)
receive_data conf (r ∷ rs) st =
    let (st', status) = on_read conf r st in
    elim status [ running ↦ receive_data conf rs st' | other ↦ (st', other) ]
