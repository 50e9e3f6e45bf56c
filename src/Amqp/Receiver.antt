-- ===== src/Amqp/Receiver.antt =====
-- plugins/transport/amqp1/main.go: the transport that receives messages of AMQP 1.0. The library's
-- client, the decoding of the configuration and files are arguments.
use Prim.Native.String.{◌++◌}
use sg_core.Prelude.{
  ℕ, Bool, true, false, String, List, [], ◌∷◌, ◌++◌ as ◌+++◌, Option, none, some, ℤ, pos, ◌+ℤ◌,
  ◌-ℤ◌, wrap64, contains_text, if◌then◌else◌,
}
use sg_core.Data.{Value, Values, null, str, arr, nil, cons}

pub record ConfigT : Type 0 where
  pub uri : String
  pub channel : String
  pub link_credit : ℕ
  pub dump_enabled : Bool
  pub dump_path : String

-- What the transport has written, its counter and the dump file.
pub record Amqp : Type 0 where
  pub conf : ConfigT
  pub dump_open : Bool
  pub written : List String
  pub msg_count : ℤ
  pub last_val : ℤ
  pub dumped : String

unfoldable pub rate : Amqp → ℤ × Amqp
rate at = (wrap64 (at.msg_count -ℤ at.last_val), record at { last_val = at.msg_count })

unfoldable pub default_config : ConfigT
default_config = record {
  uri = "amqp://127.0.0.1:5672";
  channel = "rsyslog/logs";
  link_credit = 1024;
  dump_enabled = false;
  dump_path = "";
}

-- Config, with config.ParseConfig and the error of os.OpenFile.
unfoldable pub configure :
    (ConfigT → ConfigT × Option String) → (String → Option String) → Amqp → Amqp × Option String
unfolding default_config
configure parse_config open_file at =
    let (conf, failure) = parse_config default_config in
    elim failure [
      | some err ↦ (record at { conf = conf }, some err)
      | none ↦
          if conf.dump_enabled
          then elim (open_file conf.dump_path) [
            | some err ↦ (record at { conf = conf }, some err)
            | none ↦ (record at { conf = conf; dump_open = true }, none)
          ]
          else (record at { conf = conf }, none)
    ]

-- A message of the library: its value and its data.
pub record Message (F : Type 0) : Type 0 where
  pub value : Value F
  pub text : String

-- What the library's HandleMessage comes to: a message for the function it is given, or an error.
pub data Received (F : Type 0) : Type 0 where
  message : Message F → Received F
  receive_error : String → Received F

-- A write to the dump file's buffer, `write` being its error.
unfoldable pub dump_text : (String → Option String) → String → Amqp → Amqp × Option String
dump_text write text at = elim (write text) [
  | some err ↦ (at, some err)
  | none ↦ (record at { dumped = at.dumped ++ text }, none)
]

unfoldable pub dump_message : (String → Option String) → String → Amqp → Amqp × Option String
unfolding dump_text
dump_message write text at =
    if at.conf.dump_enabled
    then (let (at', failure) = dump_text write text at in
        elim failure [ some err ↦ (at', some err) | none ↦ dump_text write "\n" at' ])
    else (at, none)

module _ {F : Type 0} where
  -- What is not a text is logged and passed over.
  unfoldable pub send_message : Value F → Amqp → Amqp
  send_message (str tmsg) at = record at {
    written = at.written +++ tmsg ∷ [];
    msg_count = wrap64 (at.msg_count +ℤ pos 1);
  }
  send_message msg at = at

  unfoldable pub send_items : Values F → Amqp → Amqp
  unfolding send_message
  send_items nil at = at
  send_items (cons item items) at = send_items items (send_message item at)

  unfoldable pub send_value : Value F → Amqp → Amqp
  unfolding send_items
  send_value (arr items) at = send_items items at
  send_value null at = at
  send_value value at = send_message value at

  -- The function that Run gives HandleMessage. The error of Accept is not looked at.
  unfoldable pub handle_message : (String → Option String) → Message F → Amqp → Amqp × Option String
  unfolding dump_message send_value
  handle_message write msg at =
      let (at', failure) = dump_message write msg.text at in
      elim failure [ some err ↦ (at', some err) | none ↦ (send_value msg.value at', none) ]

  abbrev on_received : (String → Option String) → Received F → Amqp → Amqp × Option String
  on_received write (message msg) at = handle_message write msg at
  on_received write (receive_error err) at = (at, some err)

  -- The loop of Run, and whether it has ended.
  unfoldable pub run : (String → Option String) → List (Received F) → Amqp → Amqp × Bool
  unfolding handle_message rate
  run write [] at = (at, false)
  run write (r ∷ rs) at =
      let (at', failure) = on_received write r (rate at).1 in
      let next = run write rs at' in
      elim failure [
        | none ↦ next
        | some err ↦ if contains_text "context canceled" err then next else (at', true)
      ]
