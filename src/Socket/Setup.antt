-- ===== src/Socket/Setup.antt =====
-- Config and Run of plugins/transport/socket/main.go: which configurations are accepted, and the receive
-- loops that are started. Decoding the configuration, opening the dump file and the network are arguments.
use Prim.Native.String.{◌++◌}
use sg_core.Prelude.{
  ℕ, ◌≡◌, refl, arith, Bool, true, false, ◌&&◌, ◌||◌, not, String, str_eq, eq_iff, List, [], ◌∷◌,
  Option, none, some, Bool-cases, inl, inr, if◌then◌else◌,
}
use sg_core.Socket.Receive.{Config, Read, udp, unix, tcp, max_buffer_size}

pub record Settings : Type 0 where
  pub path : String
  pub type : String
  pub socketaddr : String
  pub dump_enabled : Bool
  pub dump_path : String

pub record Socket : Type 0 where
  pub conf : Settings
  pub dump_open : Bool

-- What Config uses: config.ParseConfig, which may set fields and fail, os.OpenFile with its error, and
-- strings.ToLower.
pub record Setup : Type 0 where
  pub parse_config : Settings → Settings × Option String
  pub open_file : String → Option String
  pub to_lower : String → String

unfoldable pub default_settings : Settings
default_settings = record {
  path = "";
  type = unix;
  socketaddr = "";
  dump_enabled = false;
  dump_path = "/dev/stdout";
}

-- The tests at the end of Config, on the type in small letters.
unfoldable pub validate : Settings → Option String
validate conf =
    if not (str_eq conf.type unix) && not (str_eq conf.type udp) && not (str_eq conf.type tcp)
    then some (
        "unable to determine socket type from configuration file. Should be one of \"unix\", \"udp\" or \"tcp\", received: "
        ++ conf.type)
    else if str_eq conf.type unix && str_eq conf.path ""
    then some "the path configuration option is required when using unix socket type"
    else if (str_eq conf.type udp || str_eq conf.type tcp) && str_eq conf.socketaddr ""
    then some "the socketaddr configuration option is required when using udp or tcp socket type"
    else none

module _ (setup : Setup) where
  abbrev lowered : Settings → Settings
  lowered conf = record conf { type = setup.to_lower conf.type }

  -- Config with the dump file opened, or with none to open.
  unfoldable pub finish_config : Settings → Bool → Socket × Option String
  unfolding validate
  finish_config conf dump_open =
      (record { conf = lowered conf; dump_open = dump_open }, validate (lowered conf))

  unfoldable pub open_dump : Settings → Socket × Option String
  unfolding finish_config
  open_dump conf =
      if conf.dump_enabled
      then elim (setup.open_file conf.dump_path) [
        | some err ↦ (record { conf = conf; dump_open = false }, some err)
        | none ↦ finish_config conf true
      ]
      else finish_config conf false

  unfoldable pub configure : Socket × Option String
  unfolding default_settings open_dump
  configure =
      let parsed = setup.parse_config default_settings in
      elim (parsed.1) [
        | some err ↦ (record { conf = parsed.0; dump_open = false }, some err)
        | none ↦ open_dump parsed.0
      ]

-- What listening gives: the reads of each connection, or nothing if it fails. A datagram socket is one
-- connection.
pub record Network : Type 0 where
  pub listen_udp : String → Option (List Read)
  pub listen_tcp : String → Option (List (List Read))
  pub listen_unix : String → Option (List Read)

-- A receive loop: its configuration, its first buffer and what it reads.
pub record Loop : Type 0 where
  pub config : Config
  pub initial_buff_size : ℕ
  pub reads : List Read

abbrev loop_of : Settings → List Read → Loop
loop_of conf reads = record {
  config = record { type = conf.type; dump_messages = conf.dump_enabled };
  initial_buff_size = max_buffer_size;
  reads = reads;
}

abbrev one_loop : Settings → Option (List Read) → List Loop
one_loop conf none = []
one_loop conf (some reads) = loop_of conf reads ∷ []

abbrev accepted : Settings → List (List Read) → List Loop
accepted conf [] = []
accepted conf (reads ∷ connections) = loop_of conf reads ∷ accepted conf connections

abbrev all_loops : Settings → Option (List (List Read)) → List Loop
all_loops conf none = []
all_loops conf (some connections) = accepted conf connections

-- Run: the receive loops that it starts.
unfoldable pub run : Settings → Network → List Loop
run conf network =
    if str_eq conf.type udp
    then one_loop conf (network.listen_udp conf.socketaddr)
    else if str_eq conf.type tcp
    then all_loops conf (network.listen_tcp conf.socketaddr)
    else one_loop conf (network.listen_unix conf.path)

-- What a transport needs: a path for a unix socket, an address for the others, and no other type.
abbrev pub is_usable : Settings → Bool
is_usable conf =
    (str_eq conf.type unix && not (str_eq conf.path ""))
    || ((str_eq conf.type udp || str_eq conf.type tcp) && not (str_eq conf.socketaddr ""))

abbrev pub is_none : Option String → Bool
is_none none = true
is_none (some err) = false

types_differ : (t : String) → (str_eq t unix && (str_eq t udp || str_eq t tcp)) ≡ false
types_differ t = elim (Bool-cases (str_eq t unix)) [
  | inl h ↦ rw ((eq_iff t unix).0 h) refl
  | inr h ↦ rw h refl
]

validate_iff : (conf : Settings) → is_none (validate conf) ≡ is_usable conf
unfolding validate
validate_iff conf = ground (arith, types_differ conf.type)

module _ (setup : Setup) where
  -- Config accepts a configuration exactly if it decodes, the dump file opens where dumping is on, and
  -- the type, in small letters, is one of the three with the address that it needs.
  pub configure_iff : is_none (configure setup).1 ≡ (
      let parsed = setup.parse_config default_settings in
      is_none parsed.1
      && (not parsed.0.dump_enabled || is_none (setup.open_file parsed.0.dump_path))
      && is_usable (record parsed.0 { type = setup.to_lower parsed.0.type }))
  unfolding configure open_dump finish_config
  configure_iff =
      let conf = (setup.parse_config default_settings).0 in
      ground (arith, validate_iff (record conf { type = setup.to_lower conf.type }))
