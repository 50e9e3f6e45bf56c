-- ===== src/Manager/Tests.antt =====
-- Plugins of numbers: transports, handlers and applications are numbers.
use sg_core.Prelude.{
  is_some, ◌↔◌, ◌⊎◌, ℕ, ◌≡◌, refl, true, not, ◌==◌, String, str_eq, [], ◌∷◌, length, Option, none,
  some, lookup, inr, if◌then◌else◌, decimal,
}
use sg_core.Manager.Plugins.{
  Symbol, new_transport, new_handler, new_application, Plugins, Manager, init_manager, init_plugin,
}
use sg_core.Manager.Load.{
  unique_name, handlers_of, init_transport, init_application, set_transport_handlers,
}
use sg_core.Manager.Start.{
  Configuration, default_configuration, load_plugins, load_applications, start,
}
use sg_core.Manager.Transports.{init_transport-collision}
use sg_core.Manager.Registered.{Registered, set_transport_handlers-Registered}
use sg_core.Config.Parse
use sg_core.Config.Parse.{parse_config, parse_text, check_config}
use sg_core.Manager.Main.{Environment, main, read_configuration, run_parsed, run_configuration}
use sg_core.Manager.Running.{is_running, Accepted, main_iff}
use sg_core.Manager.Decision.{start-last}

-- A configuration is a number: 0 is refused by every plugin.
abbrev refuse : ℕ → String → ℕ × Option String
refuse n text = (n, if str_eq text "" then some "refused" else none)

abbrev plugins : Symbol ℕ ℕ ℕ → Plugins ℕ ℕ ℕ ℕ
plugins symbol = record {
  join_path = λ dir file. file;
  lookup_new = λ path. inr symbol;
  marshal = λ c. inr (if c == 0 then "" else "x");
  config_transport = refuse;
  config_handler = refuse;
  config_application = refuse;
  is_metric_receiver = λ a. true;
  is_event_receiver = λ a. true;
}

abbrev transport_plugins : Plugins ℕ ℕ ℕ ℕ
transport_plugins = plugins (new_transport 7)

abbrev fresh : Manager ℕ ℕ ℕ
unfolding init_manager
fresh = init_manager

-- Eleven transports: "x0", "a11" and others.
abbrev eleven : Manager ℕ ℕ ℕ
unfolding init_manager
eleven = record init_manager {
  transports =
      ("x0", 1)
      ∷ ("a11", 2)
      ∷ ("x2", 3)
      ∷ ("x3", 4)
      ∷ ("x4", 5)
      ∷ ("x5", 6)
      ∷ ("x6", 7)
      ∷ ("x7", 8)
      ∷ ("x8", 9)
      ∷ ("x9", 10)
      ∷ ("x10", 11)
      ∷ [];
}

init_transport-collision_example :
    let r = init_transport transport_plugins "a" 1 eleven in
    (r.1 ≡ inr (unique_name "a" eleven))
    × (lookup (unique_name "a" eleven) r.0.transports ≡ some 7)
    × (length r.0.transports ≡ length eleven.transports)
    × (handlers_of (unique_name "a" eleven) r.0 ≡ handlers_of (unique_name "a" eleven) eleven)
unfolding init_plugin unique_name lookup decimal eleven init_manager
init_transport-collision_example =
    init_transport-collision transport_plugins "a" 1 eleven 7 2 "x" refl refl refl refl

set_transport_handlers-Registered_example :
    Registered
      (plugins (new_handler 3))
      "socket0"
      (record { name = "logs"; config = 1 } ∷ [])
      fresh
      (set_transport_handlers
        (plugins (new_handler 3))
        "socket0"
        (record { name = "logs"; config = 1 } ∷ [])
        fresh)
set_transport_handlers-Registered_example =
    set_transport_handlers-Registered (plugins (new_handler 3)) "socket0"
      (record { name = "logs"; config = 1 } ∷ []) fresh

abbrev two_applications : Configuration ℕ
unfolding default_configuration
two_applications = record default_configuration {
  applications = record { name = "print"; config = 1 } ∷ record { name = "loki"; config = 0 } ∷ [];
}

start-last_example :
    is_some (start (plugins (new_application 5)) two_applications)
    ≡ not (
        is_some
          (init_application
            (plugins (new_application 5))
            "loki"
            0
            (load_plugins (plugins (new_application 5)) (record two_applications {
              applications = record { name = "print"; config = 1 } ∷ [];
            })).0).1)
unfolding two_applications default_configuration
start-last_example =
    start-last (plugins (new_application 5)) two_applications
      (record { name = "print"; config = 1 } ∷ []) (record { name = "loki"; config = 0 }) refl

-- Every text is the configuration with one application.
abbrev accepting : Parse.Packages (Configuration ℕ)
accepting = record {
  unmarshal = λ text c. (record c { applications = record { name = text; config = 1 } ∷ [] }, none);
  validate = λ c. none;
}

abbrev environment : Environment
environment = record {
  config_path = "/etc/sg-core.conf.yaml";
  cpuprofile = "";
  logger_error = none;
  create_file = λ path. none;
  start_profile = λ created. none;
  open_file = λ path. inr (inr "print");
}

main_iff_example :
    (is_running (main (plugins (new_application 5)) accepting environment) ≡ true) ↔ (
      (environment.logger_error ≡ none)
      × (read : String ⊎ String) × (environment.open_file environment.config_path ≡ inr read)
      × Accepted (plugins (new_application 5)) accepting read)
main_iff_example = main_iff (plugins (new_application 5)) accepting environment

running : is_running (main (plugins (new_application 5)) accepting environment) ≡ true
unfolding main read_configuration parse_config parse_text check_config run_parsed run_configuration
    load_plugins load_applications init_application init_plugin
running = refl
