-- ===== src/Manager/Start.antt =====
-- RunTransports and RunApplications of cmd/manager/manager.go, and what cmd/main.go does with its
-- configuration: the goroutines that it starts. What main does before that is in Main.
use sg_core.Prelude.{
  Bool, false, String, List, [], ◌∷◌, ◌++◌, Option, none, some, Dict, lookup, insert, inl, inr,
}
use sg_core.Manager.Plugins.{Plugins, Manager, init_manager, set_plugin_dir, set_event_bus_blocking}
use sg_core.Manager.Load.{
  LoadError, Block, handlers_of, init_transport, init_application, set_transport_handlers,
}

-- A goroutine that the program starts.
pub data Process (T H A : Type 0) : Type 0 where
  runs_handler : String → H → Process T H A
  runs_transport : String → T → Process T H A
  runs_application : A → Process T H A

module _ {T H A : Type 0} where
  unfoldable pub handler_processes : String → List H → List (Process T H A)
  handler_processes name [] = []
  handler_processes name (h ∷ hs) = runs_handler name h ∷ handler_processes name hs

  -- The loop over the transports, in the order of the map.
  unfoldable pub transport_processes : Dict T → Manager T H A → List (Process T H A)
  unfolding handler_processes
  transport_processes [] m = []
  transport_processes ((name, t) ∷ ts) m =
      handler_processes name (handlers_of name m)
      ++ (runs_transport name t ∷ transport_processes ts m)

  unfoldable pub run_transports : Manager T H A → List (Process T H A)
  unfolding transport_processes
  run_transports m = transport_processes m.transports m

  unfoldable pub application_processes : Dict A → List (Process T H A)
  application_processes [] = []
  application_processes ((name, a) ∷ as') = runs_application a ∷ application_processes as'

  unfoldable pub run_applications : Manager T H A → List (Process T H A)
  unfolding application_processes
  run_applications m = application_processes m.applications

-- What a transport's Run calls for a message: each of its handlers in turn, whose errors are logged.
module _ {H S : Type 0} (handle : H → String → S → (H × S) × Option String) where
  unfoldable pub handle_each : List H → String → S → List H × S
  handle_each [] blob s = ([], s)
  handle_each (h ∷ hs) blob s =
      let ((h', s'), err) = handle h blob s in
      let (hs', s'') = handle_each hs blob s' in (h' ∷ hs', s'')

  unfoldable pub write_blob :
      {T A : Type 0} → String → String → Manager T H A → S → Manager T H A × S
  unfolding handle_each handlers_of
  write_blob name blob m s = elim (lookup name m.handlers) [
    | none ↦ (m, s)
    | some hs ↦
        let (hs', s') = handle_each hs blob s in
        (record m { handlers = insert name hs' m.handlers }, s')
  ]

pub record TransportBlock (C : Type 0) : Type 0 where
  pub name : String
  pub config : C
  pub handlers : List (Block C)

pub record Configuration (C : Type 0) : Type 0 where
  pub plugin_dir : String
  pub log_level : String
  pub handler_errors : Bool
  pub block_event_bus : Bool
  pub transports : List (TransportBlock C)
  pub applications : List (Block C)

unfoldable pub default_configuration : {C : Type 0} → Configuration C
default_configuration = record {
  plugin_dir = "/usr/lib64/sg-core/";
  log_level = "info";
  handler_errors = false;
  block_event_bus = false;
  transports = [];
  applications = [];
}

module _ {T H A C : Type 0} (p : Plugins T H A C) where
  -- A transport of the configuration; errors are logged.
  unfoldable pub load_transport : TransportBlock C → Manager T H A → Manager T H A
  unfolding init_transport set_transport_handlers
  load_transport block m =
      let initialized = init_transport p block.name block.config m in
      elim (initialized.1) [
        | inl err ↦ initialized.0
        | inr name ↦ (set_transport_handlers p name block.handlers initialized.0).0
      ]

  unfoldable pub load_transports : List (TransportBlock C) → Manager T H A → Manager T H A
  unfolding load_transport
  load_transports [] m = m
  load_transports (block ∷ blocks) m = load_transports blocks (load_transport block m)

  -- The applications, with the variable `err` that each of them sets.
  unfoldable pub load_applications :
      List (Block C) → Manager T H A × Option LoadError → Manager T H A × Option LoadError
  unfolding init_application
  load_applications [] s = s
  load_applications (block ∷ blocks) (m, err) =
      load_applications blocks (init_application p block.name block.config m)

  -- main, with its configuration read: it ends if `err` is set, and else starts the goroutines.
  unfoldable pub load_plugins : Configuration C → Manager T H A × Option LoadError
  unfolding init_manager set_plugin_dir set_event_bus_blocking load_transports load_applications
  load_plugins c = load_applications c.applications (
    load_transports c.transports
        (set_event_bus_blocking c.block_event_bus (set_plugin_dir c.plugin_dir init_manager)),
    none,
  )

  unfoldable pub start : Configuration C → Option (List (Process T H A))
  unfolding load_plugins run_transports run_applications
  start c =
      let loaded = load_plugins c in
      elim (loaded.1) [
        | some err ↦ none
        | none ↦ some (run_transports loaded.0 ++ run_applications loaded.0)
      ]
