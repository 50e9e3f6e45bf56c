-- ===== src/Manager/Load.antt =====
-- InitTransport, InitApplication and SetTransportHandlers of cmd/manager/manager.go.
use Prim.Native.String.{◌++◌}
use sg_core.Prelude.{
  ◌||◌, not, String, List, [], ◌∷◌, ◌++◌ as ◌+++◌, length, Option, none, some, lookup, insert,
  decimal, ◌⊎◌, inl, inr, if◌then◌else◌,
}
use sg_core.Manager.Plugins.{
  new_transport, new_handler, new_application, Plugins, Manager, init_plugin,
}

-- What a function of the manager returns as its error.
pub data LoadError : Type 0 where
  err_app_not_receiver : LoadError
  load_failed : String → LoadError

-- A block of the configuration: a name and a configuration.
pub record Block (C : Type 0) : Type 0 where
  pub name : String
  pub config : C

abbrev wrap : String → String → LoadError
wrap text err = load_failed (text ++ (": " ++ err))

module _ {T H A : Type 0} where
  -- The name with the number of transports behind it.
  unfoldable pub unique_name : String → Manager T H A → String
  unique_name name m = name ++ decimal (length m.transports)

  -- The handlers of a transport.
  unfoldable pub handlers_of : String → Manager T H A → List H
  handlers_of name m = elim (lookup name m.handlers) [ none ↦ [] | some hs ↦ hs ]

  unfoldable pub add_handler : String → H → Manager T H A → Manager T H A
  unfolding handlers_of
  add_handler name h m = record m {
    handlers = insert name (handlers_of name m +++ h ∷ []) m.handlers;
  }

module _ {T H A C : Type 0} (p : Plugins T H A C) where
  abbrev put_transport : String → T → Manager T H A → Manager T H A
  put_transport name t m = record m { transports = insert name t m.transports }

  -- InitTransport once the transport is made and filed: its configuration.
  unfoldable pub configure_transport :
      String → String → T → C → Manager T H A → Manager T H A × (LoadError ⊎ String)
  configure_transport name unique t config m = elim (p.marshal config) [
    | inl err ↦ (m, inl (wrap ("failed parsing transport config for '" ++ (name ++ "'")) err))
    | inr c ↦
        let configured = p.config_transport t c in
        elim (configured.1) [
          | some err ↦ (put_transport unique configured.0 m, inl (load_failed err))
          | none ↦ (put_transport unique configured.0 m, inr unique)
        ]
  ]

  unfoldable pub init_transport : String → C → Manager T H A → Manager T H A × (LoadError ⊎ String)
  unfolding init_plugin unique_name configure_transport
  init_transport name config m = elim (init_plugin p name m.plugin_path) [
    | inl err ↦ (m, inl (wrap "failed initializing transport" err))
    | inr (new_transport t) ↦
        configure_transport name (unique_name name m) t config
          (put_transport (unique_name name m) t m)
    | inr s ↦ (
      m,
      inl (
          load_failed (
            "plugin " ++ (name ++ " constructor 'New' did not return type 'transport.Transport'"))),
    )
  ]

  abbrev subscribe_metrics : A → Manager T H A → Manager T H A
  subscribe_metrics app m =
      if p.is_metric_receiver app
      then record m { metric_subscribers = m.metric_subscribers +++ app ∷ [] }
      else m

  abbrev subscribe_events : A → Manager T H A → Manager T H A
  subscribe_events app m =
      if p.is_event_receiver app
      then record m { event_subscribers = m.event_subscribers +++ app ∷ [] }
      else m

  -- InitApplication once the application is configured.
  unfoldable pub register_application :
      String → A → Manager T H A → Manager T H A × Option LoadError
  register_application name app m =
      let subscribed = subscribe_events app (subscribe_metrics app m) in
      if not (p.is_metric_receiver app || p.is_event_receiver app)
      then (subscribed, some err_app_not_receiver)
      else (record subscribed { applications = insert name app subscribed.applications }, none)

  unfoldable pub configure_application :
      String → A → C → Manager T H A → Manager T H A × Option LoadError
  unfolding register_application
  configure_application name app config m = elim (p.marshal config) [
    | inl err ↦
        (m, some (wrap ("failed parsing application plugin config for '" ++ (name ++ "'")) err))
    | inr c ↦
        let configured = p.config_application app c in
        elim (configured.1) [
          | some err ↦ (m, some (load_failed err))
          | none ↦ register_application name configured.0 m
        ]
  ]

  unfoldable pub init_application : String → C → Manager T H A → Manager T H A × Option LoadError
  unfolding init_plugin configure_application
  init_application name config m = elim (init_plugin p name m.plugin_path) [
    | inl err ↦ (m, some (wrap "failed initializing application plugin" err))
    | inr (new_application app) ↦ configure_application name app config m
    | inr s ↦ (
      m,
      some (
          load_failed (
            "plugin "
            ++ (name ++ " constructor 'New' did not return type 'application.Application'"))),
    )
  ]

  -- The handler that a block makes.
  unfoldable pub make_handler : Block C → String → LoadError ⊎ H
  unfolding init_plugin
  make_handler block plugin_path = elim (init_plugin p block.name plugin_path) [
    | inl err ↦ inl (wrap "failed initializing handler" err)
    | inr (new_handler h) ↦ elim (p.marshal block.config) [
      | inl err ↦
          inl (wrap ("failed parsing handler plugin config for '" ++ (block.name ++ "'")) err)
      | inr c ↦
          let configured = p.config_handler h c in
          elim (configured.1) [
            | some err ↦
                inl (wrap ("failed configuring handler plugin '" ++ (block.name ++ "'")) err)
            | none ↦ inr configured.0
          ]
    ]
    | inr s ↦ inl (
        load_failed
          ("handler " ++ (block.name ++ " constructor did not return type handler.Handler")))
  ]

  unfoldable pub set_transport_handlers :
      String → List (Block C) → Manager T H A → Manager T H A × Option LoadError
  unfolding make_handler add_handler
  set_transport_handlers name [] m = (m, none)
  set_transport_handlers name (block ∷ blocks) m = elim (make_handler block m.plugin_path) [
    | inl err ↦ (m, some err)
    | inr h ↦ set_transport_handlers name blocks (add_handler name h m)
  ]
