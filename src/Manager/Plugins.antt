-- ===== src/Manager/Plugins.antt =====
-- The state of cmd/manager/manager.go and initPlugin. A transport, a handler and an application are
-- values of types T, H and A, and a configuration of a type C: what they do, and loading a binary, are
-- arguments.
use Prim.Native.String.{◌++◌}
use sg_core.Prelude.{Bool, true, false, String, List, [], ◌∷◌, Option, Dict, join, ◌⊎◌, inl, inr}

-- A symbol "New" by the type that it is asserted to have.
pub data Symbol (T H A : Type 0) : Type 0 where
  new_transport : T → Symbol T H A
  new_handler : H → Symbol T H A
  new_application : A → Symbol T H A
  other_symbol : Symbol T H A

-- Loading: `lookup_new` opens the binary at a path and looks up its symbol "New"; the flag of an error
-- tells whether the binary was opened.
pub record Plugins (T H A C : Type 0) : Type 0 where
  pub join_path : String → String → String
  pub lookup_new : String → (Bool × String) ⊎ Symbol T H A
  pub marshal : C → String ⊎ String
  pub config_transport : T → String → T × Option String
  pub config_handler : H → String → H × Option String
  pub config_application : A → String → A × Option String
  pub is_metric_receiver : A → Bool
  pub is_event_receiver : A → Bool

pub record Manager (T H A : Type 0) : Type 0 where
  pub transports : Dict T
  pub handlers : Dict (List H)
  pub applications : Dict A
  pub event_subscribers : List A
  pub metric_subscribers : List A
  pub plugin_path : String
  pub is_blocking : Bool

-- init
unfoldable pub init_manager : {T H A : Type 0} → Manager T H A
init_manager = record {
  transports = [];
  handlers = [];
  applications = [];
  event_subscribers = [];
  metric_subscribers = [];
  plugin_path = "/usr/lib64/sg-core";
  is_blocking = false;
}

module _ {T H A : Type 0} where
  unfoldable pub set_plugin_dir : String → Manager T H A → Manager T H A
  set_plugin_dir path m = record m { plugin_path = path }

  unfoldable pub set_event_bus_blocking : Bool → Manager T H A → Manager T H A
  set_event_bus_blocking block m = record m { is_blocking = block }

module _ {T H A C : Type 0} (p : Plugins T H A C) where
  -- The path is that of the directory of plugins.
  unfoldable pub init_plugin : String → String → String ⊎ Symbol T H A
  init_plugin name plugin_path =
      let path = p.join_path plugin_path (join "." (name ∷ "so" ∷ [])) in
      elim (p.lookup_new path) [
        | inl (true, err) ↦ inl err
        | inl (false, err) ↦ inl ("failed to open binary " ++ (path ++ (": " ++ err)))
        | inr symbol ↦ inr symbol
      ]
