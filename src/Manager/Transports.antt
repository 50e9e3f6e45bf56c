-- ===== src/Manager/Transports.antt =====
-- What becomes of the transports of cmd/manager/manager.go that InitTransport files.
use sg_core.Prelude.{
  ◌≡◌, refl, ◌∙◌, arith, Bool, true, false, ◌||◌, String, str_eq, eq_refl, List, [], ◌∷◌, ◌++◌,
  length, none, some, Dict, lookup, insert, lookup-insert, inl, inr,
}
use sg_core.Manager.Plugins.{Plugins, Manager, new_transport, init_plugin}
use sg_core.Manager.Load.{load_failed, unique_name, configure_transport, init_transport}
use sg_core.Manager.Start.{
  Process, runs_handler, runs_transport, runs_application, handler_processes, transport_processes,
  run_transports,
}
use sg_core.Manager.Load.{handlers_of}

length-insert :
    {V : Type 0} (key : String) (v : V) (m : Dict V) (old : V)
    → lookup key m ≡ some old
    → length (insert key v m) ≡ length m
unfolding lookup insert
length-insert key v [] old h = cc
length-insert key v ((first, w) ∷ m) old h = ground (arith, length-insert key v m old)

module _ {T H A : Type 0} where
  -- Whether a transport of this name is among the goroutines.
  abbrev pub is_run : String → List (Process T H A) → Bool
  is_run k [] = false
  is_run k (runs_transport name t ∷ ps) = str_eq name k || is_run k ps
  is_run k (runs_handler name h ∷ ps) = is_run k ps
  is_run k (runs_application a ∷ ps) = is_run k ps

  is_run-handlers :
      (k name : String) (hs : List H) (ps : List (Process T H A))
      → is_run k (handler_processes name hs ++ ps) ≡ is_run k ps
  unfolding handler_processes
  is_run-handlers k name [] ps = refl
  is_run-handlers k name (h ∷ hs) ps = is_run-handlers k name hs ps

  is_run-processes :
      (k : String) (ts : Dict T) (m : Manager T H A) (t : T)
      → lookup k ts ≡ some t
      → is_run k (transport_processes ts m) ≡ true
  unfolding transport_processes lookup
  is_run-processes k [] m t h = cc
  is_run-processes k ((name, u) ∷ ts) m t h =
      is_run-handlers k name (handlers_of name m) _ ∙ ground (arith, is_run-processes k ts m t)

module _ {T H A C : Type 0} (p : Plugins T H A C) where
  -- A transport whose Config fails is reported as failed and is filed all the same: RunTransports starts it.
  pub init_transport-failed_config :
      (name : String) (config : C) (m : Manager T H A) (t : T) (text err : String)
      → init_plugin p name m.plugin_path ≡ inr (new_transport t)
      → p.marshal config ≡ inr text
      → (p.config_transport t text).1 ≡ some err
      → let r = init_transport p name config m in
        (r.1 ≡ inl (load_failed err))
        × (lookup (unique_name name m) r.0.transports ≡ some (p.config_transport t text).0)
        × (is_run (unique_name name m) (run_transports r.0) ≡ true)
  unfolding init_transport configure_transport run_transports
  init_transport-failed_config name config m t text err loads marshals fails =
      let u = unique_name name m in
      let t' = (p.config_transport t text).0 in
      let filed = lookup-insert u u t' (insert u t m.transports) ∙ (rw (eq_refl u)) in
      rw (init_transport, loads)
        (rw (configure_transport, marshals)
          (rw fails
            (refl, filed, is_run-processes u (insert u t' (insert u t m.transports)) _ t' filed)))

  -- The number behind a name does not make it unique: where the name with the number is that of a
  -- transport that is there, a transport that loads and is configured replaces that one and takes its
  -- handlers over.
  pub init_transport-collision :
      (name : String) (config : C) (m : Manager T H A) (t old : T) (text : String)
      → init_plugin p name m.plugin_path ≡ inr (new_transport t)
      → p.marshal config ≡ inr text
      → (p.config_transport t text).1 ≡ none
      → lookup (unique_name name m) m.transports ≡ some old
      → let r = init_transport p name config m in
        (r.1 ≡ inr (unique_name name m))
        × (lookup (unique_name name m) r.0.transports ≡ some (p.config_transport t text).0)
        × (length r.0.transports ≡ length m.transports)
        × (handlers_of (unique_name name m) r.0 ≡ handlers_of (unique_name name m) m)
  unfolding init_transport configure_transport handlers_of
  init_transport-collision name config m t old text loads marshals configured taken =
      let u = unique_name name m in
      let t' = (p.config_transport t text).0 in
      rw (init_transport, loads)
        (rw (configure_transport, marshals)
          (rw configured (
            refl,
            lookup-insert u u t' (insert u t m.transports) ∙ (rw (eq_refl u)),
            length-insert u t' (insert u t m.transports) t
                  (lookup-insert u u t m.transports ∙ (rw (eq_refl u)))
                ∙ length-insert u t m.transports old taken,
            refl,
          )))
