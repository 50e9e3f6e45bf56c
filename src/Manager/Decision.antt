-- ===== src/Manager/Decision.antt =====
-- When cmd/main.go starts the processes.
use sg_core.Prelude.{is_some, ◌≡◌, refl, ap, ◌∙◌, not, List, [], ◌∷◌, ◌++◌, Option, none, some}
use sg_core.Manager.Plugins.{Plugins, Manager, init_manager, set_plugin_dir, set_event_bus_blocking}
use sg_core.Manager.Load.{LoadError, Block, init_application}
use sg_core.Manager.Start.{
  Process, Configuration, load_transports, load_applications, load_plugins, start,
}

module _ {T H A C : Type 0} (p : Plugins T H A C) where
  load_applications-append :
      (blocks : List (Block C)) (last : Block C) (s : Manager T H A × Option LoadError)
      → load_applications p (blocks ++ last ∷ []) s
        ≡ init_application p last.name last.config (load_applications p blocks s).0
  unfolding load_applications
  load_applications-append [] last s = refl
  load_applications-append (b ∷ bs) last s = load_applications-append bs last _

  decided :
      (loaded : Manager T H A × Option LoadError) (ps : List (Process T H A))
      → is_some (elim (loaded.1) as (λ k. Option (List (Process T H A))) [
        | some err ↦ none
        | none ↦ some ps
      ])
        ≡ not (is_some loaded.1)
  decided (m, none) ps = refl
  decided (m, some err) ps = refl

  -- The program starts exactly if the last application of its configuration loads, whatever became of
  -- those before it and of the transports: the error of an earlier one is forgotten.
  pub start-last :
      (c : Configuration C) (before : List (Block C)) (last : Block C)
      → c.applications ≡ before ++ last ∷ []
      → let m = (load_plugins p (record c { applications = before })).0 in
        is_some (start p c) ≡ not (is_some (init_application p last.name last.config m).1)
  unfolding start load_plugins
  start-last c before last e =
      decided (load_plugins p c) _
      ∙ ap (λ r. not (is_some r.1))
          (ap (λ apps. load_applications p apps (base, none)) e
            ∙ load_applications-append before last (base, none))
    where
      base : Manager T H A
      base =
          load_transports p c.transports
            (set_event_bus_blocking c.block_event_bus (set_plugin_dir c.plugin_dir init_manager))
