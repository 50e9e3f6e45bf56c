-- ===== src/Manager/Running.antt =====
-- When main of cmd/main.go starts its goroutines.
use sg_core.Prelude.{
  ◌≡◌, ◌↔◌, refl, ap, ◌∙◌, arith, Bool, true, false, not, String, List, Option, none, some, ◌⊎◌,
  inl, inr, is_some, Outcome, returns, panics, ◌>>=◌, Option-cases, Sum-cases,
}
use sg_core.Config.Parse.{Packages, parse_config}
use sg_core.Manager.Plugins.{Plugins}
use sg_core.Manager.Start.{Configuration, default_configuration, load_plugins}
use sg_core.Manager.Main.{
  Environment, Ended, no_logger, no_file, no_configuration, no_plugins, runs, profile_errors,
  run_configuration, run_parsed, read_configuration, main,
}

module _ {T H A : Type 0} where
  abbrev pub has_started : Ended T H A → Bool
  has_started (runs level ps) = true
  has_started (no_logger err) = false
  has_started (no_file err) = false
  has_started (no_configuration err) = false
  has_started (no_plugins err) = false

  abbrev pub is_running : Outcome (List String × Ended T H A) → Bool
  is_running panics = false
  is_running (returns (errors, ended)) = has_started ended

  module _ {C : Type 0} (p : Plugins T H A C) (config : Packages (Configuration C)) where
    -- The configuration that is read and accepted, and loads.
    pub record Accepted (read : String ⊎ String) : Type 0 where
      pub configuration : Configuration C
      pub parsed : parse_config config read default_configuration ≡ returns (configuration, none)
      pub loads : is_some (load_plugins p configuration).1 ≡ false

    run_configuration-started :
        (c : Configuration C)
        → has_started (run_configuration p c) ≡ not (is_some (load_plugins p c).1)
    unfolding run_configuration
    run_configuration-started c = elim (Option-cases (load_plugins p c).1) [
      | inl e ↦ rw (e, run_configuration) refl
      | inr (err, e) ↦ rw (e, run_configuration) refl
    ]

    -- What becomes of a configuration, by what ParseConfig returned.
    parsed-Accepted :
        (read : String ⊎ String) (o : Outcome (Configuration C × Option String))
        (errors : List String)
        → parse_config config read default_configuration ≡ o
        → is_running
            ((o >>= λ parsed. returns (run_parsed p parsed)) >>= λ ended. returns (errors, ended))
          ≡ true
        → Accepted read
    unfolding run_parsed
    parsed-Accepted read panics errors e h = cc
    parsed-Accepted read (returns (c, some err)) errors e h = cc
    parsed-Accepted read (returns (c, none)) errors e h = record {
      configuration = c;
      parsed = e;
      loads = ground (arith, run_configuration-started c, h);
    }

    main-Accepted :
        (env : Environment)
        → is_running (main p config env) ≡ true
        → (env.logger_error ≡ none)
          × (read : String ⊎ String) × (env.open_file env.config_path ≡ inr read)
          × Accepted read
    unfolding main read_configuration
    main-Accepted env h = elim (Option-cases env.logger_error) [
      | inr (err, e) ↦ cc (rw (e, main) at h)
      | inl e ↦ elim (Sum-cases (env.open_file env.config_path)) [
        | inl (err, k) ↦ cc (rw (k, main) at (rw (e, main) at h))
        | inr (read, k) ↦ (
          e,
          read,
          k,
          parsed-Accepted read (parse_config config read default_configuration) (profile_errors env)
              refl (rw k at (rw (e, main) at h)),
        )
      ]
    ]

    Accepted-main :
        (env : Environment) (read : String ⊎ String)
        → env.logger_error ≡ none
        → env.open_file env.config_path ≡ inr read
        → Accepted read
        → is_running (main p config env) ≡ true
    unfolding main read_configuration run_parsed
    Accepted-main env read e k a =
        rw (e, main)
          (rw k (
            rw (a.parsed, read_configuration)
              (run_configuration-started a.configuration ∙ ap not a.loads)))

    -- The program starts its goroutines exactly if it has a logger, the file of its configuration can be
    -- opened, ParseConfig makes a configuration of it without an error, and loading this leaves no
    -- error; whether the profile started has no part in it.
    pub main_iff :
        (env : Environment)
        → (is_running (main p config env) ≡ true) ↔ (
            (env.logger_error ≡ none)
            × (read : String ⊎ String) × (env.open_file env.config_path ≡ inr read)
            × Accepted read)
    main_iff env = (main-Accepted env, λ h. Accepted-main env h.1 h.0 h.2 h.3)
