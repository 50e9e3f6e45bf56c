-- ===== src/Manager/Main.antt =====
-- main of cmd/main.go up to the goroutines that it starts: the logger, the profile, the file of the
-- configuration. Logging, files, the profiler and YAML are arguments; the flags are in the environment.
use sg_core.Prelude.{
  Bool, true, false, String, str_eq, List, [], ◌∷◌, ◌++◌, Option, none, some, ◌⊎◌, inl, inr,
  Outcome, returns, ◌>>=◌, if◌then◌else◌,
}
use sg_core.Config.Parse.{Packages, parse_config}
use sg_core.Manager.Plugins.{Plugins}
use sg_core.Manager.Load.{LoadError}
use sg_core.Manager.Start.{
  Process, Configuration, default_configuration, load_plugins, run_transports, run_applications,
}

-- The levels of the logging library.
pub data LogLevel : Type 0 where
  level_error : LogLevel
  level_warn : LogLevel
  level_info : LogLevel
  level_debug : LogLevel

-- The table of the levels; a text that is not in it is the zero value of the library, `none` here.
unfoldable pub log_level : String → Option LogLevel
log_level text =
    if str_eq text "error"
    then some level_error
    else if str_eq text "warn"
    then some level_warn
    else if str_eq text "info"
    then some level_info
    else if str_eq text "debug"
    then some level_debug
    else none

-- What main asks of the system. The profiler starts with a file, if one was created; opening a file
-- gives what reading it gives.
pub record Environment : Type 0 where
  pub config_path : String
  pub cpuprofile : String
  pub logger_error : Option String
  pub create_file : String → Option String
  pub start_profile : Bool → Option String
  pub open_file : String → String ⊎ (String ⊎ String)

-- How main ends, or what it has started.
pub data Ended (T H A : Type 0) : Type 0 where
  no_logger : String → Ended T H A
  no_file : String → Ended T H A
  no_configuration : String → Ended T H A
  no_plugins : LoadError → Ended T H A
  runs : Option LogLevel → List (Process T H A) → Ended T H A

abbrev logged : Option String → List String
logged none = []
logged (some err) = err ∷ []

abbrev is_none : Option String → Bool
is_none none = true
is_none (some err) = false

-- The errors that are logged for the profile.
unfoldable pub profile_errors : Environment → List String
profile_errors env =
    if str_eq env.cpuprofile ""
    then []
    else (let created = env.create_file env.cpuprofile in
        logged created ++ logged (env.start_profile (is_none created)))

module _ {T H A C : Type 0} (p : Plugins T H A C) where
  unfoldable pub run_configuration : Configuration C → Ended T H A
  unfolding log_level load_plugins run_transports run_applications
  run_configuration c =
      let loaded = load_plugins p c in
      elim (loaded.1) [
        | some err ↦ no_plugins err
        | none ↦ runs (log_level c.log_level) (run_transports loaded.0 ++ run_applications loaded.0)
      ]

  -- What ParseConfig returns.
  unfoldable pub run_parsed : Configuration C × Option String → Ended T H A
  unfolding run_configuration
  run_parsed (c, some err) = no_configuration err
  run_parsed (c, none) = run_configuration c

  module _ (config : Packages (Configuration C)) where
    -- The configuration is parsed into the one that holds the defaults.
    unfoldable pub read_configuration : String ⊎ String → Outcome (Ended T H A)
    unfolding parse_config default_configuration run_parsed
    read_configuration read =
        parse_config config read default_configuration >>= λ parsed. returns (run_parsed parsed)

    -- main, with the errors of the profile that it logs.
    unfoldable pub main : Environment → Outcome (List String × Ended T H A)
    unfolding profile_errors read_configuration
    main env = elim (env.logger_error) [
      | some err ↦ returns ([], no_logger err)
      | none ↦ elim (env.open_file env.config_path) [
        | inl err ↦ returns (profile_errors env, no_file err)
        | inr read ↦ read_configuration read >>= λ ended. returns (profile_errors env, ended)
      ]
    ]
