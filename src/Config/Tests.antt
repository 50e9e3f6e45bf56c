-- ===== src/Config/Tests.antt =====
-- Configurations that are lists of texts: a text is read as one more, and "bad" ones are not valid.
use sg_core.Prelude.{
  ◌≡◌, ◌↔◌, refl, Bool, false, ◌||◌, join, lower, String, str_eq, List, [], ◌∷◌, none, some, inr,
  ◌⊎◌, returns, if◌then◌else◌,
}
use sg_core.Config.Parse.{Packages, validation_errors, parse_config}
use sg_core.Config.Fields.{Namespace, Accepts, parse_config_iff, parse_config-fields}

abbrev missing : List Namespace
missing = ("configT", "LogLevel" ∷ []) ∷ ("configT", "Transports[0]" ∷ "Name" ∷ []) ∷ []

abbrev is_bad : List String → Bool
is_bad [] = false
is_bad (s ∷ ss) = str_eq s "bad" || is_bad ss

abbrev packages : Packages (List String)
packages = record {
  unmarshal = λ text c. (text ∷ c, none);
  validate = λ c.
      if is_bad c
      then some (validation_errors ("configT.LogLevel" ∷ "configT.Transports[0].Name" ∷ []))
      else none;
}

parse_config_iff_example :
    (parse_config packages (inr "null\n") ("bad" ∷ []) ≡ returns ("bad" ∷ [], none)) ↔ (
      (text : String) × (◌≡◌ {A = String ⊎ String} (inr "null\n") (inr text))
      × Accepts packages text ("bad" ∷ []) ("bad" ∷ []))
parse_config_iff_example = parse_config_iff packages (inr "null\n") ("bad" ∷ []) ("bad" ∷ [])

parse_config-fields_example :
    parse_config packages (inr "bad") []
    ≡ returns (
      "bad" ∷ [],
      some "missing or incorrect configuration fields --  logLevel , transports[0].name --",
    )
unfolding join lower
parse_config-fields_example =
    parse_config-fields packages "bad" [] missing refl refl refl ((refl, refl), ((refl, refl), tt))
