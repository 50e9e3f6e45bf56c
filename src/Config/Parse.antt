-- ===== src/Config/Parse.antt =====
-- ParseConfig and setCamelCase of pkg/config/config.go. YAML and the validator are arguments; the names
-- of fields are ASCII texts, whose bytes are their characters.
use Prim.Native.String.{String, ◌++◌}
use sg_core.Prelude.{
  str_eq, List, [], ◌∷◌, Option, none, some, split, join, lower, ◌⊎◌, inl, inr, Outcome, returns,
  panics, ◌>>=◌, if◌then◌else◌,
}

-- What is wrong with a configuration: the namespaces of its fields, or another error.
pub data Invalid : Type 0 where
  validation_errors : List String → Invalid
  other_error : String → Invalid

-- yaml.Unmarshal into a value, which an error may leave changed in part, and Validate.Struct.
pub record Packages (C : Type 0) : Type 0 where
  pub unmarshal : String → C → C × Option String
  pub validate : C → Option Invalid

-- camel[0] of an item that is empty is out of its range.
unfoldable pub camel_item : String → Outcome String
unfolding lower
camel_item String.[] = panics
camel_item (String.◌∷◌ c s) = returns (String.◌∷◌ (lower c) s)

-- The loop over the items.
unfoldable pub camel_items : List String → Outcome (List String)
unfolding camel_item
camel_items [] = returns []
camel_items (item ∷ items) =
    camel_item item >>= λ camel. camel_items items >>= λ ret. returns (camel ∷ ret)

-- strings.Join(ret[1:], ".")
unfoldable pub join_tail : List String → Outcome String
unfolding join
join_tail [] = panics
join_tail (first ∷ ret) = returns (join "." ret)

unfoldable pub set_camel_case : String → Outcome String
unfolding camel_items join_tail split
set_camel_case field = camel_items (split b'.' field) >>= join_tail

-- The loop over the errors of the validation.
unfoldable pub missing_fields : List String → Outcome (List String)
unfolding set_camel_case
missing_fields [] = returns []
missing_fields (namespace ∷ namespaces) = set_camel_case namespace >>= λ field.
    missing_fields namespaces >>= λ fields. returns (field ∷ fields)

unfoldable pub validation_error : Invalid → Outcome String
unfolding missing_fields
validation_error (other_error err) = returns ("error while validating configuration: " ++ err)
validation_error (validation_errors namespaces) = missing_fields namespaces >>= λ fields.
    returns ("missing or incorrect configuration fields --  " ++ (join " , " fields ++ " --"))

module _ {C : Type 0} (p : Packages C) where
  unfoldable pub check_config : C → Outcome (C × Option String)
  unfolding validation_error
  check_config config = elim (p.validate config) [
    | none ↦ returns (config, none)
    | some invalid ↦ validation_error invalid >>= λ err. returns (config, some err)
  ]

  unfoldable pub parse_text : String → C → Outcome (C × Option String)
  unfolding check_config
  parse_text config_bytes config =
      let unmarshalled = p.unmarshal config_bytes config in
      if str_eq config_bytes "null\n" then returns (config, none) else elim (unmarshalled.1) [
        | some err ↦ returns (unmarshalled.0, some ("unmarshalling config yaml: " ++ err))
        | none ↦ check_config unmarshalled.0
      ]

  -- ParseConfig, with what reading its input gives.
  unfoldable pub parse_config : String ⊎ String → C → Outcome (C × Option String)
  unfolding parse_text
  parse_config (inl err) config = returns (config, some ("while reading configuration: " ++ err))
  parse_config (inr config_bytes) config = parse_text config_bytes config
