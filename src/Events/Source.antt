-- ===== src/Events/Source.antt =====
-- plugins/handler/events/pkg/lib/source.go. The regular expressions are arguments.
use sg_core.Prelude.{
  ℕ, ◌+◌, Bool, true, false, ◌&&◌, String, str_eq, List, [], ◌∷◌, Option, none, some, if◌then◌else◌,
  Outcome, index,
}

-- Whether each regular expression is found in a message.
pub record Patterns : Type 0 where
  pub oslo_message : String → Bool
  pub payload : String → Bool
  pub event_type : String → Bool
  pub labels_field : String → Bool
  pub annotation_field : String → Bool

module _ (p : Patterns) where
  unfoldable pub recognize_ceilometer : String → Bool
  recognize_ceilometer jsondata =
      if p.oslo_message jsondata
      then (if p.event_type jsondata then p.payload jsondata else false)
      else false

  unfoldable pub recognize_collectd : String → Bool
  recognize_collectd jsondata = p.labels_field jsondata && p.annotation_field jsondata

  -- The map of recognizers, in either order of a range over it.
  unfoldable pub recognizers : Bool → List (String × (String → Bool))
  recognizers true = ("collectd", recognize_collectd) ∷ ("ceilometer", recognize_ceilometer) ∷ []
  recognizers false = ("ceilometer", recognize_ceilometer) ∷ ("collectd", recognize_collectd) ∷ []

abbrev pub list_all : List String
list_all = "ceilometer" ∷ "collectd" ∷ "generic" ∷ []

-- A DataSource is an index into the list.
unfoldable pub source_string : ℕ → Outcome String
source_string src = index list_all src

unfoldable pub find_source : ℕ → String → List String → Option ℕ
find_source i name [] = none
find_source i name (value ∷ values) =
    let rest = find_source (i + 1) name values in if str_eq name value then some i else rest

unfoldable pub set_from_string : String → ℕ → ℕ × Bool
unfolding find_source
set_from_string name src = elim (find_source 0 name list_all) [
  | none ↦ (src, false)
  | some i ↦ (i, true)
]

unfoldable pub set_from_message : List (String × (String → Bool)) → String → ℕ → ℕ
unfolding set_from_string
set_from_message [] jsondata src = (set_from_string "generic" src).0
set_from_message ((source, rec) ∷ rest) jsondata src =
    let other = set_from_message rest jsondata src in
    if rec jsondata then (set_from_string source src).0 else other
