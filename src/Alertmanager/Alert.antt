-- ===== src/Alertmanager/Alert.antt =====
-- plugins/application/alertmanager/pkg/lib/alert.go: an alert and its summary. Its SetName is in Name.
use sg_core.Prelude.{
  Bool, true, String, str_eq, List, [], ◌∷◌, ◌++◌, none, some, Dict, lookup, insert, join,
  if◌then◌else◌,
}

pub record PrometheusAlert : Type 0 where
  pub labels : Dict String
  pub annotations : Dict String
  pub starts_at : String
  pub ends_at : String
  pub generator_url : String

abbrev pub agent_surrogates : List String
agent_surrogates = "source_type" ∷ []

abbrev pub event_surrogates : List String
event_surrogates = "eventSourceType" ∷ "type" ∷ "domain" ∷ "service" ∷ []

abbrev pub entity_surrogates : List String
entity_surrogates =
    "name" ∷ "DataSource" ∷ "check" ∷ "connectivity" ∷ "procevent" ∷ "interface" ∷ []

abbrev pub status_surrogates : List String
status_surrogates = "severity" ∷ []

-- Whether SetSummary generates a summary.
unfoldable pub needs_summary : PrometheusAlert → Bool
needs_summary alert = elim (lookup "summary" alert.annotations) [
  | none ↦ true
  | some summary ↦ str_eq summary ""
]

-- The loop over the keys of a kind: the first that is a label, or else an annotation, ends it.
unfoldable pub surrogate_loop : PrometheusAlert → List String → List String → List String
surrogate_loop alert [] values = values
surrogate_loop alert (key ∷ keys) values =
    let later = surrogate_loop alert keys values in
    elim (lookup key alert.labels) [
      | some val ↦ values ++ val ∷ []
      | none ↦ elim (lookup key alert.annotations) [ some val ↦ values ++ val ∷ [] | none ↦ later ]
    ]

-- The loop over the kinds of surrogates.
unfoldable pub kinds_loop : PrometheusAlert → List (List String) → List String → List String
unfolding surrogate_loop
kinds_loop alert [] values = values
kinds_loop alert (keys ∷ kinds) values = kinds_loop alert kinds (surrogate_loop alert keys values)

-- The summary from the surrogates.
unfoldable pub surrogate_summary : PrometheusAlert → String
unfolding kinds_loop
surrogate_summary alert = join " " (
    kinds_loop alert
      (agent_surrogates ∷ event_surrogates ∷ entity_surrogates ∷ status_surrogates ∷ []) [])

unfoldable pub generated_summary : PrometheusAlert → String
unfolding surrogate_summary
generated_summary alert = elim (lookup "summary" alert.labels) [
  | none ↦ surrogate_summary alert
  | some val ↦ if str_eq val "" then surrogate_summary alert else val
]

unfoldable pub set_summary : PrometheusAlert → PrometheusAlert
unfolding needs_summary generated_summary
set_summary alert =
    if needs_summary alert
    then record alert { annotations = insert "summary" (generated_summary alert) alert.annotations }
    else alert
