-- ===== src/Alertmanager/Summary.antt =====
-- What generate_alert makes of an event: its labels, its annotations and its summary.

use sg_core.Prelude.{
  ◌≡◌, refl, sym, ap, ◌∙◌, arith, false, String, str_eq, eq_iff, [], ◌∷◌, ◌++◌ as ◌+++◌, some, Dict,
  lookup, lookup-insert, join, if◌then◌else◌, returns,
}
use sg_core.Data.{Event, severity_string}
use sg_core.Alertmanager.Alert.{
  PrometheusAlert, agent_surrogates, event_surrogates, entity_surrogates, status_surrogates,
  needs_summary, kinds_loop, surrogate_summary, generated_summary, set_summary,
}
use sg_core.Alertmanager.Generate.{Packages, alert_source, own_labels, generate_alert}
use sg_core.Alertmanager.Keys.{
  first_present, text_or, surrogate_loop-first_present, len-nonempty, join-len, text_or_nonempty,
  severity_named,
}

-- The first value of each kind of keys, and the severity.
abbrev pub keys_summary : Dict String → Dict String → String → String
keys_summary labels annotations severity =
    let first = first_present labels annotations in
    join " " (
      ((first agent_surrogates +++ first event_surrogates) +++ first entity_surrogates)
      +++ severity ∷ [])

-- What the alert of an event is.
pub record Generated {F Request : Type 0} (p : Packages F Request) (generator_url : String)
    (e : Event F) : Type 0 where
  pub severity : String
  pub named : severity_string e.severity ≡ some severity
  pub alert : PrometheusAlert
  pub result : generate_alert p generator_url e ≡ returns alert
  pub url : alert.generator_url ≡ generator_url
  pub labels :
      (key : String)
      → lookup key alert.labels ≡ (
          if str_eq "publisher" key
          then some e.publisher
          else if str_eq "alertsource" key
          then some alert_source
          else if str_eq "severity" key
          then some severity
          else if str_eq "alertname" key
          then some e.index
          else lookup key (p.assimilate e.labels))
  pub summary : String
  pub annotations :
      (key : String)
      → lookup key alert.annotations
        ≡ (if str_eq "summary" key then some summary else lookup key (p.assimilate e.annotations))
  pub chosen :
      summary
      ≡ text_or (lookup "summary" (p.assimilate e.annotations)) (
          text_or
            (lookup "summary" (p.assimilate e.labels))
            (keys_summary alert.labels (p.assimilate e.annotations) severity))
  pub not_empty : str_eq summary "" ≡ false

first_present-status :
    (labels annotations : Dict String) (severity : String)
    → lookup "severity" labels ≡ some severity
    → first_present labels annotations status_surrogates ≡ severity ∷ []
first_present-status labels annotations severity h = ground (arith, h)

surrogate_summary-first_present :
    (alert : PrometheusAlert) (severity : String)
    → lookup "severity" alert.labels ≡ some severity
    → surrogate_summary alert ≡ keys_summary alert.labels alert.annotations severity
unfolding surrogate_summary kinds_loop
surrogate_summary-first_present alert severity h = simp (
  surrogate_loop-first_present alert,
  first_present-status alert.labels alert.annotations severity h,
)

own_labels-lookup :
    {F Request : Type 0} (p : Packages F Request) (e : Event F) (severity key : String)
    (labels : Dict String)
    → lookup key (own_labels p e severity labels) ≡ (
        if str_eq "publisher" key
        then some e.publisher
        else if str_eq "alertsource" key
        then some alert_source
        else if str_eq "severity" key
        then some severity
        else if str_eq "alertname" key
        then some e.index
        else lookup key labels)
unfolding own_labels
own_labels-lookup p e severity key labels = simp (lookup-insert)

-- The annotations and the summary that SetSummary leaves.
record Summarized (alert : PrometheusAlert) : Type 0 where
  summary : String
  annotations :
      (key : String)
      → lookup key (set_summary alert).annotations
        ≡ (if str_eq "summary" key then some summary else lookup key alert.annotations)
  chosen :
      summary
      ≡ text_or
          (lookup "summary" alert.annotations)
          (text_or (lookup "summary" alert.labels) (surrogate_summary alert))

set_summary-Summarized : (alert : PrometheusAlert) → Summarized alert
unfolding set_summary needs_summary generated_summary
set_summary-Summarized alert = record {
  summary = text_or (lookup "summary" alert.annotations) (generated_summary alert);
  annotations = λ key. ground (
    arith,
    eq_iff "summary" key,
    lookup-insert "summary" key (generated_summary alert) alert.annotations,
  );
  chosen = ap (text_or (lookup "summary" alert.annotations)) (ground arith);
}

set_summary-labels : (alert : PrometheusAlert) → (set_summary alert).labels ≡ alert.labels
unfolding set_summary
set_summary-labels alert = ground arith

set_summary-generator_url :
    (alert : PrometheusAlert) → (set_summary alert).generator_url ≡ alert.generator_url
unfolding set_summary
set_summary-generator_url alert = ground arith

module _ {F Request : Type 0} (p : Packages F Request) where
  abbrev before_summary : String → Event F → String → PrometheusAlert
  before_summary generator_url e severity = record {
    labels = own_labels p e severity (p.assimilate e.labels);
    annotations = p.assimilate e.annotations;
    starts_at = if p.is_zero e.time then "" else p.now;
    ends_at = "";
    generator_url = generator_url;
  }

  generate_alert-before_summary :
      (generator_url : String) (e : Event F) (severity : String)
      → severity_string e.severity ≡ some severity
      → generate_alert p generator_url e
        ≡ returns (set_summary (before_summary generator_url e severity))
  unfolding generate_alert
  generate_alert-before_summary generator_url e severity h = rw (generate_alert, h) refl

  -- Every event has an alert: its own four labels over those of the event, the annotations of the event
  -- but for the summary, and a summary that is not empty. The summary is that of the annotations, or else
  -- of the labels, or else made of the first value of each kind of keys and ends with the severity.
  pub generate_alert-Generated :
      (generator_url : String) (e : Event F) → Generated p generator_url e
  generate_alert-Generated generator_url e =
      let (severity, named, long) = severity_named e.severity in
      let base = before_summary generator_url e severity in
      let summarized = set_summary-Summarized base in
      let labelled = set_summary-labels base in
      let from_keys =
        surrogate_summary-first_present base severity
          (own_labels-lookup p e severity "severity" (p.assimilate e.labels)) in
      let chosen =
        summarized.chosen
        ∙ ap (text_or (lookup "summary" (p.assimilate e.annotations))) (
            ap (λ o. text_or o (surrogate_summary base))
              (own_labels-lookup p e severity "summary" (p.assimilate e.labels))
            ∙ ap (text_or (lookup "summary" (p.assimilate e.labels))) from_keys) in
      record {
        severity = severity;
        named = named;
        alert = set_summary base;
        result = generate_alert-before_summary generator_url e severity named;
        url = set_summary-generator_url base;
        labels = λ key.
            ap (lookup key) labelled ∙ own_labels-lookup p e severity key (p.assimilate e.labels);
        summary = summarized.summary;
        annotations = summarized.annotations;
        chosen =
            chosen
            ∙ ap
                (λ ls. text_or (lookup "summary" (p.assimilate e.annotations)) (
                  text_or (lookup "summary" (p.assimilate e.labels))
                    (keys_summary ls (p.assimilate e.annotations) severity)))
                (sym labelled);
        not_empty =
            ap (λ s. str_eq s "") chosen
            ∙ text_or_nonempty (lookup "summary" (p.assimilate e.annotations)) _ (
                text_or_nonempty (lookup "summary" (p.assimilate e.labels)) _
                  (len-nonempty _ (join-len severity _ long)));
      }
