-- ===== src/Events/Parsed.antt =====
-- What Parse of plugins/handler/events/collectd/collectd.go makes of the messages.
use sg_core.Prelude.{
  ℕ, ◌≡◌, refl, sym, ap, ◌∙◌, String, List, [], ◌∷◌, ◌++◌, append-nil, append_assoc, Option, none,
  some, lookup, All, Outcome, returns, inr,
}
use sg_core.Data.{Event, EventSeverity, unknown, Value, null, bool, num, str, arr, obj}
use sg_core.Handler.{Published, publish_event}
use sg_core.Events.Collectd.{
  Packages, EventMessage, collectd_alert_severity, severity_of, message_event, parse_messages,
  parse_sanitized, publish_events, sanitize, collectd_event_handler,
}

-- The severity label is missing or a text.
abbrev pub Worded : {F : Type 0} → Option (Value F) → Type 0
Worded none = Unit
Worded (some (str s)) = Unit
Worded (some v) = ⊥

-- The severity of such a label.
abbrev pub word_severity : {F : Type 0} → Option (Value F) → EventSeverity
word_severity (some (str s)) = elim (collectd_alert_severity s) [
  | some severity ↦ severity
  | none ↦ unknown
]
word_severity v = unknown

severity_of-word :
    {F : Type 0} (v : Option (Value F)) → Worded v → severity_of v ≡ returns (word_severity v)
unfolding severity_of
severity_of-word none h = refl
severity_of-word (some (str s)) h = known (collectd_alert_severity s)
  where
    known :
        (o : Option EventSeverity)
        → (elim o as (λ k. Outcome EventSeverity) [
          | some severity ↦ returns severity
          | none ↦ returns unknown
        ])
          ≡ returns (elim o as (λ k. EventSeverity) [ some severity ↦ severity | none ↦ unknown ])
    known none = refl
    known (some severity) = refl
severity_of-word (some null) h = elim h [ ]
severity_of-word (some (bool b)) h = elim h [ ]
severity_of-word (some (num n)) h = elim h [ ]
severity_of-word (some (arr a)) h = elim h [ ]
severity_of-word (some (obj o)) h = elim h [ ]

module _ {F : Type 0} (p : Packages F) where
  abbrev pub HasWord : EventMessage F → Type 0
  HasWord msg = Worded (lookup "severity" msg.labels)

  abbrev pub events_of : List (EventMessage F) → List (Event F)
  events_of [] = []
  events_of (msg ∷ msgs) =
      message_event p msg (word_severity (lookup "severity" msg.labels)) ∷ events_of msgs

  parse_messages-events :
      (msgs : List (EventMessage F)) (events : List (Event F))
      → All HasWord msgs
      → parse_messages p msgs events ≡ returns (events ++ events_of msgs)
  unfolding parse_messages
  parse_messages-events [] events h = ap returns (sym (append-nil events))
  parse_messages-events (msg ∷ msgs) events h =
      rw (severity_of-word (lookup "severity" msg.labels) h.0)
        (parse_messages-events msgs _ h.1 ∙ ap returns (append_assoc events _ (events_of msgs)))

  publish_events-metrics :
      (es : List (Event F)) (out : Published F)
      → publish_events p es out ≡ record out { events = out.events ++ es }
  unfolding publish_events publish_event
  publish_events-metrics [] out = rw (append-nil out.events) refl
  publish_events-metrics (e ∷ es) out =
      publish_events-metrics es (record out { events = out.events ++ e ∷ [] })
      ∙ ap (λ l. record out { events = l }) (append_assoc out.events (e ∷ []) es)

  -- A message that is sanitized and decodes, with severities that are missing or texts, is published whole
  -- without an error: one event for each entry, in order, of the severity that the text names or unknown.
  pub collectd_event_handler-events :
      (fuel : ℕ) (blob output : String) (msgs : List (EventMessage F)) (out : Published F)
      → sanitize p.rexes fuel blob ≡ some output
      → p.unmarshal output ≡ inr msgs
      → All HasWord msgs
      → collectd_event_handler p fuel blob out
        ≡ some (returns (record out { events = out.events ++ events_of msgs }, none))
  unfolding collectd_event_handler parse_sanitized
  collectd_event_handler-events fuel blob output msgs out clean decodes words =
      rw (collectd_event_handler, clean)
        (rw (parse_sanitized, decodes)
          (rw (parse_messages-events msgs [] words)
            (ap (λ o. some (returns (o, none))) (publish_events-metrics (events_of msgs) out))))
