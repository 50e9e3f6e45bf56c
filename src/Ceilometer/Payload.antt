-- ===== src/Ceilometer/Payload.antt =====
-- What Handle of plugins/handler/ceilometer-metrics/main.go makes of a message's payload, and of a
-- message that does not set the text it is read from.
use Prim.Native.Char.{code}
use sg_core.Prelude.{
  ℕ, zero, suc, ◌≡◌, refl, sym, ap, ◌∙◌, Bool, true, false, String, str_eq, List, [], ◌∷◌, ◌++◌,
  append-nil, append_assoc, map, length, inl, inr, Option, none, some, Outcome, returns, inc64,
  split, if◌then◌else◌, Bool-cases, ◌==◌,
}
use sg_core.Data.{Metric}
use sg_core.Ceilometer.Message.{
  CeilometerMetric, Message, Ceilometer, OsloSchema, Decoders, sanitize, parse_decoded,
  parse_input_json,
}
use sg_core.Ceilometer.Labels.{gen_labels}
use sg_core.Ceilometer.Written.{labels, gen_labels-labels}
use sg_core.Ceilometer.Metrics.{
  Handler, Times, missing_name, report_error, named_metric, write_payload, validate_message,
  handle_message,
}

-- strings.Split makes at least one part.
split-parts :
    (separator : ℕ) (s : String) → (p : String) × (ps : List String) × (split separator s ≡ p ∷ ps)
unfolding split
split-parts separator String.[] = ("", [], refl)
split-parts separator (String.◌∷◌ c s) =
    let rest = split-parts separator s in
    elim (Bool-cases (code c == separator)) [
      | inl here ↦ ("", split separator s, rw here refl)
      | inr further ↦ (String.◌∷◌ c rest.0, rest.1, rw further (rw rest.2 refl))
    ]

-- A counter that has gone up some times.
abbrev pub times_up : ℕ → ℕ → ℕ
times_up zero n = n
times_up (suc k) n = times_up k (inc64 n)

module _ {F : Type 0} where
  abbrev pub labels_of : CeilometerMetric F → String → List String → List String × List String
  labels_of m publisher [] = ([], [])
  labels_of m publisher (plugin ∷ parts) = (
    map (λ l. l.0) (labels m publisher plugin parts),
    map (λ l. l.1) (labels m publisher plugin parts),
  )

  -- The metrics before the first that has no name, and the error that this one makes.
  abbrev pub before_nameless : List (CeilometerMetric F) → List (CeilometerMetric F)
  before_nameless [] = []
  before_nameless (m ∷ ms) = if str_eq m.counter_name "" then [] else m ∷ before_nameless ms

  abbrev pub nameless : List (CeilometerMetric F) → Option String
  nameless [] = none
  nameless (m ∷ ms) = if str_eq m.counter_name "" then some missing_name else nameless ms

module _ {F : Type 0} (times : Times F) (decoders : Decoders F) where
  abbrev pub published : String → CeilometerMetric F → Metric F
  published publisher m =
      named_metric times decoders m (labels_of m publisher (split b'.' m.counter_name))

  -- How the loop over the payload ends.
  pub record Stopped (publisher : String) (ms : List (CeilometerMetric F)) (c : Handler F)
      (r : Outcome (Handler F × Option String)) : Type 0 where
    pub last : Handler F
    pub result : r ≡ returns (last, nameless ms)
    pub metrics : last.out.metrics ≡ c.out.metrics ++ map (published publisher) (before_nameless ms)
    pub decoded :
        last.total_metrics_decoded ≡ times_up (length (before_nameless ms)) c.total_metrics_decoded

  report_error-metrics :
      (report : Bool) (err : String) (c : Handler F)
      → ((report_error times decoders report err c).out.metrics ≡ c.out.metrics)
        × ((report_error times decoders report err c).total_metrics_decoded
            ≡ c.total_metrics_decoded)
  unfolding report_error
  report_error-metrics true err c = (refl, refl)
  report_error-metrics false err c = (refl, refl)

  gen_labels-labels_of :
      (m : CeilometerMetric F) (publisher : String)
      → gen_labels m publisher (split b'.' m.counter_name)
        ≡ returns (labels_of m publisher (split b'.' m.counter_name))
  gen_labels-labels_of m publisher =
      let parts = split-parts b'.' m.counter_name in
      rw parts.2 (gen_labels-labels m publisher parts.0 parts.1)

  pub write_payload-Stopped :
      (report : Bool) (publisher : String) (ms : List (CeilometerMetric F)) (c : Handler F)
      → Stopped publisher ms c (write_payload times decoders report publisher ms c)
  unfolding write_payload
  write_payload-Stopped report publisher [] c = record {
    last = c;
    result = refl;
    metrics = sym (append-nil c.out.metrics);
    decoded = refl;
  }
  write_payload-Stopped report publisher (m ∷ ms) c = elim (Bool-cases (str_eq m.counter_name "")) [
    | inl missing ↦
        let e = report_error-metrics report missing_name c in
        record {
          last = report_error times decoders report missing_name c;
          result = rw missing refl;
          metrics = e.0 ∙ sym (append-nil c.out.metrics) ∙ (rw missing);
          decoded = e.1 ∙ (rw missing);
        }
    | inr named ↦
        let rest = write_payload-Stopped report publisher ms (record c {
          total_metrics_decoded = inc64 c.total_metrics_decoded;
          out = record c.out { metrics = c.out.metrics ++ published publisher m ∷ [] };
        }) in
        record {
          last = rest.last;
          result = rw named (rw (gen_labels-labels_of m publisher) rest.result);
          metrics = rest.metrics ∙ append_assoc c.out.metrics _ _ ∙ (rw named);
          decoded = rest.decoded ∙ (rw named);
        }
  ]

  -- Handle of a message with a publisher and a payload never panics: it publishes the metrics before the
  -- first one without a name, in order and each with its labels, counts them, and returns an error exactly
  -- if there is such a metric.
  pub handle_message-Stopped :
      (report : Bool) (msg : Message F) (c : Handler F)
      → validate_message msg ≡ none
      → Stopped msg.publisher msg.payload c (handle_message times decoders report msg c)
  unfolding handle_message
  handle_message-Stopped report msg c valid =
      rw (handle_message, valid) (write_payload-Stopped report msg.publisher msg.payload c)

module _ {F : Type 0} (decoders : Decoders F) where
  parse_input_json-decoded :
      (blob : String) (c : Ceilometer) (schema : OsloSchema)
      → decoders.unmarshal_schema blob c.schema ≡ (schema, none)
      → parse_input_json decoders blob c ≡ (
        record { schema = schema },
        decoders.unmarshal_message (sanitize decoders (record { schema = schema })),
      )
  unfolding parse_input_json parse_decoded
  parse_input_json-decoded blob c schema h = ap (parse_decoded decoders) h

  -- A message that decodes without an error and sets no field of the schema, such as one without an
  -- oslo.message, is read as the message before it.
  pub parse_input_json-again :
      (first second : String) (c : Ceilometer) (schema : OsloSchema)
      → decoders.unmarshal_schema first c.schema ≡ (schema, none)
      → decoders.unmarshal_schema second schema ≡ (schema, none)
      → parse_input_json decoders second (parse_input_json decoders first c).0
        ≡ parse_input_json decoders first c
  parse_input_json-again first second c schema decodes same =
      rw (parse_input_json-decoded first c schema decodes)
        (parse_input_json-decoded second (record { schema = schema }) schema same)
