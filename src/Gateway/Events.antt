-- ===== src/Gateway/Events.antt =====
-- From an alert of collectd to what Elasticsearch is given: the handler of plugins/handler/events/collectd, the
-- event bus of pkg/bus/bus.go and the application of plugins/application/elasticsearch.
use sg_core.Prelude.{
  ℕ, ◌≡◌, sym, ap, ◌∙◌, true, String, List, [], ◌∷◌, ◌++◌, append_assoc, Option, none, some, All,
  Outcome, returns, panics, inr,
}
use sg_core.Data.{Event}
use sg_core.Handler.{Published}
use sg_core.Events.Collectd.{Packages, EventMessage, sanitize, collectd_event_handler}
use sg_core.Events.Parsed.{HasWord, events_of, collectd_event_handler-events}
use sg_core.Bus.Deliveries.{EventBus}
use sg_core.Elasticsearch.Documents.{Encoders}
use sg_core.Elasticsearch.Buffer.{Elasticsearch}
use sg_core.Elasticsearch.Order.{Ready}
use sg_core.Gateway.Receiver.{Act, act_all, published, is_subscribed, calls, published-Held}
use sg_core.Gateway.Elasticsearch.{has_document, elasticsearch_receiver}

-- The events that the handler has published when it returns.
abbrev pub alerts_of :
    {F : Type 0} → Option (Outcome (Published F × Option String)) → List (Event F)
alerts_of none = []
alerts_of (some panics) = []
alerts_of (some (returns (out, err))) = out.events

module _ {F : Type 0} (p : Packages F) (enc : Encoders F) where
  -- Of a message of collectd that is sanitized and decodes, with severities that are missing or texts, the
  -- document of each event that makes one is in a batch or in the buffer of Elasticsearch once the bus has made its
  -- calls, in whatever order the handler published and the goroutines ran, if Elasticsearch is subscribed
  -- and its buffer is empty or in use, and no flush and no worker comes between.
  pub collectd_event_handler-has_document :
      (fuel : ℕ) (blob output : String) (msgs : List (EventMessage F)) (out : Published F)
      (acts : List (Act (Event F))) (eb : EventBus (Event F)) (n : ℕ) (clock : ℕ → ℕ)
      (es : Elasticsearch) (before : List (Event F)) (e : Event F) (after : List (Event F))
      → sanitize p.rexes fuel blob ≡ some output
      → p.unmarshal output ≡ inr msgs
      → All (HasWord p) msgs
      → events_of p msgs ≡ before ++ e ∷ after
      → published acts ≡ alerts_of (collectd_event_handler p fuel blob out)
      → is_subscribed n eb.subscribers ≡ true
      → (act_all acts eb).pending ≡ []
      → Ready es
      → has_document enc e
          (calls (elasticsearch_receiver enc) n clock 0 (act_all acts eb).delivered es)
        ≡ true
  collectd_event_handler-has_document fuel blob output msgs out acts eb n clock es before e after
        clean decodes words made sent subscribed done ready =
      (published-Held (elasticsearch_receiver enc) n clock acts eb es (out.events ++ before) e after
        (sent
          ∙ ap alerts_of
              (collectd_event_handler-events p fuel blob output msgs out clean decodes words)
          ∙ ap (λ l. out.events ++ l) made
          ∙ sym (append_assoc out.events before (e ∷ after)))
        subscribed done ready).held
