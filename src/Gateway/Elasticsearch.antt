-- ===== src/Gateway/Elasticsearch.antt =====
-- The application of plugins/application/elasticsearch as a receiver of events.
use sg_core.Prelude.{
  ℕ, ◌≡◌, refl, ap, ◌∙◌, arith, Bool, true, false, ◌&&◌, ◌||◌, String, str_eq, eq_iff, eq_refl,
  List, [], ◌∷◌, ◌++◌, Option, none, some, contains, returns, panics,
}
use sg_core.Data.{Event}
use sg_core.Elasticsearch.Documents.{Encoders}
use sg_core.Elasticsearch.Buffer.{Elasticsearch, document_of, keep, receive_event}
use sg_core.Elasticsearch.Order.{arrived, Ready, made, keep-arrived, document_of-Returns}
use sg_core.Gateway.Receiver.{MessageReceiver}

contains_join :
    (k : String) (xs ys : List String) → contains k (xs ++ ys) ≡ (contains k xs || contains k ys)
contains_join k [] ys = refl
contains_join k (x ∷ xs) ys = ground (arith, contains_join k xs ys)

module _ {F : Type 0} (enc : Encoders F) where
  abbrev pub document : Event F → Option String
  document e = elim (document_of enc e.type e) [ returns doc ↦ doc | panics ↦ none ]

  -- A call that panicked would leave the application as it was; none does.
  abbrev pub receive : ℕ → Event F → Elasticsearch → Elasticsearch
  receive now e es = elim (receive_event enc e es) [ returns es' ↦ es' | panics ↦ es ]

  abbrev is_among : Option String → List String → Bool
  is_among none docs = true
  is_among (some doc) docs = contains doc docs

  -- The document of the event, if it makes one, is in a batch or in the buffer.
  abbrev pub has_document : Event F → Elasticsearch → Bool
  has_document e es = is_among (document e) (arrived e.index es)

  abbrev is_same : Option String → Option String → Bool
  is_same none none = true
  is_same (some a) (some b) = str_eq a b
  is_same none (some b) = false
  is_same (some a) none = false

  abbrev pub is_alike : Event F → Event F → Bool
  is_alike d e = str_eq d.index e.index && is_same (document d) (document e)

  pub is_alike_refl : (e : Event F) → is_alike e e ≡ true
  is_alike_refl e = rw (eq_refl e.index) (same (document e))
    where
      same : (o : Option String) → is_same o o ≡ true
      same none = refl
      same (some a) = eq_refl a

  receive-keep :
      (now : ℕ) (e : Event F) (es : Elasticsearch) → receive now e es ≡ keep e.index (document e) es
  unfolding receive_event keep
  receive-keep now e es =
      let d = document_of-Returns enc e.type e in
      rw (receive, receive_event, document, d.result) refl

  pub receive-Ready :
      (now : ℕ) (e : Event F) (es : Elasticsearch) → Ready es → Ready (receive now e es)
  receive-Ready now e es ready =
      rw (receive-keep now e es) (keep-arrived e.index e.index (document e) es ready).1

  receive-arrived :
      (now : ℕ) (i : String) (e : Event F) (es : Elasticsearch)
      → Ready es
      → arrived i (receive now e es) ≡ arrived i es ++ made e.index i (document e)
  receive-arrived now i e es ready =
      ap (arrived i) (receive-keep now e es) ∙ (keep-arrived i e.index (document e) es ready).0

  is_among-made :
      (i j : String) (d o : Option String) (docs : List String)
      → is_among o (docs ++ made i j d) ≡ (is_among o docs || (str_eq i j && is_same d o))
  is_among-made i j d none docs = refl
  is_among-made i j none (some b) docs = contains_join b docs [] ∙ ground arith
  is_among-made i j (some a) (some b) docs =
      contains_join b docs (made i j (some a)) ∙ ground (arith, eq_iff a b, eq_iff b a)

  pub receive-has_document :
      (now : ℕ) (d e : Event F) (es : Elasticsearch)
      → Ready es
      → has_document e (receive now d es) ≡ (has_document e es || is_alike d e)
  receive-has_document now d e es ready =
      ap (is_among (document e)) (receive-arrived now e.index d es ready)
      ∙ is_among-made d.index e.index (document d) (document e) (arrived e.index es)

  pub is_alike-has_document :
      (now : ℕ) (d e : Event F) (es : Elasticsearch)
      → Ready es
      → is_alike d e ≡ true
      → has_document e (receive now d es) ≡ true
  is_alike-has_document now d e es ready alike =
      receive-has_document now d e es ready ∙ ground (arith, alike)

  pub keeps-has_document :
      (now : ℕ) (d e : Event F) (es : Elasticsearch)
      → Ready es
      → has_document e es ≡ true
      → has_document e (receive now d es) ≡ true
  keeps-has_document now d e es ready held =
      receive-has_document now d e es ready ∙ ground (arith, held)

  -- Elasticsearch keeps an event as a document for its index.
  abbrev pub elasticsearch_receiver : MessageReceiver (Event F) Elasticsearch
  elasticsearch_receiver = record {
    receive = receive;
    is_alike = is_alike;
    holds = has_document;
    IsSound = Ready;
    alike_refl = is_alike_refl;
    receive_sound = receive-Ready;
    receive_holds = is_alike-has_document;
    receive_keeps = keeps-has_document;
  }
