-- ===== src/Elasticsearch/Order.antt =====
-- No document is lost, doubled or reordered between ReceiveEvent and the channel of batches.
use sg_core.Prelude.{
  in_range, ◌≡◌, refl, sym, ap, ◌∙◌, arith, true, String, str_eq, eq_iff, List, [], ◌∷◌, ◌++◌,
  append-nil, append_assoc, Option, none, some, ◌⊎◌, if◌then◌else◌, Dict, lookup, insert, remove,
  lookup-insert, lookup-remove, Outcome, returns, panics, bind-Returns, inl, inr, Bool-cases,
  Returns,
}
use sg_core.Data.{
  Event, EventType, EventSeverity, event, log, error, result, task, unknown, debug, info, warning,
  critical, event_type_string, severity_string, event_type_index, severity_index,
}
use sg_core.Elasticsearch.Documents.{Encoders, format_record, format_log}
use sg_core.Elasticsearch.Buffer.{
  EsIndex, Elasticsearch, records, is_buffered, is_short, buffer_record, keep, document_of,
  receive_event, receive_all,
}

-- The records of the batches for an index.
abbrev pub batched : String → List EsIndex → List String
batched i [] = []
batched i (b ∷ bs) = if str_eq b.index i then b.record_list ++ batched i bs else batched i bs

-- The records of an index that have arrived: those in batches and those in the buffer.
abbrev pub arrived : String → Elasticsearch → List String
arrived i es = batched i es.dump ++ records (lookup i es.buffer)

pub batched-append :
    (i : String) (bs : List EsIndex) (b : EsIndex)
    → batched i (bs ++ b ∷ []) ≡ batched i bs ++ (if str_eq b.index i then b.record_list else [])
batched-append i [] b = elim (Bool-cases (str_eq b.index i)) [
  | inl h ↦ rw h (append-nil b.record_list)
  | inr h ↦ rw h refl
]
batched-append i (c ∷ bs) b = elim (Bool-cases (str_eq c.index i)) [
  | inl h ↦
      rw h (
        ap (λ l. c.record_list ++ l) (batched-append i bs b) ∙ sym (append_assoc c.record_list _ _))
  | inr h ↦ rw h (batched-append i bs b)
]

-- A document that is buffered or sent.
abbrev own : String → String → String → List String
own index i doc = if str_eq index i then doc ∷ [] else []

-- A batch behind the others.
sent :
    (i index : String) (rs : List String) (bs : List EsIndex)
    → batched i (bs ++ record { index = index; record_list = rs } ∷ [])
      ≡ batched i bs ++ (if str_eq index i then rs else [])
sent i index rs bs = batched-append i bs (record { index = index; record_list = rs })

buffered_arrives :
    (i index doc : String) (buffer : Dict (List String))
    → records (lookup i (insert index (records (lookup index buffer) ++ doc ∷ []) buffer))
      ≡ records (lookup i buffer) ++ own index i doc
buffered_arrives i index doc buffer = elim (Bool-cases (str_eq index i)) [
  | inl h ↦
      let same = (eq_iff index i).0 h in
      rw (lookup-insert index i (records (lookup index buffer) ++ doc ∷ []) buffer)
        (rw h (ap (λ k. records (lookup k buffer) ++ doc ∷ []) same))
  | inr h ↦
      rw (lookup-insert index i (records (lookup index buffer) ++ doc ∷ []) buffer)
        (rw h (sym (append-nil (records (lookup i buffer)))))
]

sent_arrives :
    (i index doc : String) (buffer : Dict (List String)) (bs : List EsIndex)
    → let rs = records (lookup index buffer) ++ doc ∷ [] in
      batched i (bs ++ record { index = index; record_list = rs } ∷ [])
        ++ records (lookup i (remove index (insert index rs buffer)))
      ≡ (batched i bs ++ records (lookup i buffer)) ++ own index i doc
sent_arrives i index doc buffer bs =
    let rs : List String = records (lookup index buffer) ++ doc ∷ [] in
    elim (Bool-cases (str_eq index i)) [
      | inl h ↦
          let same = (eq_iff index i).0 h in
          rw (sent i index rs bs) (
            rw (lookup-remove index i (insert index rs buffer)) (
              rw h (
                append-nil (batched i bs ++ rs)
                ∙ ap (λ k. batched i bs ++ (records (lookup k buffer) ++ doc ∷ [])) same
                ∙ sym (append_assoc (batched i bs) (records (lookup i buffer)) (doc ∷ [])))))
      | inr h ↦ rw (sent i index rs bs) (
          rw (lookup-remove index i (insert index rs buffer)) (
            rw h (
              rw (lookup-insert index i rs buffer) (
                rw h (
                  ap (λ l. l ++ records (lookup i buffer)) (append-nil (batched i bs))
                  ∙ sym (append-nil (batched i bs ++ records (lookup i buffer))))))))
    ]

-- Batches are used, or the buffer is empty: so it is from the start, and it stays so.
abbrev pub Ready : Elasticsearch → Type 0
Ready es = (is_buffered es.configuration ≡ true) ⊎ (es.buffer ≡ [])

buffer_record-arrived :
    (i index doc : String) (es : Elasticsearch)
    → Ready es
    → (arrived i (buffer_record index doc es) ≡ arrived i es ++ own index i doc)
      × Ready (buffer_record index doc es)
unfolding buffer_record lookup
buffer_record-arrived i index doc es ready =
    let rs : List String = records (lookup index es.buffer) ++ doc ∷ [] in
    elim (Bool-cases (is_buffered es.configuration)) [
      | inl buffers ↦ elim (Bool-cases (is_short rs es.configuration)) [
        | inl short ↦
            rw (buffer_record, buffers)
              (rw short (
                ap (λ l. batched i es.dump ++ l) (buffered_arrives i index doc es.buffer)
                    ∙ sym (append_assoc (batched i es.dump) _ _),
                inl buffers,
              ))
        | inr full ↦
            rw (buffer_record, buffers)
              (rw full (sent_arrives i index doc es.buffer es.dump, inl buffers))
      ]
      | inr direct ↦ elim ready [
        | inl buffers ↦ absurd (grind (arith, direct, buffers))
        | inr empty ↦
            rw (buffer_record, direct)
              (rw empty (
                rw (sent i index (doc ∷ []) es.dump) (
                  append-nil (batched i es.dump ++ own index i doc)
                      ∙ ap (λ l. l ++ own index i doc) (sym (append-nil (batched i es.dump))),
                  inr refl,
                )))
      ]
    ]

-- What a document adds to those of an index.
abbrev pub made : String → String → Option String → List String
made index i none = []
made index i (some doc) = own index i doc

pub keep-arrived :
    (i index : String) (doc : Option String) (es : Elasticsearch)
    → Ready es
    → (arrived i (keep index doc es) ≡ arrived i es ++ made index i doc) × Ready (keep index doc es)
unfolding keep
keep-arrived i index none es ready = (sym (append-nil (arrived i es)), ready)
keep-arrived i index (some doc) es ready = buffer_record-arrived i index doc es ready

type-Returns : (t : EventType) → Returns (in_range (event_type_string t))
unfolding event_type_string event_type_index
type-Returns error = record { value = _; result = refl }
type-Returns event = record { value = _; result = refl }
type-Returns log = record { value = _; result = refl }
type-Returns result = record { value = _; result = refl }
type-Returns task = record { value = _; result = refl }

severity-Returns : (s : EventSeverity) → Returns (in_range (severity_string s))
unfolding severity_string severity_index
severity-Returns unknown = record { value = _; result = refl }
severity-Returns debug = record { value = _; result = refl }
severity-Returns info = record { value = _; result = refl }
severity-Returns warning = record { value = _; result = refl }
severity-Returns critical = record { value = _; result = refl }

module _ {F : Type 0} (enc : Encoders F) where
  pub document_of-Returns : (t : EventType) (e : Event F) → Returns (document_of enc t e)
  unfolding document_of format_record format_log
  document_of-Returns event e = bind-Returns (type-Returns e.type) (λ t eq.
      bind-Returns (severity-Returns e.severity) (λ s eq'. record { value = _; result = refl }))
  document_of-Returns log e =
      bind-Returns (severity-Returns e.severity) (λ s eq. record { value = _; result = refl })
  document_of-Returns error e = record { value = _; result = refl }
  document_of-Returns result e = record { value = _; result = refl }
  document_of-Returns task e = record { value = _; result = refl }

  -- The documents of the events of an index, in order.
  abbrev pub documents : String → List (Event F) → List String
  documents i [] = []
  documents i (e ∷ es) =
      elim (document_of enc e.type e) [ returns doc ↦ made e.index i doc | panics ↦ [] ]
      ++ documents i es

  pub record InOrder (i : String) (events : List (Event F)) (es : Elasticsearch)
      (r : Outcome Elasticsearch) : Type 0 where
    pub last : Elasticsearch
    pub handled : r ≡ returns last
    pub in_order : arrived i last ≡ arrived i es ++ documents i events

  -- All events are received without a panic, and the documents of an index in batches and in the buffer
  -- are those that were there and then those of the events of that index, each once and in order: for
  -- any size of the buffer, the buffer being empty if none is used.
  pub receive_all-InOrder :
      (i : String) (events : List (Event F)) (es : Elasticsearch)
      → Ready es
      → InOrder i events es (receive_all enc events es)
  unfolding receive_all receive_event
  receive_all-InOrder i [] es ready = record {
    last = es;
    handled = refl;
    in_order = sym (append-nil (arrived i es));
  }
  receive_all-InOrder i (e ∷ events) es ready =
      let doc = document_of-Returns e.type e in
      let step = keep-arrived i e.index doc.value es ready in
      let rest = receive_all-InOrder i events (keep e.index doc.value es) step.1 in
      record {
        last = rest.last;
        handled = rw doc.result rest.handled;
        in_order =
            rest.in_order
            ∙ ap (λ l. l ++ documents i events) step.0
            ∙ append_assoc (arrived i es) (made e.index i doc.value) (documents i events)
            ∙ rw doc.result refl;
      }
