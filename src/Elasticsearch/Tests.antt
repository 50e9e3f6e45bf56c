-- ===== src/Elasticsearch/Tests.antt =====
-- Runs of the Elasticsearch application: a float64 is a natural number here.
use sg_core.Prelude.{
  ℕ, ◌≡◌, refl, ◌==◌, String, str_eq, List, [], ◌∷◌, ◌++◌, none, some, pos, inl, inr, split,
  contains_text, if◌then◌else◌,
}
use sg_core.Elasticsearch.Client.{Response, Connection, indices_create, format_bulk_request}
use sg_core.Elasticsearch.Indices.{created, creates, indices_create-existing}
use sg_core.Elasticsearch.Interleaved.{
  Act, receives, flushes, works, act_all, Conserved, act_all-Conserved,
}
use sg_core.Elasticsearch.Bulk.{bulk_lines, format_bulk_request-lines}
use sg_core.Data.{Event, EventType, event, info, task}
use sg_core.Elasticsearch.Documents.{Encoders, default_config}
use sg_core.Elasticsearch.Buffer.{Elasticsearch, is_buffered, new_elasticsearch, receive_all}
use sg_core.Elasticsearch.Order.{InOrder, receive_all-InOrder}

abbrev happened : EventType → String → Event ℕ
happened type index = record {
  index = index;
  time = 7;
  type = type;
  publisher = "host";
  severity = info;
  labels = [];
  annotations = [];
  message = "";
}

abbrev pub encoders : Encoders ℕ
encoders = record {
  marshal_record = λ r. some r.generated;
  marshal_log = λ l. some l.timestamp;
  merged = λ a b. [];
  is_zero = λ t. t == 0;
  now = "now";
  format_epoch = λ t. "then";
}

abbrev four_events : List (Event ℕ)
four_events = happened event "a" ∷ happened task "a" ∷ happened event "b" ∷ happened event "a" ∷ []

abbrev batches_of_two : Elasticsearch
unfolding new_elasticsearch default_config
batches_of_two = new_elasticsearch (record default_config { buffer_size = pos 2 })

receive_all-InOrder_example :
    InOrder encoders "a" four_events batches_of_two
      (receive_all encoders four_events batches_of_two)
unfolding is_buffered batches_of_two
receive_all-InOrder_example = receive_all-InOrder encoders "a" four_events batches_of_two (inl refl)

abbrev answered : ℕ → String → Response
answered status body = record { status_code = status; body = body; discard_error = none }

-- A server that lists the indices it has been asked to create; "logs" is there.
abbrev connection : Connection (List String)
connection = record {
  exists = λ is s. (s, inr (answered 200 ""));
  delete = λ is s. (s, inr (answered 200 ""));
  create = λ i s. (
    s ++ i ∷ [],
    inr (
        if str_eq i "logs"
        then answered 400 "resource_already_exists_exception"
        else answered 200 ""),
  );
  index = λ i doc s. (s, inr (answered 201 ""));
  bulk = λ request s. (s, inr (answered 200 ""));
  info = λ s. (s, inr (answered 200 ""));
  generate_document_id = λ s. (s, "id");
}

indices_create-existing_example :
    indices_create connection ("events" ∷ "logs" ∷ "metrics" ∷ []) []
    ≡ ("events" ∷ "logs" ∷ [], none)
unfolding contains_text
indices_create-existing_example =
    indices_create-existing connection ("events" ∷ []) "logs" ("metrics" ∷ []) [] ("events" ∷ [])
      (answered 400 "resource_already_exists_exception")
      (creates (answered 200 "") refl refl refl created) refl refl refl

format_bulk_request-lines_example :
    split b'\n' (format_bulk_request connection "logs" ("{}" ∷ "{\"a\":1}" ∷ []) []).1
    ≡ (bulk_lines connection "logs" ("{}" ∷ "{\"a\":1}" ∷ []) [] ++ "" ∷ "" ∷ [])
format_bulk_request-lines_example =
    format_bulk_request-lines connection "logs" ("{}" ∷ "{\"a\":1}" ∷ []) [] refl refl (λ t. refl)

-- A tick of the flusher comes between the events, and overtakes a batch.
abbrev acts : List (Act ℕ)
acts =
    receives (happened event "a")
    ∷ flushes
    ∷ receives (happened event "a")
    ∷ receives (happened event "a")
    ∷ receives (happened event "a")
    ∷ flushes
    ∷ works
    ∷ []

-- The second call of Index and those behind it fail.
abbrev failing : Connection (List String)
failing = record connection {
  index = λ i doc s. (
    s ++ doc ∷ [],
    elim s [ [] ↦ inr (answered 201 "") | first ∷ rest ↦ inl "connection refused" ],
  );
}

act_all-Conserved_example :
    Conserved encoders failing "a" "then" acts batches_of_two
      (act_all encoders failing acts (batches_of_two, []))
unfolding is_buffered batches_of_two
act_all-Conserved_example =
    act_all-Conserved encoders failing "a" "then" acts batches_of_two [] (inl refl, tt)
