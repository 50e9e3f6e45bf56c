-- ===== src/Elasticsearch/Buffer.antt =====
-- ReceiveEvent of plugins/application/elasticsearch/main.go, the flush of the buffer and the workers.
-- The channel `dump` is a queue: a send that waits for room is a step that is made later. A batch for which
-- the client's Index returns an error is disregarded: it is in `disregarded`, and in `indexed` otherwise.
use sg_core.Prelude.{
  Bool, String, List, [], ◌∷◌, ◌++◌, Option, none, some, length, pos, ltbℤ, if◌then◌else◌, Dict,
  lookup, insert, remove, Outcome, returns, ◌>>=◌,
}
use sg_core.Data.{Event, EventType, event, log, error, result, task}
use sg_core.Elasticsearch.Client.{Connection, index_documents}
use sg_core.Elasticsearch.Documents.{AppConfig, Encoders, format_record, format_log}

pub record EsIndex : Type 0 where
  pub index : String
  pub record_list : List String

pub record Elasticsearch : Type 0 where
  pub configuration : AppConfig
  pub buffer : Dict (List String)
  pub dump : List EsIndex
  pub indexed : List EsIndex
  pub disregarded : List EsIndex

unfoldable pub new_elasticsearch : AppConfig → Elasticsearch
new_elasticsearch configuration = record {
  configuration = configuration;
  buffer = [];
  dump = [];
  indexed = [];
  disregarded = [];
}

-- The buffered records of an index; an index that is not there has none.
abbrev pub records : Option (List String) → List String
records none = []
records (some rs) = rs

abbrev send : String → List String → Elasticsearch → Elasticsearch
send index rs es = record es { dump = es.dump ++ record { index = index; record_list = rs } ∷ [] }

-- BufferSize > 1, and a list that is shorter than BufferSize.
unfoldable pub is_buffered : AppConfig → Bool
is_buffered configuration = ltbℤ (pos 1) configuration.buffer_size

unfoldable pub is_short : List String → AppConfig → Bool
is_short record_list configuration = ltbℤ (pos (length record_list)) configuration.buffer_size

unfoldable pub buffer_record : String → String → Elasticsearch → Elasticsearch
unfolding is_buffered is_short
buffer_record index doc es =
    if is_buffered es.configuration
    then (let record_list = records (lookup index es.buffer) ++ doc ∷ [] in
        let buffer = insert index record_list es.buffer in
        if is_short record_list es.configuration
        then record es { buffer = buffer }
        else send index record_list (record es { buffer = remove index buffer }))
    else send index (doc ∷ []) es

-- A document that could not be made is only logged.
unfoldable pub keep : String → Option String → Elasticsearch → Elasticsearch
unfolding buffer_record
keep index none es = es
keep index (some doc) es = buffer_record index doc es

module _ {F : Type 0} (enc : Encoders F) where
  -- The document of an event, by its type; other events than these two make none.
  unfoldable pub document_of : EventType → Event F → Outcome (Option String)
  unfolding format_record format_log
  document_of event e = format_record enc e
  document_of log e = format_log enc e
  document_of error e = returns none
  document_of result e = returns none
  document_of task e = returns none

  unfoldable pub receive_event : Event F → Elasticsearch → Outcome Elasticsearch
  unfolding document_of keep
  receive_event e es = document_of e.type e >>= (λ doc. returns (keep e.index doc es))

  unfoldable pub receive_all : List (Event F) → Elasticsearch → Outcome Elasticsearch
  unfolding receive_event
  receive_all [] es = returns es
  receive_all (e ∷ es) s = receive_event e s >>= receive_all es

-- The loop of the flusher over the buffer.
unfoldable pub flushed : Dict (List String) → List EsIndex
flushed [] = []
flushed ((index, rs) ∷ rest) = record { index = index; record_list = rs } ∷ flushed rest

-- What becomes of a batch, by the error of Index.
unfoldable pub conclude : EsIndex → Option String → Elasticsearch → Elasticsearch
conclude batch none es = record es { indexed = es.indexed ++ batch ∷ [] }
conclude batch (some err) es = record es { disregarded = es.disregarded ++ batch ∷ [] }

module _ {S : Type 0} (client : Connection S) where
  unfoldable pub index_batch : AppConfig → EsIndex → S → S × Option String
  unfolding index_documents
  index_batch configuration batch s =
      index_documents client batch.index batch.record_list configuration.bulk_index s

  -- The calls of Index in the loop of the flusher.
  unfoldable pub index_all : List EsIndex → Elasticsearch × S → Elasticsearch × S
  unfolding index_batch conclude
  index_all [] st = st
  index_all (batch ∷ batches) (es, s) =
      let (s', failure) = index_batch es.configuration batch s in
      index_all batches (conclude batch failure es, s')

  -- A tick of the flusher: for every entry of the buffer Index is called, and the entry removed.
  unfoldable pub flush : Elasticsearch × S → Elasticsearch × S
  unfolding flushed index_all
  flush (es, s) =
      let (es', s') = index_all (flushed es.buffer) (es, s) in (record es' { buffer = [] }, s')

  -- A worker takes the next batch off the channel and calls Index.
  unfoldable pub work : Elasticsearch × S → Elasticsearch × S
  unfolding index_batch conclude
  work (es, s) = elim (es.dump) [
    | [] ↦ (es, s)
    | batch ∷ rest ↦
        let (s', failure) = index_batch es.configuration batch s in
        (conclude batch failure (record es { dump = rest }), s')
  ]
