-- ===== src/Elasticsearch/Interleaved.antt =====
-- ReceiveEvent, the ticks of the flusher and the workers in any order.
use sg_core.Prelude.{
  keys, Distinct-insert, Distinct-remove, ℕ, ◌+◌, ◌≡◌, refl, ap, arith, ◌∙◌, String, List, [], ◌∷◌,
  ◌++◌, Option, none, some, lookup, insert, Distinct, Outcome, returns, ◌>>=◌, Bool-cases, inl, inr,
}
use sg_core.Data.{Event}
use sg_core.Elasticsearch.Documents.{AppConfig, Encoders}
use sg_core.Elasticsearch.Buffer.{
  EsIndex, Elasticsearch, records, is_buffered, is_short, buffer_record, keep, receive_event,
  flushed, conclude, index_batch, index_all, flush, work,
}
use sg_core.Elasticsearch.Client.{Connection}
use sg_core.Elasticsearch.Order.{
  batched, arrived, Ready, made, keep-arrived, document_of-Returns, documents,
}
use sg_core.Elasticsearch.Counted.{flushed-lookup, count, count-append, count-batched}

-- How often a document of an index is in batches for which Index was called, with or without an error.
abbrev pub called : String → String → Elasticsearch → ℕ
called i d es = count d (batched i es.indexed) + count d (batched i es.disregarded)

-- How often a document of an index is there: in such a batch, in a batch that waits, or in the buffer.
abbrev pub stored : String → String → Elasticsearch → ℕ
stored i d es = called i d es + count d (arrived i es)

-- The buffer has an index once, and is empty if it is not used.
abbrev pub Sound : Elasticsearch → Type 0
Sound es = Ready es × Distinct (keys es.buffer)

keep-Distinct :
    (index : String) (doc : Option String) (es : Elasticsearch)
    → Distinct (keys es.buffer)
    → Distinct (keys (keep index doc es).buffer)
unfolding keep buffer_record
keep-Distinct index none es d = d
keep-Distinct index (some doc) es d =
    let rs : List String = records (lookup index es.buffer) ++ doc ∷ [] in
    let inserted = Distinct-insert index rs es.buffer d in
    let removed = Distinct-remove index (insert index rs es.buffer) inserted in
    elim (Bool-cases (is_buffered es.configuration)) [
      | inl buffers ↦ elim (Bool-cases (is_short rs es.configuration)) [
        | inl short ↦ rw (buffer_record, buffers) (rw short inserted)
        | inr full ↦ rw (buffer_record, buffers) (rw full removed)
      ]
      | inr direct ↦ rw (buffer_record, direct) d
    ]

-- The batches for which Index was called.
abbrev SameCalls : Elasticsearch → Elasticsearch → Type 0
SameCalls es es' = (es'.indexed ≡ es.indexed) × (es'.disregarded ≡ es.disregarded)

keep-SameCalls :
    (index : String) (doc : Option String) (es : Elasticsearch) → SameCalls es (keep index doc es)
unfolding keep buffer_record
keep-SameCalls index none es = (refl, refl)
keep-SameCalls index (some doc) es = (ground arith, ground arith)

keep-stored :
    (i d index : String) (doc : Option String) (es : Elasticsearch)
    → Sound es
    → (stored i d (keep index doc es) ≡ stored i d es + count d (made index i doc))
      × Sound (keep index doc es)
keep-stored i d index doc es (ready, distinct) =
    let step = keep-arrived i index doc es ready in
    (
      omega (
        arith,
        ap (λ bs. count d (batched i bs)) (keep-SameCalls index doc es).0,
        ap (λ bs. count d (batched i bs)) (keep-SameCalls index doc es).1,
        ap (count d) step.0,
        count-append d (arrived i es) (made index i doc),
      ),
      (step.1, keep-Distinct index doc es distinct),
    )

conclude-called :
    (i d : String) (batch : EsIndex) (failure : Option String) (es : Elasticsearch)
    → called i d (conclude batch failure es) ≡ called i d es + count d (batched i (batch ∷ []))
unfolding conclude
conclude-called i d batch none es = omega (arith, count-batched i d es.indexed (batch ∷ []))
conclude-called i d batch (some err) es =
    omega (arith, count-batched i d es.disregarded (batch ∷ []))

-- What is as it was before some calls of Index.
abbrev SameRest : Elasticsearch → Elasticsearch → Type 0
SameRest es es' =
    (es'.configuration ≡ es.configuration) × (es'.buffer ≡ es.buffer) × (es'.dump ≡ es.dump)

conclude-SameRest :
    (batch : EsIndex) (failure : Option String) (es : Elasticsearch)
    → SameRest es (conclude batch failure es)
unfolding conclude
conclude-SameRest batch none es = (refl, refl, refl)
conclude-SameRest batch (some err) es = (refl, refl, refl)

conclude-disregarded :
    (batch : EsIndex) (failure : Option String) (es : Elasticsearch)
    → failure ≡ none
    → (conclude batch failure es).disregarded ≡ es.disregarded
unfolding conclude
conclude-disregarded batch none es h = refl
conclude-disregarded batch (some err) es h = cc

conclude-arrived :
    (i : String) (batch : EsIndex) (failure : Option String) (es : Elasticsearch)
    → arrived i (conclude batch failure es) ≡ arrived i es
unfolding conclude
conclude-arrived i batch none es = refl
conclude-arrived i batch (some err) es = refl

conclude-Sound :
    (batch : EsIndex) (failure : Option String) (es : Elasticsearch)
    → Sound es
    → Sound (conclude batch failure es)
unfolding conclude
conclude-Sound batch none es sound = sound
conclude-Sound batch (some err) es sound = sound

module _ {S : Type 0} (client : Connection S) where
  -- Index never returns an error.
  abbrev pub Succeeds : Type 0
  Succeeds =
      (configuration : AppConfig) (batch : EsIndex) (s : S)
      → (index_batch client configuration batch s).1 ≡ none

  record Called (i d : String) (batches : List EsIndex) (es es' : Elasticsearch) : Type 0 where
    counted : called i d es' ≡ called i d es + count d (batched i batches)
    same : SameRest es es'
    spared : Succeeds → es'.disregarded ≡ es.disregarded

  index_all-Called :
      (i d : String) (batches : List EsIndex) (es : Elasticsearch) (s : S)
      → Called i d batches es (index_all client batches (es, s)).0
  unfolding index_all
  index_all-Called i d [] es s = record {
    counted = omega arith;
    same = (refl, refl, refl);
    spared = λ h. refl;
  }
  index_all-Called i d (batch ∷ batches) es s =
      let (s', failure) = index_batch client es.configuration batch s in
      let rest = index_all-Called i d batches (conclude batch failure es) s' in
      let kept = conclude-SameRest batch failure es in
      record {
        counted = omega (
          arith,
          rest.counted,
          conclude-called i d batch failure es,
          count-batched i d (batch ∷ []) batches,
        );
        same = (rest.same.0 ∙ kept.0, rest.same.1 ∙ kept.1, rest.same.2 ∙ kept.2);
        spared =
            λ h. rest.spared h ∙ conclude-disregarded batch failure es (h es.configuration batch s);
      }

  -- What a step other than an event comes to.
  record Kept (i d : String) (es es' : Elasticsearch) : Type 0 where
    total : stored i d es' ≡ stored i d es
    sound : Sound es'
    spared : Succeeds → es'.disregarded ≡ es.disregarded

  flush-Kept :
      (i d : String) (es : Elasticsearch) (s : S) → Sound es → Kept i d es (flush client (es, s)).0
  unfolding flush lookup
  flush-Kept i d es s (ready, distinct) =
      let c = index_all-Called i d (flushed es.buffer) es s in
      record {
        total = omega (
          arith,
          c.counted,
          ap (λ bs. count d (batched i bs)) c.same.2,
          ap (count d) (flushed-lookup i es.buffer distinct),
          count-append d (batched i es.dump) (records (lookup i es.buffer)),
          count-append d (batched i (index_all client (flushed es.buffer) (es, s)).0.dump) [],
        );
        sound = (inr refl, tt);
        spared = c.spared;
      }

  work-Kept :
      (i d : String) (es : Elasticsearch) (s : S) → Sound es → Kept i d es (work client (es, s)).0
  unfolding work
  work-Kept i d es s sound = from es.dump refl
    where
      from : (bs : List EsIndex) → es.dump ≡ bs → Kept i d es (work client (es, s)).0
      from [] e =
          rw (e, work)
            record {
              total =
                  omega
                    (arith, ap (λ bs. count d (batched i bs ++ records (lookup i es.buffer))) e);
              sound = sound;
              spared = λ h. refl;
            }
      from (batch ∷ rest) e =
          let failure = (index_batch client es.configuration batch s).1 in
          let taken : Elasticsearch = record es { dump = rest } in
          rw (e, work)
            record {
              total = omega (
                arith,
                conclude-called i d batch failure taken,
                ap (count d) (conclude-arrived i batch failure taken),
                ap (λ bs. count d (batched i bs ++ records (lookup i es.buffer))) e,
                count-batched i d (batch ∷ []) rest,
                count-append d (batched i rest) (records (lookup i es.buffer)),
                count-append d (batched i (batch ∷ rest)) (records (lookup i es.buffer)),
              );
              sound = conclude-Sound batch failure taken sound;
              spared = λ h. conclude-disregarded batch failure taken (h es.configuration batch s);
            }

-- A step of the application: an event received, a tick of the flusher, a turn of a worker.
pub data Act (F : Type 0) : Type 0 where
  receives : Event F → Act F
  flushes works : Act F

module _ {F : Type 0} where
  abbrev pub received : List (Act F) → List (Event F)
  received [] = []
  received (receives e ∷ acts) = e ∷ received acts
  received (flushes ∷ acts) = received acts
  received (works ∷ acts) = received acts

module _ {F S : Type 0} (enc : Encoders F) (client : Connection S) where
  unfoldable pub act : Act F → Elasticsearch × S → Outcome (Elasticsearch × S)
  act (receives e) (es, s) = receive_event enc e es >>= λ es'. returns (es', s)
  act flushes st = returns (flush client st)
  act works st = returns (work client st)

  unfoldable pub act_all : List (Act F) → Elasticsearch × S → Outcome (Elasticsearch × S)
  unfolding act
  act_all [] st = returns st
  act_all (a ∷ acts) st = act a st >>= act_all acts

  pub record Conserved (i d : String) (acts : List (Act F)) (es : Elasticsearch)
      (r : Outcome (Elasticsearch × S)) : Type 0 where
    pub last : Elasticsearch × S
    pub handled : r ≡ returns last
    pub conserved : stored i d last.0 ≡ stored i d es + count d (documents enc i (received acts))
    pub spared : Succeeds client → last.0.disregarded ≡ es.disregarded

  -- From a buffer that has each index once and is empty if none is used, in any order of events, ticks of
  -- the flusher and turns of the workers nothing panics. A document of an index has been in a batch for
  -- which Index was called, is in a batch that waits or is buffered as often, in all, as it was at first
  -- and as the events of that index then made it: none is passed over and none is handed to Index twice.
  -- The batches for which Index returned an error, whose documents the code drops, are listed apart; where
  -- it returns none there are no more of them than at first.
  pub act_all-Conserved :
      (i d : String) (acts : List (Act F)) (es : Elasticsearch) (s : S)
      → Sound es
      → Conserved i d acts es (act_all acts (es, s))
  unfolding act_all act receive_event
  act_all-Conserved i d [] es s sound = record {
    last = (es, s);
    handled = refl;
    conserved = omega arith;
    spared = λ h. refl;
  }
  act_all-Conserved i d (flushes ∷ acts) es s sound =
      let (es', s') = flush client (es, s) in
      let k = flush-Kept client i d es s sound in
      let rest = act_all-Conserved i d acts es' s' k.sound in
      record {
        last = rest.last;
        handled = rest.handled;
        conserved = omega (arith, rest.conserved, k.total);
        spared = λ h. rest.spared h ∙ k.spared h;
      }
  act_all-Conserved i d (works ∷ acts) es s sound =
      let (es', s') = work client (es, s) in
      let k = work-Kept client i d es s sound in
      let rest = act_all-Conserved i d acts es' s' k.sound in
      record {
        last = rest.last;
        handled = rest.handled;
        conserved = omega (arith, rest.conserved, k.total);
        spared = λ h. rest.spared h ∙ k.spared h;
      }
  act_all-Conserved i d (receives e ∷ acts) es s sound =
      let doc = document_of-Returns enc e.type e in
      let k = keep-stored i d e.index doc.value es sound in
      let rest = act_all-Conserved i d acts (keep e.index doc.value es) s k.1 in
      record {
        last = rest.last;
        handled = rw doc.result rest.handled;
        conserved = rw doc.result (
            omega (
              arith,
              rest.conserved,
              k.0,
              count-append d (made e.index i doc.value) (documents enc i (received acts)),
            ));
        spared = λ h. rest.spared h ∙ (keep-SameCalls e.index doc.value es).1;
      }
