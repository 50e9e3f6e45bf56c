-- ===== src/Events/Traits.antt =====
-- What PublishEvents of plugins/handler/events/ceilometer/ceilometer.go makes of the traits of events.
use sg_core.Prelude.{
  ◌≡◌, refl, sym, ap, ◌∙◌, true, false, String, List, [], ◌∷◌, ◌++◌, append-nil, append_assoc, map,
  none, some, Dict, insert, All, returns, panics, inl, inr,
}
use sg_core.Data.{Event, Value, num, str, arr, nil, cons}
use sg_core.Handler.{Published, publish_event}
use sg_core.Events.Ceilometer.{
  Packages, OsloPayload, OsloMessage, trait_entry, typed_trait, format_trait, traits_loop,
  traits_formatted, payload_event, publish_events,
}

-- A trait in the form that the code expects, and as a value.
pub data Trait (F : Type 0) : Type 0 where
  textual : String → F → String → Trait F
  numeric : String → F → F → Trait F

module _ {F : Type 0} where
  abbrev pub as_value : Trait F → Value F
  as_value (textual k t s) = arr (cons (str k) (cons (num t) (cons (str s) nil)))
  as_value (numeric k t n) = arr (cons (str k) (cons (num t) (cons (num n) nil)))

  abbrev pub add_trait : Trait F → Dict (Value F) → Dict (Value F)
  add_trait (textual k t s) m = insert k (str s) m
  add_trait (numeric k t n) m = insert k (num n) m

  abbrev pub add_traits : List (Trait F) → Dict (Value F) → Dict (Value F)
  add_traits [] m = m
  add_traits (t ∷ ts) m = add_traits ts (add_trait t m)

  -- A payload with such traits.
  abbrev pub with_traits : OsloPayload F × List (Trait F) → OsloPayload F
  with_traits (op, ts) = record op { traits = map as_value ts }

module _ {F : Type 0} (p : Packages F) where
  -- A number has the type 2 and a text another.
  abbrev pub IsTyped : Trait F → Type 0
  IsTyped (textual k t s) = p.is_two t ≡ false
  IsTyped (numeric k t n) = p.is_two t ≡ true

  traits_loop-append :
      (ts : List (Trait F)) (rest : List (Value F)) (m : Dict (Value F))
      → All IsTyped ts
      → traits_loop p (map as_value ts ++ rest) m ≡ traits_loop p rest (add_traits ts m)
  unfolding traits_loop format_trait typed_trait trait_entry
  traits_loop-append [] rest m h = refl
  traits_loop-append (textual k t s ∷ ts) rest m h =
      rw h.0 (traits_loop-append ts rest (insert k (str s) m) h.1)
  traits_loop-append (numeric k t n ∷ ts) rest m h =
      rw h.0 (traits_loop-append ts rest (insert k (num n) m) h.1)

  traits_formatted-typed :
      (op : OsloPayload F) (ts : List (Trait F))
      → All IsTyped ts
      → traits_formatted p (with_traits (op, ts)) ≡ returns (inr (add_traits ts []))
  unfolding traits_formatted traits_loop
  traits_formatted-typed op ts h =
      ap (λ l. traits_loop p l []) (sym (append-nil (map as_value ts)))
      ∙ traits_loop-append ts [] [] h

  abbrev pub TypedPayload : OsloPayload F × List (Trait F) → Type 0
  TypedPayload (op, ts) = All IsTyped ts

  -- The event of a payload with such traits.
  abbrev pub typed_event : OsloMessage F → OsloPayload F × List (Trait F) → Event F
  typed_event om (op, ts) = payload_event p om (with_traits (op, ts)) (add_traits ts [])

  abbrev pub with_events : List (Event F) → Published F → Published F
  with_events es out = record out { events = out.events ++ es }

  -- Payloads whose traits are typed are published one after another, whatever follows.
  publish_events-append :
      (om : OsloMessage F) (ops : List (OsloPayload F × List (Trait F)))
      (rest : List (OsloPayload F)) (out : Published F)
      → All TypedPayload ops
      → publish_events p om (map with_traits ops ++ rest) out
        ≡ publish_events p om rest (with_events (map (typed_event om) ops) out)
  unfolding publish_events publish_event
  publish_events-append om [] rest out h = rw (append-nil out.events) refl
  publish_events-append om ((op, ts) ∷ ops) rest out h = rw (traits_formatted-typed op ts h.0) (
      publish_events-append om ops rest (with_events (typed_event om (op, ts) ∷ []) out) h.1
      ∙ ap (λ l. publish_events p om rest (record out { events = l }))
          (append_assoc out.events (typed_event om (op, ts) ∷ []) (map (typed_event om) ops)))

  -- A message all of whose traits are triples of a name, a type and a value of that type is published
  -- whole, without an error: one event for each payload, in order, labelled with all its traits.
  pub publish_events-All :
      (om : OsloMessage F) (ops : List (OsloPayload F × List (Trait F))) (out : Published F)
      → All TypedPayload ops
      → publish_events p om (map with_traits ops) out
        ≡ returns (with_events (map (typed_event om) ops) out, none)
  unfolding publish_events
  publish_events-All om ops out h =
      ap (λ l. publish_events p om l out) (sym (append-nil (map with_traits ops)))
      ∙ publish_events-append om ops [] out h

  -- The first payload with a trait that is not such a triple ends the message with an error: the events of
  -- the payloads before it stay published, and those behind it are lost.
  pub publish_events-stops :
      (om : OsloMessage F) (ops : List (OsloPayload F × List (Trait F))) (op : OsloPayload F)
      (ts : List (Trait F)) (bad : Value F) (more : List (Value F)) (rest : List (OsloPayload F))
      (err : String) (out : Published F)
      → All TypedPayload ops
      → All IsTyped ts
      → format_trait p bad ≡ returns (inl err)
      → publish_events p om
          (map with_traits ops ++ record op { traits = map as_value ts ++ bad ∷ more } ∷ rest)
          out
        ≡ returns (with_events (map (typed_event om) ops) out, some err)
  unfolding publish_events traits_formatted traits_loop
  publish_events-stops om ops op ts bad more rest err out h k e =
      publish_events-append om ops (record op { traits = map as_value ts ++ bad ∷ more } ∷ rest) out
        h
      ∙ (rw (traits_loop-append ts (bad ∷ more) [] k) (rw e refl))

  -- A trait with a number whose type is not 2, such as a float of ceilometer (its type is 3), makes the
  -- handler panic, wherever it stands behind traits and payloads that are in order.
  pub publish_events-panics :
      (om : OsloMessage F) (ops : List (OsloPayload F × List (Trait F))) (op : OsloPayload F)
      (ts : List (Trait F)) (k : String) (t n : F) (more : List (Value F))
      (rest : List (OsloPayload F)) (out : Published F)
      → All TypedPayload ops
      → All IsTyped ts
      → p.is_two t ≡ false
      → publish_events p om
          (map with_traits ops
            ++ record op { traits = map as_value ts ++ as_value (numeric k t n) ∷ more } ∷ rest)
          out
        ≡ panics
  unfolding publish_events traits_formatted traits_loop format_trait typed_trait trait_entry
  publish_events-panics om ops op ts k t n more rest out h typed e =
      publish_events-append om ops
        (record op { traits = map as_value ts ++ as_value (numeric k t n) ∷ more } ∷ rest) out h
      ∙ (rw (traits_loop-append ts (as_value (numeric k t n) ∷ more) [] typed) (rw e refl))
