-- ===== src/Events/Handled.antt =====
-- What Handle of plugins/handler/events/main.go does with a message of each source.
use sg_core.Prelude.{
  ℕ, ◌≡◌, refl, ap, ◌∙◌, arith, Bool, false, ◌&&◌, String, str_eq, Option, none, some, Dict, lookup,
  lookup-insert, if◌then◌else◌, Outcome, returns, panics, ◌>>=◌, inc64,
}
use sg_core.Events.Source.{source_string, recognize_collectd, recognize_ceilometer}
use sg_core.Events.Recognized.{source_name, set_from_message-source_string}
use sg_core.Events.Dispatch.{
  Run, EventsHandler, Packages, source_of, count_event, call_handler, finish, handle_as, handle,
}

-- Go's uint64 value of a key, 0 if there is none.
abbrev pub count_of : Option ℕ → ℕ
count_of none = 0
count_of (some n) = n

count_event-lookup :
    (name key : String) (received : Dict ℕ)
    → lookup key (count_event name received) ≡ (
        if str_eq name key
        then some (inc64 (count_of (lookup name received)))
        else lookup key received)
unfolding count_event
count_event-lookup name key received = found (lookup name received) refl
  where
    found :
        (o : Option ℕ)
        → lookup name received ≡ o
        → lookup key (count_event name received) ≡ (
            if str_eq name key
            then some (inc64 (count_of (lookup name received)))
            else lookup key received)
    found none e = rw (count_event, e) (lookup-insert name key (inc64 0) received)
    found (some n) e = rw (count_event, e) (lookup-insert name key (inc64 n) received)

module _ {F : Type 0} (p : Packages F) where
  source_of-source_string :
      (msg : String)
      → (recognize_collectd p.patterns msg && recognize_ceilometer p.patterns msg) ≡ false
      → source_string (source_of p.patterns p.collectd_first "" msg)
        ≡ returns (source_name p.patterns msg)
  unfolding source_of
  source_of-source_string msg h = set_from_message-source_string p.patterns p.collectd_first msg 0 h

  -- A message that no recognizer knows makes the handler panic, if no strict source is set: its source is
  -- "generic", for which there is no handler.
  pub handle-unrecognized :
      (fuel : ℕ) (msg : String) (report : Bool) (eh : EventsHandler F)
      → eh.strict_source ≡ some ""
      → recognize_collectd p.patterns msg ≡ false
      → recognize_ceilometer p.patterns msg ≡ false
      → handle p fuel msg report eh ≡ some panics
  unfolding handle handle_as call_handler
  handle-unrecognized fuel msg report eh loose no_collectd no_ceilometer =
      rw (handle, loose)
        (rw (source_of-source_string msg (rw no_collectd refl))
          (rw no_collectd (rw no_ceilometer refl)))

  finished_received :
      (msg : String) (report : Bool) (counted : EventsHandler F) (run : Run F)
      (r : EventsHandler F × Option String)
      → (elim run as (λ k. Option (Outcome (EventsHandler F × Option String))) [
        | none ↦ none
        | some o ↦ some (o >>= λ done. returns (finish p msg report counted done))
      ])
        ≡ some (returns r)
      → r.0.events_received ≡ counted.events_received
  unfolding finish
  finished_received msg report counted none r h = cc
  finished_received msg report counted (some panics) r h = cc
  finished_received msg report counted (some (returns (out, none))) r h = ground arith
  finished_received msg report counted (some (returns (out, some err))) r h = ground arith

  -- A message that is handled, with an error or without, is counted once for its source, and no other
  -- counter changes.
  pub handle-counted :
      (fuel : ℕ) (msg : String) (report : Bool) (eh : EventsHandler F) (strict name : String)
      (r : EventsHandler F × Option String)
      → eh.strict_source ≡ some strict
      → source_string (source_of p.patterns p.collectd_first strict msg) ≡ returns name
      → handle p fuel msg report eh ≡ some (returns r)
      → (key : String)
      → lookup key r.0.events_received ≡ (
          if str_eq name key
          then some (inc64 (count_of (lookup name eh.events_received)))
          else lookup key eh.events_received)
  unfolding handle handle_as
  handle-counted fuel msg report eh strict name r configured source ended key =
      let run = rw (handle, configured) at ended in
      let named = rw source at run in
      ap (lookup key) (
        finished_received msg report
          (record eh { events_received = count_event name eh.events_received })
          (call_handler p fuel name msg eh.out) r named)
      ∙ count_event-lookup name key eh.events_received
