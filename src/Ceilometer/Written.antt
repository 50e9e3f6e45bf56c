-- ===== src/Ceilometer/Written.antt =====
-- genLabels of plugins/handler/ceilometer-metrics/main.go as a whole, with the labels listed apart from
-- the arrays.
use sg_core.Prelude.{
  ℕ, suc, ◌+◌, ◌≡◌, refl, sym, ap, ◌∙◌, arith, String, List, [], ◌∷◌, ◌++◌, map, append_assoc,
  append-nil, length, take, Dict, returns,
}
use sg_core.Ceilometer.Message.{CeilometerMetric}
use sg_core.Ceilometer.Labels.{blanks, Slots, plugin_value, type_value, gen_labels}
use sg_core.Ceilometer.Filled.{
  filled, take-append, label_if, resource_name, Fits, put-Fits, put_if-Fits, name_steps-Fits,
  put_all-Fits,
}

abbrev concat : List (Dict String) → Dict String
concat [] = []
concat (p ∷ ps) = p ++ concat ps

abbrev append_pieces : Dict String → List (Dict String) → Dict String
append_pieces done [] = done
append_pieces done (p ∷ ps) = append_pieces (done ++ p) ps

append_pieces-concat :
    (done : Dict String) (ps : List (Dict String)) → append_pieces done ps ≡ done ++ concat ps
append_pieces-concat done [] = sym (append-nil done)
append_pieces-concat done (p ∷ ps) =
    append_pieces-concat (done ++ p) ps ∙ append_assoc done p (concat ps)

abbrev pub second_or : String → List String → String
second_or s [] = s
second_or s (t ∷ rest) = t

type_value-second_or :
    (s : String) (parts : List String) → type_value (s ∷ parts) ≡ returns (second_or s parts)
unfolding type_value
type_value-second_or s [] = refl
type_value-second_or s (t ∷ parts) = grind arith

-- What is read of the arrays in the end.
abbrev read : Slots → List String × List String
read s = (take s.slot s.keys, take s.slot s.vals)

take-filled :
    (done : Dict String) (room : ℕ)
    → read (filled done room) ≡ (map (λ l. l.0) done, map (λ l. l.1) done)
take-filled done room =
    rw (take-append (λ l. l.0) done (blanks room))
      (rw (take-append (λ l. l.1) done (blanks room)) refl)

module _ {F : Type 0} where
  -- The labels of a metric whose name has the parts `plugin` and `parts`, field by field.
  abbrev pieces : CeilometerMetric F → String → String → String → List String → List (Dict String)
  pieces m publisher plugin ctype shards =
      let meta = m.resource_metadata in
      ((plugin, plugin_value m.resource_id shards) ∷ [])
      ∷ (("publisher", publisher) ∷ [])
      ∷ (("type", ctype) ∷ [])
      ∷ label_if "counter" m.counter_name
      ∷ label_if "project" m.project_id
      ∷ label_if "project_name" m.project_name
      ∷ label_if "user" m.user_id
      ∷ label_if "user_name" m.user_name
      ∷ label_if "unit" m.counter_unit
      ∷ label_if "resource" m.resource_id
      ∷ label_if "vm_instance" meta.host
      ∷ resource_name meta.display_name meta.name
      ∷ []

  abbrev pub labels : CeilometerMetric F → String → String → List String → Dict String
  labels m publisher plugin parts =
      concat (pieces m publisher plugin (second_or plugin parts) (plugin ∷ parts))
      ++ m.resource_metadata.user_metadata

  -- genLabels writes within its arrays, whatever fields a metric has: it returns the keys and the values
  -- of the same labels, those of the fields that are not empty, in order, with nothing unused.
  pub gen_labels-labels :
      (m : CeilometerMetric F) (publisher plugin : String) (parts : List String)
      → gen_labels m publisher (plugin ∷ parts)
        ≡ returns (
          map (λ l. l.0) (labels m publisher plugin parts),
          map (λ l. l.1) (labels m publisher plugin parts),
        )
  unfolding gen_labels
  gen_labels-labels m publisher plugin parts =
      let meta = m.resource_metadata in
      let users = meta.user_metadata in
      let start : Fits
          (suc (suc (suc (suc (suc (suc (suc (suc (suc (suc (suc (suc (length users))))))))))))) []
          (returns (filled [] (12 + length users))) =
        record { room = 12 + length users; result = refl; enough = omega arith } in
      let named = put-Fits "type" (second_or plugin parts) (
        put-Fits "publisher" publisher
          (put-Fits plugin (plugin_value m.resource_id (plugin ∷ parts)) start)) in
      let fields = put_if-Fits "vm_instance" meta.host (
        put_if-Fits "resource" m.resource_id (
          put_if-Fits "unit" m.counter_unit (
            put_if-Fits "user_name" m.user_name (
              put_if-Fits "user" m.user_id (
                put_if-Fits "project_name" m.project_name (
                  put_if-Fits "project" m.project_id
                    (put_if-Fits "counter" m.counter_name named))))))) in
      let done = name_steps-Fits meta.display_name meta.name fields in
      let written =
        append_pieces [] (pieces m publisher plugin (second_or plugin parts) (plugin ∷ parts)) in
      let all = put_all-Fits users written done.room done.enough in
      rw (type_value-second_or plugin parts) (
        rw done.result (
          rw all.1 (
            rw (take-filled (written ++ users) all.0) (
              ap (λ ls. returns (map (λ l. l.0) (ls ++ users), map (λ l. l.1) (ls ++ users)))
                (append_pieces-concat []
                  (pieces m publisher plugin (second_or plugin parts) (plugin ∷ parts)))))))
