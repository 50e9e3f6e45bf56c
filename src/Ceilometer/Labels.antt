-- ===== src/Ceilometer/Labels.antt =====
-- genName and genLabels of plugins/handler/ceilometer-metrics/main.go: two arrays of fixed size and an
-- index into both.
use Prim.Native.String.{◌++◌}
use sg_core.Prelude.{
  ℕ, zero, suc, ◌+◌, ltb, String, str_eq, List, [], ◌∷◌, if◌then◌else◌, length, take, join, Dict,
  Outcome, returns, panics, ◌>>=◌, index,
}
use sg_core.Ceilometer.Message.{CeilometerMetric}

unfoldable pub gen_name : List String → String
gen_name c_name_shards = join "_" ("ceilometer" ∷ c_name_shards)

-- make([]string, n)
abbrev pub blanks : ℕ → List String
blanks zero = []
blanks (suc n) = "" ∷ blanks n

-- l[i] = s
abbrev pub set_at : List String → ℕ → String → Outcome (List String)
set_at [] i s = panics
set_at (x ∷ xs) zero s = returns (s ∷ xs)
set_at (x ∷ xs) (suc i) s = set_at xs i s >>= (λ ys. returns (x ∷ ys))

pub record Slots : Type 0 where
  pub keys : List String
  pub vals : List String
  pub slot : ℕ

-- The key and the value at the index.
unfoldable pub write : String → String → Slots → Outcome Slots
write key val s =
    set_at s.keys s.slot key
    >>= (λ ks. set_at s.vals s.slot val >>= (λ vs. returns (record s { keys = ks; vals = vs })))

-- index++
abbrev pub next : Slots → Outcome Slots
next s = returns (record s { slot = s.slot + 1 })

unfoldable pub put : String → String → Slots → Outcome Slots
unfolding write
put key val s = write key val s >>= next

unfoldable pub put_if : String → String → Slots → Outcome Slots
unfolding put
put_if key val s = if str_eq val "" then returns s else put key val s

-- The display name is written with the index left where it is.
unfoldable pub write_display_name : String → Slots → Outcome Slots
unfolding write
write_display_name display_name s =
    if str_eq display_name "" then returns s else write "resource_name" display_name s

-- The name joins a display name that is there.
unfoldable pub write_name : String → Slots → Outcome Slots
unfolding write
write_name name s =
    if str_eq name ""
    then returns s
    else index s.vals s.slot
      >>= (λ old. write "resource_name" (if str_eq old "" then name else old ++ (":" ++ name)) s)

-- The index moves on if a name was written.
unfoldable pub close_name : Slots → Outcome Slots
close_name s = index s.vals s.slot >>= (λ val. if str_eq val "" then returns s else next s)

unfoldable pub put_all : Dict String → Slots → Outcome Slots
unfolding put
put_all [] s = returns s
put_all ((key, value) ∷ rest) s = put key value s >>= put_all rest

-- The value of the plugin label and that of the type label.
unfoldable pub plugin_value : String → List String → String
plugin_value resource_id (a ∷ b ∷ c ∷ rest) = c
plugin_value resource_id shards = resource_id

unfoldable pub type_value : List String → Outcome String
type_value shards = if ltb 1 (length shards) then index shards 1 else index shards 0

module _ {F : Type 0} where
  unfoldable pub gen_labels :
      CeilometerMetric F → String → List String → Outcome (List String × List String)
  unfolding put put_if write_display_name write_name close_name put_all plugin_value type_value
  gen_labels m publisher c_name_shards =
      let meta = m.resource_metadata in
      let size = 12 + length meta.user_metadata in
      index c_name_shards 0 >>= (λ plugin. type_value c_name_shards >>= (λ ctype.
        (returns record { keys = blanks size; vals = blanks size; slot = 0 }
          >>= put plugin (plugin_value m.resource_id c_name_shards)
          >>= put "publisher" publisher
          >>= put "type" ctype
          >>= put_if "counter" m.counter_name
          >>= put_if "project" m.project_id
          >>= put_if "project_name" m.project_name
          >>= put_if "user" m.user_id
          >>= put_if "user_name" m.user_name
          >>= put_if "unit" m.counter_unit
          >>= put_if "resource" m.resource_id
          >>= put_if "vm_instance" meta.host
          >>= write_display_name meta.display_name
          >>= write_name meta.name
          >>= close_name
          >>= put_all meta.user_metadata)
        >>= (λ s. returns (take s.slot s.keys, take s.slot s.vals))))
