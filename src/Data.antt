-- ===== src/Data.antt =====
-- pkg/data/data.go: the metrics and events on the buses. A float64 is a value of the type `F`; what
-- the code does with such values is given by arguments where it does it.
use sg_core.Prelude.{
  ℕ, Bool, String, List, [], ◌∷◌, Dict, Option, none, some, ℤ, get_elem?, ◌≡◌, arith,
}

pub data MetricType : Type 0 where
  untyped counter gauge : MetricType

pub data EventType : Type 0 where
  error event log result task : EventType

pub data EventSeverity : Type 0 where
  unknown debug info warning critical : EventSeverity

-- The iota of each constant.
unfoldable pub metric_type_index : MetricType → ℕ
metric_type_index untyped = 0
metric_type_index counter = 1
metric_type_index gauge = 2

unfoldable pub event_type_index : EventType → ℕ
event_type_index error = 0
event_type_index event = 1
event_type_index log = 2
event_type_index result = 3
event_type_index task = 4

unfoldable pub severity_index : EventSeverity → ℕ
severity_index unknown = 0
severity_index debug = 1
severity_index info = 2
severity_index warning = 3
severity_index critical = 4

-- The String methods index a table; `none` is an index out of range.
unfoldable pub metric_type_string : MetricType → Option String
unfolding metric_type_index
metric_type_string mt = get_elem? ("untyped" ∷ "counter" ∷ "gauge" ∷ []) (metric_type_index mt)

unfoldable pub event_type_string : EventType → Option String
unfolding event_type_index
event_type_string et =
    get_elem? ("error" ∷ "event" ∷ "log" ∷ "result" ∷ "task" ∷ []) (event_type_index et)

unfoldable pub severity_string : EventSeverity → Option String
unfolding severity_index
severity_string es =
    get_elem? ("unknown" ∷ "debug" ∷ "info" ∷ "warning" ∷ "critical" ∷ []) (severity_index es)

-- A value of interface{} as JSON decoding makes it.
mutual
  pub data Value (F : Type 0) : Type 0 where
    null : Value F
    bool : Bool → Value F
    num : F → Value F
    str : String → Value F
    arr : Values F → Value F
    obj : Fields F → Value F

  pub data Values (F : Type 0) : Type 0 where
    nil : Values F
    cons : Value F → Values F → Values F

  pub data Fields (F : Type 0) : Type 0 where
    end : Fields F
    field : String → Value F → Fields F → Fields F

-- The assertion v.(string) with its test, for a value that may be missing.
unfoldable pub as_text : {F : Type 0} → Option (Value F) → Option String
as_text (some (str s)) = some s
as_text v = none

-- A text that the assertion found is the value.
pub as_text-str :
    {F : Type 0} (v : Option (Value F)) (s : String) → as_text v ≡ some s → v ≡ some (str s)
unfolding as_text
as_text-str (some (str t)) s h = grind (arith, h)
as_text-str (some null) s h = grind (arith, h)
as_text-str (some (bool b)) s h = grind (arith, h)
as_text-str (some (num n)) s h = grind (arith, h)
as_text-str (some (arr a)) s h = grind (arith, h)
as_text-str (some (obj o)) s h = grind (arith, h)
as_text-str none s h = grind (arith, h)

pub record Metric (F : Type 0) : Type 0 where
  pub name : String
  pub time : F
  pub type : MetricType
  pub interval : ℤ
  pub value : F
  pub label_keys : List String
  pub label_vals : List String

pub record Event (F : Type 0) : Type 0 where
  pub index : String
  pub time : F
  pub type : EventType
  pub publisher : String
  pub severity : EventSeverity
  pub labels : Dict (Value F)
  pub annotations : Dict (Value F)
  pub message : String
