-- ===== src/Alertmanager/Keys.antt =====
-- The values that the keys of SetSummary find, and texts that are not empty.
use Prim.Native.String.{◌++◌, len}
use text.Mathlib.TextPositions.{len-append}
use sg_core.Prelude.{
  ◌≤◌, Bool-cases, ◌≡◌, refl, sym, ap, arith, false, String, str_eq, eq_iff, List, [], ◌∷◌,
  ◌++◌ as ◌+++◌, append-nil, take, Option, none, some, inl, inr, Dict, lookup, join, if◌then◌else◌,
}
use sg_core.Data.{EventSeverity, unknown, debug, info, warning, critical, severity_string}
use sg_core.Alertmanager.Alert.{PrometheusAlert, surrogate_loop}

-- What a key has: the label, or else the annotation.
abbrev pub present : Dict String → Dict String → String → List String
present labels annotations key = elim (lookup key labels) [
  | some val ↦ val ∷ []
  | none ↦ elim (lookup key annotations) [ some val ↦ val ∷ [] | none ↦ [] ]
]

abbrev pub all_present : Dict String → Dict String → List String → List String
all_present labels annotations [] = []
all_present labels annotations (key ∷ keys) =
    present labels annotations key +++ all_present labels annotations keys

-- The first value that the keys have, if there is one.
abbrev pub first_present : Dict String → Dict String → List String → List String
first_present labels annotations keys = take 1 (all_present labels annotations keys)

-- A text that is there and not empty, or else another one.
abbrev pub text_or : Option String → String → String
text_or none other = other
text_or (some s) other = if str_eq s "" then other else s

pub surrogate_loop-first_present :
    (alert : PrometheusAlert) (keys values : List String)
    → surrogate_loop alert keys values
      ≡ values +++ first_present alert.labels alert.annotations keys
unfolding surrogate_loop
surrogate_loop-first_present alert [] values = sym (append-nil values)
surrogate_loop-first_present alert (key ∷ keys) values =
    ground (arith, surrogate_loop-first_present alert keys values)

-- A text that has a length is not empty.
pub len-nonempty : (s : String) → 1 ≤ len s → str_eq s "" ≡ false
len-nonempty s h = elim (Bool-cases (str_eq s "")) [
  | inl e ↦ absurd (omega (arith, h, ap len ((eq_iff s "").0 e)))
  | inr e ↦ e
]

pub join-len :
    (s : String) (front : List String) → 1 ≤ len s → 1 ≤ len (join " " (front +++ s ∷ []))
unfolding join
join-len s [] h = h
join-len s (x ∷ []) h = omega (arith, len-append x (" " ++ s), len-append " " s, h)
join-len s (x ∷ y ∷ front) h = omega (
  arith,
  len-append x (" " ++ join " " (y ∷ front +++ s ∷ [])),
  len-append " " (join " " (y ∷ front +++ s ∷ [])),
  join-len s (y ∷ front) h,
)

pub text_or_nonempty :
    (o : Option String) (other : String)
    → str_eq other "" ≡ false
    → str_eq (text_or o other) "" ≡ false
text_or_nonempty none other h = h
text_or_nonempty (some s) other h = ground (arith, h)

pub severity_named :
    (es : EventSeverity) → (s : String) × (severity_string es ≡ some s) × (1 ≤ len s)
unfolding severity_string
severity_named unknown = ("unknown", refl, omega arith)
severity_named debug = ("debug", refl, omega arith)
severity_named info = ("info", refl, omega arith)
severity_named warning = ("warning", refl, omega arith)
severity_named critical = ("critical", refl, omega arith)
