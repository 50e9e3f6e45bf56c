-- ===== src/Events/Names.antt =====
-- The names that buildName of plugins/handler/events/ceilometer/ceilometer.go makes.
use Prim.Native.String.{◌++◌}
use text.Mathlib.Text.{starts_with}
use text.Mathlib.TextPositions.{starts_with-append}
use sg_core.Prelude.{
  ◌≡◌, true, String, str_eq, if◌then◌else◌, split, join, init, replace_all, length, ltb, Bool-cases,
  inl, inr,
}
use sg_core.Events.Ceilometer.{Packages, OsloMessage, OsloPayload, build_name, event_name}

with_prefix :
    (s : String)
    → starts_with (if starts_with s "ceilometer_" then s else "ceilometer_" ++ s) "ceilometer_"
      ≡ true
with_prefix s = elim (Bool-cases (starts_with s "ceilometer_")) [
  | inl h ↦ rw h h
  | inr h ↦ rw h (starts_with-append "ceilometer_" s)
]

build_name-starts_with : (s : String) → starts_with (build_name s) "ceilometer_" ≡ true
unfolding build_name
build_name-starts_with s = with_prefix (
    replace_all b'-' "_"
      (if ltb 1 (length (split b'.' s)) then join "_" (init (split b'.' s)) else s))

-- The index of an event of ceilometer starts with "ceilometer_", whatever types the payload and the
-- message have, or if they have none.
pub event_name-starts_with :
    {F : Type 0} (p : Packages F) (om : OsloMessage F) (op : OsloPayload F)
    → starts_with (event_name p om op) "ceilometer_" ≡ true
unfolding event_name
event_name-starts_with p om op = elim (Bool-cases (str_eq op.event_type "")) [
  | inl none_here ↦ elim (Bool-cases (str_eq om.event_type "")) [
    | inl none_there ↦ rw none_here (rw none_there (build_name-starts_with _))
    | inr there ↦ rw none_here (rw there (build_name-starts_with _))
  ]
  | inr here ↦ rw here (build_name-starts_with _)
]
