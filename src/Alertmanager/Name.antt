-- ===== src/Alertmanager/Name.antt =====
-- SetName of plugins/application/alertmanager/pkg/lib/alert.go.
use Prim.Native.String.{String}
use mathlib.Core.HLevel.{hedberg}
use mathlib.Core.Quot
use mathlib.Core.Quot.{Quot}
use sg_core.Prelude.{
  ◌≡◌, refl, sym, ap, ◌∙◌, arith, Bool, true, false, str_eq, eq_iff, List, [], ◌∷◌, Option, none,
  some, Dict, lookup, insert, keys, contains-keys, Distinct, join, sort, sort_same, is_some,
  if◌then◌else◌, Outcome, returns, panics, lookup-insert, Bool-cases, inl, inr, Option-cases,
}
use sg_core.Alertmanager.Alert.{PrometheusAlert}

-- alert.Labels[key]; a label that is not there is empty.
abbrev pub label : Option String → String
label none = ""
label (some val) = val

-- The loop over the sorted keys.
unfoldable pub name_values : Dict String → List String → List String
unfolding lookup
name_values labels [] = []
name_values labels (key ∷ keys') =
    let rest = name_values labels keys' in
    if str_eq key "severity" then rest else label (lookup key labels) ∷ rest

unfoldable pub generated_name : Dict String → String
unfolding name_values
generated_name labels = join "_" (name_values labels (sort (keys labels)))

-- An array of a capacity of len(alert.Labels)-1 cannot be made if there are no labels.
unfoldable pub name_alert : Dict String → PrometheusAlert → Outcome PrometheusAlert
unfolding generated_name insert
name_alert [] alert = panics
name_alert (label ∷ labels) alert =
    returns (record alert { labels = insert "name" (generated_name alert.labels) alert.labels })

unfoldable pub set_name : PrometheusAlert → Outcome PrometheusAlert
unfolding name_alert
set_name alert = elim (lookup "name" alert.labels) [
  | some val ↦ returns alert
  | none ↦ name_alert alert.labels alert
]

pub text_discrete : Discrete String
text_discrete s t = elim (Bool-cases (str_eq s t)) [
  | inl e ↦ yes ((eq_iff s t).0 e)
  | inr e ↦ no (λ p. cc (e, (eq_iff s t).1 p))
]

-- Labels as Go has them: no key is there twice.
abbrev pub Labels : Type 0
Labels = (l : Dict String) × Distinct (keys l)

-- Labels that differ in the order of their entries alone.
abbrev pub SameLabels : Labels → Labels → Type 0
SameLabels l m = (k : String) → lookup k l.0 ≡ lookup k m.0

abbrev pub LabelSet : Type 0
LabelSet = Quot SameLabels

name_values_same :
    (l m : Dict String)
    → ((k : String) → lookup k l ≡ lookup k m)
    → (ks : List String) → name_values l ks ≡ name_values m ks
unfolding name_values
name_values_same l m h [] = refl
name_values_same l m h (k ∷ ks) = ground (arith, h k, name_values_same l m h ks)

pub generated_name_same : (l m : Labels) → SameLabels l m → generated_name l.0 ≡ generated_name m.0
unfolding generated_name
generated_name_same (l, d) (m, e) h = ap (join "_") (
    name_values_same l m h (sort (keys l))
    ∙ ap (name_values m) (
        sort_same (keys l) (keys m) d e
          (λ k. contains-keys k l ∙ ap is_some (h k) ∙ sym (contains-keys k m))))

-- The name of a set of labels.
unfoldable pub name_of : LabelSet → String
name_of = Quot.lift (hedberg text_discrete) (λ l. generated_name l.0) generated_name_same

abbrev is_empty : Dict String → Bool
is_empty [] = true
is_empty (l ∷ ls) = false

abbrev own_or : String → Option String → String
own_or name none = name
own_or name (some val) = val

-- What SetName makes of an alert, if the name for its labels is `name`.
abbrev pub Named : PrometheusAlert → String → Outcome PrometheusAlert → Type 0
Named alert name panics = is_empty alert.labels ≡ true
Named alert name (returns named) =
    (is_empty alert.labels ≡ false)
    × (named.annotations ≡ alert.annotations)
    × ((k : String)
        → lookup k named.labels ≡ (
            if str_eq "name" k
            then some (own_or name (lookup "name" alert.labels))
            else lookup k alert.labels))

name_alert-Named :
    (alert : PrometheusAlert) (labels : Dict String)
    → lookup "name" alert.labels ≡ none
    → is_empty alert.labels ≡ is_empty labels
    → Named alert (generated_name alert.labels) (name_alert labels alert)
unfolding name_alert
name_alert-Named alert [] absent h = h
name_alert-Named alert (l ∷ ls) absent h =
    (h, refl, λ k. rw absent (lookup-insert "name" k (generated_name alert.labels) alert.labels))

is_empty-lookup : (k v : String) (m : Dict String) → lookup k m ≡ some v → is_empty m ≡ false
unfolding lookup
is_empty-lookup k v [] h = cc
is_empty-lookup k v (e ∷ m) h = refl

kept :
    (k v : String) (m : Dict String)
    → lookup "name" m ≡ some v
    → lookup k m ≡ (if str_eq "name" k then some v else lookup k m)
kept k v m h = elim (Bool-cases (str_eq "name" k)) [
  | inl e ↦ rw e (ap (λ j. lookup j m) (sym ((eq_iff "name" k).0 e)) ∙ h)
  | inr e ↦ rw e refl
]

-- Of labels that have each key once, SetName panics exactly if there are none. Else it changes no annotation and no label but
-- "name", which stays if it is there, and is otherwise a function of the set of the labels: the order in
-- which they come makes no difference.
pub set_name-Named :
    (alert : PrometheusAlert) (d : Distinct (keys alert.labels))
    → Named alert (name_of (Quot.mk (alert.labels, d))) (set_name alert)
unfolding set_name name_of
set_name-Named alert d = elim (Option-cases (lookup "name" alert.labels)) [
  | inl absent ↦ rw (absent, set_name) (name_alert-Named alert alert.labels absent refl)
  | inr (val, there) ↦
      rw (there, set_name)
        (
          is_empty-lookup "name" val alert.labels there,
          refl,
          λ k. rw there (kept k val alert.labels there),
        )
]
