-- ===== src/Config/Fields.antt =====
-- Which configurations ParseConfig accepts, and how it names the fields of those that it does not.
use Prim.Native.String.{String, ◌++◌}
use sg_core.Prelude.{
  ◌≡◌, ◌↔◌, refl, sym, ap, ◌∙◌, arith, Bool, true, false, ◌&&◌, not, str_eq, List, [], ◌∷◌, map,
  Option, none, some, join, lower, all_lack, split-join, ◌⊎◌, inl, inr, Bool-cases, Option-cases,
  subst, All, Outcome, returns, panics, ◌>>=◌,
}
use sg_core.Config.Parse.{
  Packages, validation_errors, camel_item, camel_items, join_tail, set_camel_case, missing_fields,
  validation_error, check_config, parse_text, parse_config,
}

-- A text with its first letter in lower case.
abbrev pub lower_first : String → String
lower_first String.[] = ""
lower_first (String.◌∷◌ c s) = String.◌∷◌ (lower c) s

abbrev pub all_full : List String → Bool
all_full [] = true
all_full (s ∷ ss) = not (str_eq s "") && all_full ss

-- The name of a type and those of fields, each in the one before it.
abbrev pub Namespace : Type 0
Namespace = String × List String

abbrev pub namespace : Namespace → String
namespace (type, fields) = join "." (type ∷ fields)

abbrev pub lowered : Namespace → String
lowered (type, fields) = join "." (map lower_first fields)

abbrev pub IsNamespace : Namespace → Type 0
IsNamespace (type, fields) =
    (all_lack b'.' (type ∷ fields) ≡ true) × (all_full (type ∷ fields) ≡ true)

camel_items-lower_first :
    (items : List String)
    → all_full items ≡ true
    → camel_items items ≡ returns (map lower_first items)
unfolding camel_items camel_item
camel_items-lower_first [] h = refl
camel_items-lower_first (String.[] ∷ items) h = cc
camel_items-lower_first (String.◌∷◌ c s ∷ items) h =
    rw (camel_items-lower_first items (ground (arith, h))) refl

set_camel_case-lowered :
    (n : Namespace) → IsNamespace n → set_camel_case (namespace n) ≡ returns (lowered n)
unfolding set_camel_case join_tail
set_camel_case-lowered (type, fields) h =
    rw (split-join "." type fields h.0) (rw (camel_items-lower_first (type ∷ fields) h.1) refl)

missing_fields-lowered :
    (ns : List Namespace)
    → All IsNamespace ns
    → missing_fields (map namespace ns) ≡ returns (map lowered ns)
unfolding missing_fields
missing_fields-lowered [] h = refl
missing_fields-lowered (n ∷ ns) h =
    rw (set_camel_case-lowered n h.0) (rw (missing_fields-lowered ns h.1) refl)

failed :
    {C : Type 0} (o : Outcome String) (c c' : C)
    → (let refused : String → Outcome (C × Option String) = λ err. returns (c, some err) in
        o >>= refused)
      ≡ returns (c', none)
    → ⊥
failed (returns err) c c' h = cc
failed panics c c' h = cc

module _ {C : Type 0} (p : Packages C) where
  -- A text but "null" that is decoded to a configuration which lacks some fields is refused with an error
  -- that names each of them, without its type and with small first letters, if the parts of their names
  -- are not empty and have no dots; what was decoded is kept.
  pub parse_config-fields :
      (text : String) (config : C) (ns : List Namespace)
      → str_eq text "null\n" ≡ false
      → (p.unmarshal text config).1 ≡ none
      → p.validate (p.unmarshal text config).0 ≡ some (validation_errors (map namespace ns))
      → All IsNamespace ns
      → parse_config p (inr text) config
        ≡ returns (
          (p.unmarshal text config).0,
          some (
              "missing or incorrect configuration fields --  "
              ++ (join " , " (map lowered ns) ++ " --")),
        )
  unfolding parse_config parse_text check_config validation_error
  parse_config-fields text config ns h k e n =
      rw h (rw k (rw (e, check_config) (rw (missing_fields-lowered ns n) refl)))

  -- What it takes to turn one configuration into another.
  abbrev pub Accepts : String → C → C → Type 0
  Accepts text c c' =
      ((str_eq text "null\n" ≡ true) × (c ≡ c'))
      ⊎ ((str_eq text "null\n" ≡ false)
          × (p.unmarshal text c ≡ (c', none))
          × (p.validate c' ≡ none))

  check_config_accepted :
      (c c' : C) → check_config p c ≡ returns (c', none) → (c ≡ c') × (p.validate c' ≡ none)
  unfolding check_config
  check_config_accepted c c' h = elim (Option-cases (p.validate c)) [
    | inl e ↦
        let same : c ≡ c' = cc (rw (e, check_config) at h) in (same, ap p.validate (sym same) ∙ e)
    | inr (invalid, e) ↦ absurd (failed (validation_error invalid) c c' (rw (e, check_config) at h))
  ]

  accepted :
      (text : String) (c c' : C) → parse_text p text c ≡ returns (c', none) → Accepts text c c'
  unfolding parse_text
  accepted text c c' h = elim (Bool-cases (str_eq text "null\n")) [
    | inl e ↦ inl (e, cc (rw e at h))
    | inr e ↦ elim (Option-cases (p.unmarshal text c).1) [
      | inl k ↦
          let v = check_config_accepted (p.unmarshal text c).0 c' (rw k at (rw e at h)) in
          inr (e, (λ i. (v.0 i, k i)), v.1)
      | inr (err, k) ↦ cc (rw k at (rw e at h))
    ]
  ]

  parse_text-Accepts :
      (text : String) (c c' : C) → Accepts text c c' → parse_text p text c ≡ returns (c', none)
  unfolding parse_text check_config
  parse_text-Accepts text c c' (inl (e, same)) = rw e (ap (λ d. returns (d, none)) same)
  parse_text-Accepts text c c' (inr (e, u, v)) =
      rw e
        (rw (ap (λ r. r.1) u) (ap (check_config p) (ap (λ r. r.0) u) ∙ rw (check_config, v) refl))

  -- ParseConfig returns a configuration without an error exactly if its input could be read, and is either
  -- the text "null" with a line feed, which leaves the configuration as it was, valid or not, or a text that is decoded
  -- to this configuration, which is valid.
  pub parse_config_iff :
      (read : String ⊎ String) (c c' : C)
      → (parse_config p read c ≡ returns (c', none))
        ↔ ((text : String) × (read ≡ inr text) × Accepts text c c')
  unfolding parse_config
  parse_config_iff (inl err) c c' = (λ h. cc, λ h. cc)
  parse_config_iff (inr text) c c' = (
    λ h. (text, refl, accepted text c c' h),
    λ h. parse_text-Accepts text c c' (subst (λ t. Accepts t c c') (cc (h.1)) h.2),
  )
