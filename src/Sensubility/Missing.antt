-- ===== src/Sensubility/Missing.antt =====
-- The checks of plugins/handler/sensubility-metrics/pkg/sensu/sensu.go and the lists of missing fields
-- agree, and what Handle makes of each kind of message.
use Prim.Native.String.{◌++◌ as ◌+++◌}
use sg_core.Prelude.{
  ℕ, ◌+◌, ◌≡◌, refl, sym, ap, ◌∙◌, ◌↔◌, true, String, str_eq, List, [], ◌∷◌, ◌++◌, append-nil,
  append_assoc, arith, inl, inr, if◌then◌else◌, Bool-cases, decimal,
}
use sg_core.Sensubility.Message.{
  HealthCheck, add_missing_field, is_output_valid, outputs_loop, build_outputs_err,
}

add_missing_field-append : (f : String) (fs : List String) → add_missing_field f fs ≡ fs ++ f ∷ []
unfolding add_missing_field
add_missing_field-append f [] = refl
add_missing_field-append f (g ∷ gs) = ap (λ l. g ∷ l) (add_missing_field-append f gs)

module _ {F : Type 0} where
  -- The services that are missing, from an index on.
  abbrev pub missing_services : ℕ → List (HealthCheck F) → List String
  missing_services i [] = []
  missing_services i (out ∷ outs) =
      if str_eq out.service ""
      then ("annotations.output[" +++ (decimal i +++ "].service")) ∷ missing_services (i + 1) outs
      else missing_services (i + 1) outs

  outputs_loop-append :
      (i : ℕ) (outs : List (HealthCheck F)) (err : List String)
      → outputs_loop i outs err ≡ err ++ missing_services i outs
  unfolding outputs_loop
  outputs_loop-append i [] err = sym (append-nil err)
  outputs_loop-append i (out ∷ outs) err = elim (Bool-cases (str_eq out.service "")) [
    | inl h ↦ rw h (
        outputs_loop-append (i + 1) outs
          (add_missing_field ("annotations.output[" +++ (decimal i +++ "].service")) err)
        ∙ ap (λ l. l ++ missing_services (i + 1) outs) (add_missing_field-append _ err)
        ∙ append_assoc err _ _)
    | inr h ↦ rw h (outputs_loop-append (i + 1) outs err)
  ]

  is_output_valid-true :
      (i : ℕ) (outs : List (HealthCheck F))
      → (is_output_valid outs ≡ true → missing_services i outs ≡ [])
        × (missing_services i outs ≡ [] → is_output_valid outs ≡ true)
  unfolding is_output_valid
  is_output_valid-true i [] = (λ h. refl, λ h. refl)
  is_output_valid-true i (out ∷ outs) =
      let rest = is_output_valid-true (i + 1) outs in
      elim (Bool-cases (str_eq out.service "")) [
        | inl h ↦ (λ valid. grind (arith, h, valid), λ none. grind (arith, h, none))
        | inr h ↦ rw h rest
      ]

  -- The outputs of a message are valid exactly if the list of their missing fields is empty.
  pub is_output_valid_iff :
      (outs : List (HealthCheck F)) → (is_output_valid outs ≡ true) ↔ (build_outputs_err outs ≡ [])
  unfolding build_outputs_err
  is_output_valid_iff outs = (
    λ valid. outputs_loop-append 0 outs [] ∙ (is_output_valid-true 0 outs).0 valid,
    λ none. (is_output_valid-true 0 outs).1 (sym (outputs_loop-append 0 outs []) ∙ none),
  )

  -- BuildOutputsErr lists the missing services in order.
  pub build_outputs_err-missing :
      (outs : List (HealthCheck F)) → build_outputs_err outs ≡ missing_services 0 outs
  unfolding build_outputs_err
  build_outputs_err-missing outs = outputs_loop-append 0 outs []
