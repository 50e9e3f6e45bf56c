-- ===== src/Sensubility/Message.antt =====
-- plugins/handler/sensubility-metrics/pkg/sensu/sensu.go: the messages and what is missing in them.
use Prim.Native.String.{◌++◌}
use sg_core.Prelude.{
  ℕ, ◌+◌, Bool, true, false, String, str_eq, List, [], ◌∷◌, ℤ, if◌then◌else◌, join, decimal,
}

pub record Labels : Type 0 where
  pub client : String
  pub check : String
  pub severity : String

pub record Annotations (F : Type 0) : Type 0 where
  pub command : String
  pub issued : ℤ
  pub executed : ℤ
  pub duration : F
  pub output : String
  pub status : ℤ
  pub starts_at : String

pub record Message (F : Type 0) : Type 0 where
  pub labels : Labels
  pub annotations : Annotations F
  pub starts_at : String

-- An element of HealthCheckOutput.
pub record HealthCheck (F : Type 0) : Type 0 where
  pub service : String
  pub container : String
  pub status : String
  pub healthy : F

-- ErrMissingFields is the list of its fields; `add_missing_field` appends one.
unfoldable pub add_missing_field : String → List String → List String
add_missing_field f [] = f ∷ []
add_missing_field f (g ∷ gs) = g ∷ add_missing_field f gs

unfoldable pub missing_error : List String → String
missing_error fields = "missing fields in received data (" ++ (join ", " fields ++ ")")

module _ {F : Type 0} where
  unfoldable pub is_msg_valid : Message F → Bool
  is_msg_valid msg =
      if str_eq msg.starts_at "" then false else if str_eq msg.labels.client "" then false else true

  unfoldable pub is_output_valid : List (HealthCheck F) → Bool
  is_output_valid [] = true
  is_output_valid (out ∷ outs) =
      let rest = is_output_valid outs in if str_eq out.service "" then false else rest

  unfoldable pub build_msg_err : Message F → List String
  unfolding add_missing_field
  build_msg_err msg =
      let first : List String =
        if str_eq msg.starts_at "" then add_missing_field "startsAt" [] else [] in
      if str_eq msg.labels.client "" then add_missing_field "labels.client" first else first

  -- The loop of BuildOutputsErr, from an index on.
  unfoldable pub outputs_loop : ℕ → List (HealthCheck F) → List String → List String
  outputs_loop i [] err = err
  outputs_loop i (out ∷ outs) err = outputs_loop (i + 1) outs (
      if str_eq out.service ""
      then add_missing_field ("annotations.output[" ++ (decimal i ++ "].service")) err
      else err)

  unfoldable pub build_outputs_err : List (HealthCheck F) → List String
  unfolding outputs_loop
  build_outputs_err outputs = outputs_loop 0 outputs []
