-- ===== src/Events/Time.antt =====
-- EpochFromFormat of plugins/handler/events/pkg/lib/time.go, and of pkg/lib/time.go, which is the same
-- text. time.Parse with the conversion to seconds is an argument.
use sg_core.Prelude.{String, List, [], ◌∷◌, Option, none, some, ℤ, pos}

-- The layouts in the order in which they are tried.
abbrev layouts : List String
layouts =
    "2006-01-02T15:04:05.999999" ∷ "2006-01-02T15:04:05Z07:00"
    ∷ "2006-01-02T15:04:05.999999999Z07:00" ∷ "Mon Jan _2 15:04:05 2006"
    ∷ "2006-01-02 15:04:05.999999" ∷ []

module _ (time_parse : String → String → Option ℤ) where
  unfoldable pub try_layouts : List String → String → ℤ
  try_layouts [] ts = pos 0
  try_layouts (layout ∷ rest) ts =
      let other = try_layouts rest ts in
      elim (time_parse layout ts) [ none ↦ other | some stamp ↦ stamp ]

  unfoldable pub epoch_from_format : String → ℤ
  unfolding try_layouts
  epoch_from_format ts = try_layouts layouts ts
