-- ===== src/Transport.antt =====
-- The modes of pkg/transport/transport.go. A Mode is a number, and the table of `String` has two texts.
use sg_core.Prelude.{
  ℕ, zero, suc, ◌≡◌, refl, subst, String, [], ◌∷◌, none, some, Dict, lookup, to_lower, Outcome,
  returns, index, Option,
}

abbrev pub mode_write : ℕ
mode_write = 0

abbrev pub mode_read : ℕ
mode_read = 1

abbrev pub mod_str : Dict ℕ
mod_str = ("write", mode_write) ∷ ("read", mode_read) ∷ []

-- String: another number is out of the table's range.
unfoldable pub mode_string : ℕ → Outcome String
mode_string m = index ("WRITE" ∷ "READ" ∷ []) m

abbrev found : Option ℕ → ℕ
found none = 0
found (some m) = m

-- FromString: a text that is not in the table is the mode of writing.
unfoldable pub mode_from_string : String → ℕ
unfolding to_lower lookup
mode_from_string s = found (lookup (to_lower s) mod_str)

-- A mode that has a text is read from it.
mode_from_string-mode_string :
    (m : ℕ) (s : String) → mode_string m ≡ returns s → mode_from_string s ≡ m
unfolding mode_string mode_from_string to_lower lookup
mode_from_string-mode_string zero s h =
    let e : ◌≡◌ {A = String} "WRITE" s = cc h in subst (λ t. mode_from_string t ≡ 0) e refl
mode_from_string-mode_string (suc zero) s h =
    let e : ◌≡◌ {A = String} "READ" s = cc h in subst (λ t. mode_from_string t ≡ 1) e refl
mode_from_string-mode_string (suc (suc m)) s h = cc h
