-- ===== src/Prelude/Split.antt =====
-- Splitting what has been joined, and ASCII letters in lower case.
use Prim.Native.Nat.{ℕ}
use Prim.Native.Char.{Char, code}
use Prim.Native.String.{String, ◌++◌}
use Prim.Native.String.append
use mathlib.Core.Path.{◌≡◌, refl, ap, ◌∙◌}
use mathlib.Core.Bool.{Bool, true, ◌&&◌, not}
use mathlib.Core.List.{List, [], ◌∷◌}
use native.Mathlib.Omega.{arith}
use sg_core.Prelude.Tests.{◌==◌, if◌then◌else◌}
use sg_core.Prelude.Text.{split, join}

-- A text without a character.
abbrev pub lacks : ℕ → String → Bool
lacks separator String.[] = true
lacks separator (String.◌∷◌ c s) = not (code c == separator) && lacks separator s

abbrev pub all_lack : ℕ → List String → Bool
all_lack separator [] = true
all_lack separator (s ∷ ss) = lacks separator s && all_lack separator ss

pub lacks-append :
    (separator : ℕ) (s t : String)
    → lacks separator (s ++ t) ≡ (lacks separator s && lacks separator t)
lacks-append separator String.[] t = rw (append.nil t) refl
lacks-append separator (String.◌∷◌ c s) t =
    rw (append.cons c s t) (ground (arith, lacks-append separator s t))

-- What stands before a separator is the first part.
pub split-append :
    (c : Char) (s t : String)
    → lacks (code c) s ≡ true
    → split (code c) (s ++ (String.◌∷◌ c "" ++ t)) ≡ s ∷ split (code c) t
unfolding split
split-append c String.[] t h =
    rw (append.nil (String.◌∷◌ c "" ++ t), append.cons c "" t, append.nil t) (ground arith)
split-append c (String.◌∷◌ d s) t h =
    rw (append.cons d s (String.◌∷◌ c "" ++ t)) (ground (arith, split-append c s t, h))

pub split-lacks : (c : ℕ) (s : String) → lacks c s ≡ true → split c s ≡ s ∷ []
unfolding split
split-lacks c String.[] h = refl
split-lacks c (String.◌∷◌ d s) h = ground (arith, split-lacks c s, h)

-- Joined texts without the separator are split into the same texts.
pub split-join :
    (c : Char) (s : String) (ss : List String)
    → all_lack (code c) (s ∷ ss) ≡ true
    → split (code c) (join (String.◌∷◌ c "") (s ∷ ss)) ≡ s ∷ ss
unfolding join
split-join c s [] h = split-lacks (code c) s (ground (arith, h))
split-join c s (t ∷ ts) h =
    split-append c s (join (String.◌∷◌ c "") (t ∷ ts)) (ground (arith, h))
    ∙ ap (λ l. s ∷ l) (split-join c t ts (ground (arith, h)))

abbrev lower_in : String → String → Char → Char
lower_in String.[] lowers c = c
lower_in (String.◌∷◌ u us) String.[] c = c
lower_in (String.◌∷◌ u us) (String.◌∷◌ l ls) c =
    let rest = lower_in us ls c in if code u == code c then l else rest

-- unicode.ToLower of an ASCII character.
unfoldable pub lower : Char → Char
lower c = lower_in "ABCDEFGHIJKLMNOPQRSTUVWXYZ" "abcdefghijklmnopqrstuvwxyz" c

-- strings.ToLower of an ASCII text.
unfoldable pub to_lower : String → String
unfolding lower
to_lower String.[] = ""
to_lower (String.◌∷◌ c s) = String.◌∷◌ (lower c) (to_lower s)
