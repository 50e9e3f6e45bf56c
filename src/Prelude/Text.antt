-- ===== src/Prelude/Text.antt =====
-- What the program uses of Go's `strings` and `strconv`, on texts as lists of characters.
use Prim.Native.Nat.{ℕ, zero, suc, ◌+◌, ◌-◌, ◌*◌, ◌/◌, ◌%◌, ◌^◌}
use Prim.Native.Char.{Char, code}
use Prim.Native.String.{String, ◌++◌}
use mathlib.Core.Bool.{Bool, true, false, ◌&&◌, ◌||◌}
use text.Mathlib.Text.{starts_with}
use mathlib.Core.List.{List, [], ◌∷◌}
use mathlib.Core.Option.{Option, none, some}
use sg_core.Prelude.Tests.{ltb, leb, ◌==◌, if◌then◌else◌}
use sg_core.Prelude.Int.{ℤ, pos, sub_ℕ}

abbrev push : Char → List String → List String
push c [] = String.◌∷◌ c "" ∷ []
push c (part ∷ parts) = String.◌∷◌ c part ∷ parts

-- strings.Split by one ASCII character: there is always a part.
unfoldable pub split : ℕ → String → List String
split separator String.[] = "" ∷ []
split separator (String.◌∷◌ c s) =
    let rest = split separator s in if code c == separator then "" ∷ rest else push c rest

-- strings.SplitN by one ASCII character: `count` parts at most, the last of them not split.
unfoldable pub split_n : ℕ → ℕ → String → List String
split_n zero separator s = []
split_n (suc zero) separator s = s ∷ []
split_n (suc (suc n)) separator String.[] = "" ∷ []
split_n (suc (suc n)) separator (String.◌∷◌ c s) =
    let next = split_n (suc n) separator s in
    let rest = split_n (suc (suc n)) separator s in
    if code c == separator then "" ∷ next else push c rest

-- strings.Contains
unfoldable pub contains_text : String → String → Bool
contains_text part String.[] = starts_with "" part
contains_text part (String.◌∷◌ c s) = starts_with (String.◌∷◌ c s) part || contains_text part s

-- strings.Join
unfoldable pub join : String → List String → String
join separator [] = ""
join separator (s ∷ []) = s
join separator (s ∷ t ∷ rest) = s ++ (separator ++ join separator (t ∷ rest))

-- strings.ReplaceAll of one ASCII character by a text.
unfoldable pub replace_all : ℕ → String → String → String
replace_all old new String.[] = ""
replace_all old new (String.◌∷◌ c s) =
    let rest = replace_all old new s in if code c == old then new ++ rest else String.◌∷◌ c rest

-- The text of a decimal digit.
unfoldable pub digit : ℕ → String
digit n =
    if n == 0
    then "0"
    else if n == 1
    then "1"
    else if n == 2
    then "2"
    else if n == 3
    then "3"
    else if n == 4
    then "4"
    else if n == 5
    then "5"
    else if n == 6
    then "6"
    else if n == 7
    then "7"
    else if n == 8
    then "8"
    else "9"

unfoldable pub decimal_loop : ℕ → ℕ → String → String
decimal_loop zero n out = out
decimal_loop (suc fuel) n out =
    let more = decimal_loop fuel (n / 10) (digit (n % 10) ++ out) in
    if ltb n 10 then digit n ++ out else more

-- strconv.Itoa and %d of a number that is not negative: it has no more digits than its value and one.
unfoldable pub decimal : ℕ → String
unfolding decimal_loop digit
decimal n = decimal_loop (suc n) n ""

-- %02d
unfoldable pub two_digits : ℕ → String
unfolding decimal
two_digits n = if ltb n 10 then "0" ++ decimal n else decimal n

-- The value of a text of decimal digits; `none` if another character is in it.
unfoldable pub digits_value : ℕ → String → Option ℕ
digits_value n String.[] = some n
digits_value n (String.◌∷◌ c s) =
    let d = code c in
    if leb b'0' d && leb d b'9' then digits_value (n * 10 + (d - b'0')) s else none

-- The digits behind a sign, within the range of an int.
unfoldable pub signed_value : Bool → String → Option ℤ
unfolding digits_value
signed_value negative String.[] = none
signed_value negative (String.◌∷◌ c s) = elim (digits_value 0 (String.◌∷◌ c s)) [
  | none ↦ none
  | some n ↦
      if negative
      then (if leb n (2 ^ 63) then some (sub_ℕ 0 n) else none)
      else if ltb n (2 ^ 63)
      then some (pos n)
      else none
]

-- strconv.Atoi
unfoldable pub atoi : String → Option ℤ
unfolding signed_value
atoi String.[] = none
atoi (String.◌∷◌ c s) =
    if code c == b'-'
    then signed_value true s
    else if code c == b'+'
    then signed_value false s
    else signed_value false (String.◌∷◌ c s)

-- What stands before the last occurrence of an ASCII character; strings.LastIndex is its length in bytes.
unfoldable pub before_last : ℕ → String → Option String
before_last separator String.[] = none
before_last separator (String.◌∷◌ c s) = elim (before_last separator s) [
  | some front ↦ some (String.◌∷◌ c front)
  | none ↦ if code c == separator then some "" else none
]

-- All parts of a list but the last.
unfoldable pub init {ℓ} : {A : Type ℓ} → List A → List A
init [] = []
init (s ∷ []) = []
init (s ∷ t ∷ rest) = s ∷ init (t ∷ rest)
