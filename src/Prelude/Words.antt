-- ===== src/Prelude/Words.antt =====
-- Template literals, and the tests on texts that take them apart.
use Prim.Native.Nat.{ℕ}
use Prim.Native.String.{String, ◌++◌, [], ◌∷◌}
use Prim.Native.Char.{Char, code}
use mathlib.Core.Bool.{Bool, ◌||◌}
use mathlib.Core.Option.{Option, none, some}
use mathlib.Core.List.{List}
use v2_xrpl_tools.Prelude.Tests.{◌==◌, if◌then◌else◌, is_some}

-- the texts one after the other
abbrev pub words : List String → String
words List.[] = ""
words (List.◌∷◌ w ws) = w ++ words ws

-- what follows a prefix, and none where the text does not start with it
unfoldable pub strip_prefix : String → String → Option String
strip_prefix [] s = some s
strip_prefix (c ∷ p) [] = none
strip_prefix (c ∷ p) (d ∷ s) =
    let rest = strip_prefix p s in if code c == code d then rest else none

-- `text.includes(part)`
unfoldable pub includes : String → String → Bool
unfolding strip_prefix
includes part [] = is_some (strip_prefix part [])
includes part (c ∷ s) = is_some (strip_prefix part (c ∷ s)) || includes part s

abbrev push_first : Char → List String → List String
push_first c List.[] = List.◌∷◌ (c ∷ []) List.[]
push_first c (List.◌∷◌ w ws) = List.◌∷◌ (c ∷ w) ws

-- `text.split(c)`, by the code of `c`
unfoldable pub split_by : ℕ → String → List String
split_by n [] = List.◌∷◌ "" List.[]
split_by n (c ∷ s) =
    let rest = split_by n s in if code c == n then List.◌∷◌ "" rest else push_first c rest

-- `text.split(' ')`
abbrev pub split_spaces : String → List String
split_spaces s = split_by 32 s
