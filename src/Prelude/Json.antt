-- ===== src/Prelude/Json.antt =====
-- The values of JSON, and how the code reads them. A number is the text that it prints as; what is
-- not there is none, and a property of a prototype is not read.
use Prim.Native.String.{String}
use mathlib.Core.Bool.{Bool, true, false, not}
use mathlib.Core.Option.{Option, none, some}
use package.text.Mathlib.Text.{◌==◌ as str_eq}
use v2_xrpl_tools.Prelude.Tests.{if◌then◌else◌}

mutual
  pub data Json : Type 0 where
    null : Json
    boolean : Bool → Json
    number text : String → Json
    array : Elements → Json
    object : Fields → Json

  pub data Elements : Type 0 where
    end : Elements
    element : Json → Elements → Elements

  pub data Fields : Type 0 where
    closed : Fields
    field : String → Json → Fields → Fields

-- a property that is there where its value is
abbrev pub with_field : String → Option Json → Fields → Fields
with_field name none f = f
with_field name (some v) f = field name v f

unfoldable pub lookup : String → Fields → Option Json
lookup k closed = none
lookup k (field j v f) = let rest = lookup k f in if str_eq j k then some v else rest

-- JSON values that count as false
abbrev pub is_truthy : Json → Bool
is_truthy null = false
is_truthy (boolean b) = b
is_truthy (number n) = not (str_eq n "0")
is_truthy (text s) = not (str_eq s "")
is_truthy (array e) = true
is_truthy (object f) = true

-- a value that counts as true
abbrev pub when_truthy : Option Json → Option Json
when_truthy none = none
when_truthy (some v) = if is_truthy v then some v else none

-- `value?.name`
unfoldable pub field_of : String → Option Json → Option Json
unfolding lookup
field_of k (some (object f)) = lookup k f
field_of k _ = none

-- `a || b`
unfoldable pub or_else : Option Json → Option Json → Option Json
or_else none b = b
or_else (some v) b = if is_truthy v then some v else b

-- A text that is not empty, and a number that is not zero; another value is not read as either.
unfoldable pub text_value : Option Json → Option String
text_value (some (text s)) = if str_eq s "" then none else some s
text_value _ = none

unfoldable pub number_text : Option Json → Option String
number_text (some (number n)) = if str_eq n "0" then none else some n
number_text _ = none
