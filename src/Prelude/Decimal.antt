-- ===== src/Prelude/Decimal.antt =====
-- A number inside a template literal: its decimal digits. Keys are built from such texts.
use Prim.Native.Nat.{ℕ, zero, suc, ◌+◌, ◌-◌, ◌*◌, ◌/◌, ◌%◌, ◌<◌}
use Prim.Native.Char.{code}
use Prim.Native.String.{String, [], ◌∷◌, ◌++◌}
use mathlib.Core.Path.{◌≡◌, refl, ap, ap₂, subst, ◌∙◌, sym}
use mathlib.Core.Logic.{◌≢◌, inl, inr}
use native.Mathlib.Omega.{arith}
use text.Mathlib.TextLemmas.{
  nil-append, cons-append, append_cancel_left, tail-eq_of_cons-eq, cons-eq-cons,
}
use mathlib.Core.Bool.{Bool, true, ◌&&◌}
use mathlib.Core.Option.{Option, none, some}
use v2_xrpl_tools.Prelude.Tests.{ltb, leb, Bool-cases, if◌then◌else◌}

unfoldable pub digit : ℕ → String
digit zero = "0"
digit (suc zero) = "1"
digit (suc (suc zero)) = "2"
digit (suc (suc (suc zero))) = "3"
digit (suc (suc (suc (suc zero)))) = "4"
digit (suc (suc (suc (suc (suc zero))))) = "5"
digit (suc (suc (suc (suc (suc (suc zero)))))) = "6"
digit (suc (suc (suc (suc (suc (suc (suc zero))))))) = "7"
digit (suc (suc (suc (suc (suc (suc (suc (suc zero)))))))) = "8"
digit _ = "9"

show_fuel : ℕ → ℕ → String
show_fuel zero n = ""
show_fuel (suc f) n =
    let longer = show_fuel f (n / 10) ++ digit (n % 10) in if ltb n 10 then digit n else longer

-- `${n}`: a number has at most as many digits as its value and one more.
unfoldable pub show : ℕ → String
unfolding show_fuel digit
show n = show_fuel (suc n) n

value_from : ℕ → String → ℕ
value_from acc [] = acc
value_from acc (c ∷ s) = value_from (acc * 10 + (code c - 48)) s

value_from-append :
    (acc : ℕ) (s t : String) → value_from acc (s ++ t) ≡ value_from (value_from acc s) t
unfolding value_from
value_from-append acc [] t = ap (value_from acc) (nil-append t)
value_from-append acc (c ∷ s) t =
    ap (value_from acc) (cons-append c s t) ∙ value_from-append (acc * 10 + (code c - 48)) s t

-- No underscore stands in a text.
abbrev pub IsPlain : String → Type 0
IsPlain [] = Unit
IsPlain (c ∷ s) = (code c ≢ b'_') × IsPlain s

IsPlain-append : (s t : String) → IsPlain s → IsPlain t → IsPlain (s ++ t)
IsPlain-append [] t h k = rw nil-append k
IsPlain-append (c ∷ s) t (p, h) k = rw cons-append (p, IsPlain-append s t h k)

digit-IsPlain : (d : ℕ) → IsPlain (digit d)
unfolding digit
digit-IsPlain zero = omega arith
digit-IsPlain (suc zero) = omega arith
digit-IsPlain (suc (suc zero)) = omega arith
digit-IsPlain (suc (suc (suc zero))) = omega arith
digit-IsPlain (suc (suc (suc (suc zero)))) = omega arith
digit-IsPlain (suc (suc (suc (suc (suc zero))))) = omega arith
digit-IsPlain (suc (suc (suc (suc (suc (suc zero)))))) = omega arith
digit-IsPlain (suc (suc (suc (suc (suc (suc (suc zero))))))) = omega arith
digit-IsPlain (suc (suc (suc (suc (suc (suc (suc (suc zero)))))))) = omega arith
digit-IsPlain (suc (suc (suc (suc (suc (suc (suc (suc (suc d))))))))) = omega arith

value_from-digit : (acc d : ℕ) → d < 10 → value_from acc (digit d) ≡ acc * 10 + d
unfolding value_from digit
value_from-digit acc zero h = omega arith
value_from-digit acc (suc zero) h = omega arith
value_from-digit acc (suc (suc zero)) h = omega arith
value_from-digit acc (suc (suc (suc zero))) h = omega arith
value_from-digit acc (suc (suc (suc (suc zero)))) h = omega arith
value_from-digit acc (suc (suc (suc (suc (suc zero))))) h = omega arith
value_from-digit acc (suc (suc (suc (suc (suc (suc zero)))))) h = omega arith
value_from-digit acc (suc (suc (suc (suc (suc (suc (suc zero))))))) h = omega arith
value_from-digit acc (suc (suc (suc (suc (suc (suc (suc (suc zero)))))))) h = omega arith
value_from-digit acc (suc (suc (suc (suc (suc (suc (suc (suc (suc d))))))))) h = omega arith

show_fuel-value : (f n : ℕ) → n < f → value_from 0 (show_fuel f n) ≡ n
unfolding show_fuel
show_fuel-value zero n h = elim h [ ]
show_fuel-value (suc f) n h = ground (
  arith,
  show_fuel-value f (n / 10),
  value_from-append 0 (show_fuel f (n / 10)) (digit (n % 10)),
  value_from-digit 0 n,
  value_from-digit (value_from 0 (show_fuel f (n / 10))) (n % 10),
)

show_fuel-IsPlain : (f n : ℕ) → IsPlain (show_fuel f n)
unfolding show_fuel
show_fuel-IsPlain zero n = tt
show_fuel-IsPlain (suc f) n = elim (Bool-cases (ltb n 10)) [
  | inl e ↦ rw e (digit-IsPlain n)
  | inr e ↦ rw e (IsPlain-append _ _ (show_fuel-IsPlain f (n / 10)) (digit-IsPlain (n % 10)))
]

pub show-IsPlain : (n : ℕ) → IsPlain (show n)
unfolding show
show-IsPlain n = show_fuel-IsPlain (suc n) n

-- Two numbers with one text are equal.
pub show-injective : (m n : ℕ) → show m ≡ show n → m ≡ n
unfolding show
show-injective m n e =
    sym (show_fuel-value (suc m) m (omega arith))
    ∙ ap (value_from 0) e
    ∙ show_fuel-value (suc n) n (omega arith)

-- A text with the mark in it is not plain.
marked-not-IsPlain : (s v : String) → ¬ (IsPlain (s ++ ("_" ++ v)))
marked-not-IsPlain [] v h =
    let k : IsPlain ("_" ++ v) = rw nil-append at h in
    let l : IsPlain ("_" ∷ ("" ++ v)) = rw cons-append at k in l.0 refl
marked-not-IsPlain (c ∷ s) v h =
    let k = subst IsPlain (cons-append c s ("_" ++ v)) h in marked-not-IsPlain s v k.1

marked_tail : (u : String) → "" ++ ("_" ++ u) ≡ "_" ∷ u
marked_tail u = nil-append ("_" ++ u) ∙ cons-append "_" "" u ∙ ap (λ t. "_" ∷ t) (nil-append u)

-- Where neither tail holds the mark, the texts before and after the last mark are determined.
pub marked-injective :
    (s t : String) {u v : String}
    → IsPlain u
    → IsPlain v
    → s ++ ("_" ++ u) ≡ t ++ ("_" ++ v)
    → (s ≡ t) × (u ≡ v)
marked-injective [] [] h k e = (refl, append_cancel_left "_" _ _ (append_cancel_left "" _ _ e))
marked-injective [] (d ∷ t) {u} {v} h k e =
    let same : u ≡ t ++ ("_" ++ v) =
      tail-eq_of_cons-eq (sym (marked_tail u) ∙ e ∙ cons-append d t ("_" ++ v)) in
    absurd (marked-not-IsPlain t v (subst IsPlain same h))
marked-injective (c ∷ s) [] {u} {v} h k e =
    let same : s ++ ("_" ++ u) ≡ v =
      tail-eq_of_cons-eq (sym (cons-append c s ("_" ++ u)) ∙ e ∙ marked_tail v) in
    absurd (marked-not-IsPlain s u (subst IsPlain (sym same) k))
marked-injective (c ∷ s) (d ∷ t) {u} {v} h k e =
    let (heads, tails) =
      cons-eq-cons.0 (sym (cons-append c s ("_" ++ u)) ∙ e ∙ cons-append d t ("_" ++ v)) in
    let (same, rest) = marked-injective s t h k tails in (ap₂ (λ a l. a ∷ l) heads same, rest)

is_digit : ℕ → Bool
is_digit c = leb b'0' c && leb c b'9'

digits_from : ℕ → String → ℕ
digits_from acc [] = acc
digits_from acc (c ∷ s) =
    let rest = digits_from (acc * 10 + (code c - 48)) s in if is_digit (code c) then rest else acc

-- `parseInt` of a text without sign and white space: its leading digits, and NaN if there are none.
unfoldable pub parse_int : String → Option ℕ
unfolding digits_from is_digit
parse_int [] = none
parse_int (c ∷ s) = if is_digit (code c) then some (digits_from 0 (c ∷ s)) else none

all_digits : String → Bool
all_digits [] = true
all_digits (c ∷ s) = is_digit (code c) && all_digits s

-- `BigInt` of a text without sign, white space and prefix; none where it throws.
unfoldable pub big_int : String → Option ℕ
unfolding all_digits digits_from is_digit
big_int s = if all_digits s then some (digits_from 0 s) else none
