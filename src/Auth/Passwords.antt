-- ===== src/Auth/Passwords.antt =====
-- src/features/auth/services/password.service.ts: the rules for passwords, and the generated ones.
-- The random numbers and the order that the final sort leaves are handed in.
pub mod Generated
use Prim.Native.Nat.{ℕ, zero, suc, ◌+◌, ◌-◌}
use Prim.Native.String.{String, ◌++◌, [], ◌∷◌}
use Prim.Native.Char.{Char, code}
use v2_xrpl_tools.Prelude.{
  Bool, true, false, not, ◌&&◌, ◌||◌, Option, none, some, List, ltb, leb, ◌==◌, if◌then◌else◌,
}

-- `text.length`, in the units of UTF-16
unfoldable pub units : String → ℕ
units [] = 0
units (c ∷ s) = (if ltb (code c) 65536 then 1 else 2) + units s

-- the test of a class of characters somewhere in a text
unfoldable pub has_char : (Char → Bool) → String → Bool
has_char p [] = false
has_char p (c ∷ s) = p c || has_char p s

abbrev pub between : ℕ → ℕ → Char → Bool
between low high c = leb low (code c) && leb (code c) high

abbrev pub is_upper : Char → Bool
is_upper = between 65 90

abbrev pub is_lower : Char → Bool
is_lower = between 97 122

abbrev pub is_digit : Char → Bool
is_digit = between 48 57

abbrev pub special_characters : String
special_characters = "!@#$%^&*()_+-=[]{};':\"\\|,.<>/?"

unfoldable pub is_special : Char → Bool
unfolding has_char
is_special c = has_char (λ d. code d == code c) special_characters

abbrev pub when_missing : Bool → String → List String → List String
when_missing b e errors = if b then errors else List.◌∷◌ e errors

-- the `errors` of the validation; the password is valid where there are none
unfoldable pub validate_password_strength : String → List String
unfolding units has_char is_special
validate_password_strength p =
    when_missing (leb 8 (units p)) "Password must be at least 8 characters long" (
      when_missing (has_char is_upper p) "Password must contain at least one uppercase letter" (
        when_missing (has_char is_lower p) "Password must contain at least one lowercase letter" (
          when_missing (has_char is_digit p) "Password must contain at least one number" (
            when_missing (has_char is_special p)
              "Password must contain at least one special character" List.[]))))

abbrev pub upper_case : String
upper_case = "ABCDEFGHIJKLMNOPQRSTUVWXYZ"

abbrev pub lower_case : String
lower_case = "abcdefghijklmnopqrstuvwxyz"

abbrev pub digits : String
digits = "0123456789"

abbrev pub symbols : String
symbols = "!@#$%^&*()_+-=[]{}|;:,.<>?"

abbrev pub charset : String
charset = "abcdefghijklmnopqrstuvwxyzABCDEFGHIJKLMNOPQRSTUVWXYZ0123456789!@#$%^&*()_+-=[]{}|;:,.<>?"

-- `text[i]` as it is added to a text: outside the text it is undefined
unfoldable pub char_at : String → ℕ → String
char_at [] i = "undefined"
char_at (c ∷ s) zero = c ∷ []
char_at (c ∷ s) (suc i) = char_at s i

-- the loop that fills the password, with so many rounds left
unfoldable pub fill : (ℕ → ℕ → ℕ) → ℕ → ℕ → String
unfolding char_at
fill random zero k = ""
fill random (suc n) k = char_at charset (random k 88) ++ fill random n (suc k)

-- `random k n` is `Math.floor(Math.random() * n)` at the k-th draw.
unfoldable pub generate_random_password : (ℕ → ℕ → ℕ) → (String → String) → ℕ → String
unfolding units char_at fill
generate_random_password random shuffle length =
    let password =
      char_at upper_case (random 0 26)
      ++ (char_at lower_case (random 1 26)
          ++ (char_at digits (random 2 10) ++ char_at symbols (random 3 27))) in
    shuffle (password ++ fill random (length - units password) 4)
