-- ===== src/Auth/Passwords/Generated.antt =====
-- Generated passwords keep the rules.
use Prim.Native.Nat.{ℕ, zero, suc, ◌+◌, ◌-◌, ◌≤◌, ◌<◌}
use Prim.Native.String.{String, ◌++◌, [], ◌∷◌}
use Prim.Native.String.append.{nil, cons}
use Prim.Native.Char.{Char, code}
use v2_xrpl_tools.Prelude.{
  ◌≡◌, refl, sym, ap, ◌∙◌, Bool, true, ◌&&◌, ◌||◌, List, leb, ◌==◌, if◌then◌else◌, subst,
  Bool-cases, arith, inl, inr,
}
use v2_xrpl_tools.Auth.Passwords.{
  units, has_char, is_upper, is_lower, is_digit, is_special, validate_password_strength, upper_case,
  lower_case, digits, symbols, charset, special_characters, char_at, fill, generate_random_password,
}

-- how often a text holds a character
unfoldable pub count : Char → String → ℕ
count c [] = 0
count c (d ∷ s) = (if code d == code c then 1 else 0) + count c s

-- `Array.prototype.sort`: an order of the same characters, as long as before
abbrev pub IsShuffle : (String → String) → Type 0
IsShuffle shuffle =
    (s : String) → (units (shuffle s) ≡ units s) × ((c : Char) → count c (shuffle s) ≡ count c s)

units-append : (s t : String) → units (s ++ t) ≡ units s + units t
unfolding units
units-append [] t = rw (nil t) omega arith
units-append (c ∷ s) t = rw (cons c s t) omega (arith, units-append s t)

has_char-append :
    (p : Char → Bool) (s t : String) → has_char p (s ++ t) ≡ has_char p s || has_char p t
unfolding has_char
has_char-append p [] t = rw (nil t) refl
has_char-append p (c ∷ s) t = rw (cons c s t) ground (arith, has_char-append p s t)

-- how many characters
unfoldable size : String → ℕ
size [] = 0
size (c ∷ s) = suc (size s)

unfoldable all_chars : (Char → Bool) → String → Bool
all_chars p [] = true
all_chars p (c ∷ s) = p c && all_chars p s

has_char-char_at :
    (p : Char → Bool) (s : String) (i : ℕ)
    → all_chars p s ≡ true
    → i < size s
    → has_char p (char_at s i) ≡ true
unfolding all_chars size has_char char_at
has_char-char_at p [] i h k = absurd (omega arith)
has_char-char_at p (c ∷ s) zero h k = ground arith
has_char-char_at p (c ∷ s) (suc i) h k = has_char-char_at p s i (ground arith) (omega arith)

units-char_at : (s : String) (i : ℕ) → 1 ≤ units (char_at s i)
unfolding units char_at
units-char_at [] i = omega arith
units-char_at (c ∷ s) zero = ground arith
units-char_at (c ∷ s) (suc i) = units-char_at s i

units-fill : (random : ℕ → ℕ → ℕ) (n k : ℕ) → n ≤ units (fill random n k)
unfolding fill
units-fill random zero k = omega arith
units-fill random (suc n) k = omega (
  arith,
  units-append (char_at charset (random k 88)) (fill random n (suc k)),
  units-char_at charset (random k 88),
  units-fill random n (suc k),
)

-- A test of a character's code that some character of a text meets is met by one that the text holds.
has_char-count :
    (q : ℕ → Bool) (s : String)
    → has_char (λ c. q (code c)) s ≡ true
    → (c : Char) × ((q (code c) ≡ true) × (1 ≤ count c s))
unfolding has_char count
has_char-count q [] h = absurd (grind arith)
has_char-count q (c ∷ s) h = elim (Bool-cases (q (code c))) [
  | inl e ↦ (c, (e, ground arith))
  | inr e ↦ let (d, (f, g)) = has_char-count q s (ground arith) in (d, (f, omega (arith, g)))
]

count-has_char :
    (q : ℕ → Bool) (s : String) (c : Char)
    → q (code c) ≡ true
    → 1 ≤ count c s
    → has_char (λ d. q (code d)) s ≡ true
unfolding has_char count
count-has_char q [] c h k = absurd (omega arith)
count-has_char q (d ∷ s) c h k = elim (Bool-cases (code d == code c)) [
  | inl e ↦
      let same : code d ≡ code c = ground arith in
      let first : q (code d) ≡ true = ap q same ∙ h in rw first refl
  | inr e ↦ let rest = count-has_char q s c h (ground arith) in ground (arith, rest)
]

shuffle-has_char :
    (shuffle : String → String)
    → IsShuffle shuffle
    → (q : ℕ → Bool) (s : String) → has_char (λ c. q (code c)) s ≡ true
    → has_char (λ c. q (code c)) (shuffle s) ≡ true
shuffle-has_char shuffle law q s h =
    let (c, (e, k)) = has_char-count q s h in
    count-has_char q (shuffle s) c e (subst (λ n. 1 ≤ n) (sym ((law s).1 c)) k)

-- The four characters that the password starts from pass each a test that one of them passes.
has_char-four :
    (p : Char → Bool) (a b d e f : String)
    → has_char p a || (has_char p b || (has_char p d || has_char p e)) ≡ true
    → has_char p ((a ++ (b ++ (d ++ e))) ++ f) ≡ true
has_char-four p a b d e f h =
    let start : has_char p (a ++ (b ++ (d ++ e))) ≡ true =
      has_char-append p a (b ++ (d ++ e))
      ∙ ap (λ t. has_char p a || t)
          (has_char-append p b (d ++ e) ∙ ap (λ t. has_char p b || t) (has_char-append p d e))
      ∙ h in
    has_char-append p (a ++ (b ++ (d ++ e))) f ∙ ground (arith, start)

-- A generated password of at least eight characters passes the validation, where the fourth draw is not
-- the last of its range: there the text of symbols has ended, and the word undefined is added instead.
pub generate_random_password-valid :
    (random : ℕ → ℕ → ℕ) (shuffle : String → String) (length : ℕ)
    → ((k n : ℕ) → 1 ≤ n → random k n < n)
    → IsShuffle shuffle
    → 8 ≤ length
    → random 3 27 < 26
    → validate_password_strength (generate_random_password random shuffle length) ≡ List.[]
unfolding validate_password_strength generate_random_password is_special all_chars size has_char
generate_random_password-valid random shuffle length in_range law enough fourth =
    let a = char_at upper_case (random 0 26) in
    let b = char_at lower_case (random 1 26) in
    let d = char_at digits (random 2 10) in
    let e = char_at symbols (random 3 27) in
    let f = fill random (length - units (a ++ (b ++ (d ++ e)))) 4 in
    let text = (a ++ (b ++ (d ++ e))) ++ f in
    let ha : has_char is_upper a ≡ true =
      has_char-char_at is_upper upper_case (random 0 26) refl (in_range 0 26 (omega arith)) in
    let hb : has_char is_lower b ≡ true =
      has_char-char_at is_lower lower_case (random 1 26) refl (in_range 1 26 (omega arith)) in
    let hd : has_char is_digit d ≡ true =
      has_char-char_at is_digit digits (random 2 10) refl (in_range 2 10 (omega arith)) in
    let he : has_char is_special e ≡ true =
      has_char-char_at is_special symbols (random 3 27) refl fourth in
    let long : leb 8 (units (shuffle text)) ≡ true = ground (
      arith,
      (law text).0,
      units-append (a ++ (b ++ (d ++ e))) f,
      units-fill random (length - units (a ++ (b ++ (d ++ e)))) 4,
    ) in
    let upper =
      shuffle-has_char shuffle law (λ n. leb 65 n && leb n 90) text
        (has_char-four is_upper a b d e f (ground (arith, ha))) in
    let lower =
      shuffle-has_char shuffle law (λ n. leb 97 n && leb n 122) text
        (has_char-four is_lower a b d e f (ground (arith, hb))) in
    let digit =
      shuffle-has_char shuffle law (λ n. leb 48 n && leb n 57) text
        (has_char-four is_digit a b d e f (ground (arith, hd))) in
    let special =
      shuffle-has_char shuffle law (λ n. has_char (λ c. code c == n) special_characters) text
        (has_char-four is_special a b d e f (ground (arith, he))) in
    rw (long, upper, lower, digit, special) refl
