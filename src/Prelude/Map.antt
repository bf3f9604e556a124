-- ===== src/Prelude/Map.antt =====
-- The runtime's `Map` with string keys: an association list in insertion order. `set` on a key that
-- is there keeps its place; a new key goes to the end.
use Prim.Native.Nat.{ℕ, suc, ◌+◌, ◌≤◌}
use Prim.Native.String.{String}
use mathlib.Core.Path.{◌≡◌, refl}
use mathlib.Core.Bool.{Bool}
use mathlib.Core.Option.{Option, none, some}
use mathlib.Core.List.{List, [], ◌∷◌, ◌++◌}
use native.Mathlib.Omega.{arith}
use text.Mathlib.Text.{◌==◌}
use text.Mathlib.TextEquality.{eq_iff}
use v2_xrpl_tools.Prelude.Tests.{if◌then◌else◌, is_some}
use v2_xrpl_tools.Prelude.Lists.{length}

abbrev pub Map {ℓ} : Type ℓ → Type ℓ
Map V = List (String × V)

module _ {ℓ} {V : Type ℓ} where
  unfoldable pub get : String → Map V → Option V
  get k [] = none
  get k ((j, v) ∷ m) = if j == k then some v else get k m

  unfoldable pub set : String → V → Map V → Map V
  set k v [] = (k, v) ∷ []
  set k v ((j, w) ∷ m) = if j == k then (j, v) ∷ m else (j, w) ∷ set k v m

  unfoldable pub delete : String → Map V → Map V
  delete k [] = []
  delete k ((j, v) ∷ m) = let rest = delete k m in if j == k then rest else (j, v) ∷ rest

  abbrev pub has : String → Map V → Bool
  has k m = is_some (get k m)

  -- how often a key stands in the list; at most once in a map
  unfoldable pub occurs : String → Map V → ℕ
  occurs k [] = 0
  occurs k ((j, v) ∷ m) = if j == k then suc (occurs k m) else occurs k m

  abbrev pub IsMap : Map V → Type 0
  IsMap m = (k : String) → occurs k m ≤ 1

  pub get-set :
      (k j : String) (v : V) (m : Map V) → get j (set k v m) ≡ (if k == j then some v else get j m)
  unfolding get set
  get-set k j v [] = refl
  get-set k j v ((i, w) ∷ m) = ground (arith, eq_iff k j, eq_iff i k, eq_iff i j, get-set k j v m)

  pub get-set-same : (k : String) (v : V) (m : Map V) → get k (set k v m) ≡ some v
  get-set-same k v m = ground (arith, get-set k k v m, eq_iff k k)

  pub get-delete :
      (k j : String) (m : Map V) → get j (delete k m) ≡ (if k == j then none else get j m)
  unfolding get delete
  get-delete k j [] = ground arith
  get-delete k j ((i, w) ∷ m) = ground (arith, eq_iff k j, eq_iff i k, eq_iff i j, get-delete k j m)

  pub occurs-set :
      (k j : String) (v : V) (m : Map V)
      → occurs j (set k v m) ≡ (if k == j then (if has k m then occurs j m else 1) else occurs j m)
  unfolding get set occurs
  occurs-set k j v [] = ground (arith, eq_iff k j)
  occurs-set k j v ((i, w) ∷ m) =
      ground (arith, eq_iff k j, eq_iff i k, eq_iff i j, occurs-set k j v m)

  pub occurs-delete :
      (k j : String) (m : Map V) → occurs j (delete k m) ≡ (if k == j then 0 else occurs j m)
  unfolding delete occurs
  occurs-delete k j [] = ground arith
  occurs-delete k j ((i, w) ∷ m) =
      ground (arith, eq_iff k j, eq_iff i k, eq_iff i j, occurs-delete k j m)

  pub set-IsMap : (k : String) (v : V) (m : Map V) → IsMap m → IsMap (set k v m)
  set-IsMap k v m h j = ground (arith, occurs-set k j v m, h j)

  pub delete-IsMap : (k : String) (m : Map V) → IsMap m → IsMap (delete k m)
  delete-IsMap k m h j = ground (arith, occurs-delete k j m, h j)

  -- A deletion frees one place for each copy of the key.
  pub length-delete : (k : String) (m : Map V) → length (delete k m) + occurs k m ≡ length m
  unfolding delete occurs
  length-delete k [] = omega arith
  length-delete k ((i, w) ∷ m) = ground (arith, length-delete k m)

  pub length-set :
      (k : String) (v : V) (m : Map V)
      → length (set k v m) ≡ (if has k m then length m else suc (length m))
  unfolding get set
  length-set k v [] = refl
  length-set k v ((i, w) ∷ m) = ground (arith, length-set k v m)

  -- A new key goes to the end.
  pub set-new : (k : String) (v : V) (m : Map V) → get k m ≡ none → set k v m ≡ m ++ (k, v) ∷ []
  unfolding get set
  set-new k v [] h = refl
  set-new k v ((i, w) ∷ m) h = ground (arith, set-new k v m)

  pub occurs-append : (k : String) (m n : Map V) → occurs k (m ++ n) ≡ occurs k m + occurs k n
  unfolding occurs
  occurs-append k [] n = omega arith
  occurs-append k ((i, w) ∷ m) n = ground (arith, occurs-append k m n)

  pub get-none : (k : String) (m : Map V) → occurs k m ≡ 0 → get k m ≡ none
  unfolding get occurs
  get-none k [] h = refl
  get-none k ((i, w) ∷ m) h = ground (arith, get-none k m)

pub nil-IsMap {ℓ} : (V : Type ℓ) → IsMap {V = V} []
unfolding occurs
nil-IsMap V k = omega arith
