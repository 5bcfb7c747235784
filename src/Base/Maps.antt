-- ===== src/Base/Maps.antt =====
-- JavaScript's `Record<string, V>`: an association list in insertion order. Keys are assumed not to
-- be names of properties that every object inherits, such as `constructor`.
use Prim.Native.Nat.{ℕ, ◌+◌}
use Prim.Native.String.{String}
use mathlib.Core.Path.{◌≡◌, refl}
use mathlib.Core.Bool.{Bool, true, false}
use mathlib.Core.Option.{Option, none, some}
use mathlib.Core.List.{List, [], ◌∷◌}
use native.Mathlib.Omega.{arith}
use text.Mathlib.Text.{◌==◌ as ◌===◌}
use text.Mathlib.TextEquality.{eq_iff}
use text.Mathlib.TextPositions.{eq_refl}
use secure_vote.Base.Tests.{if◌then◌else◌}

-- `x !== undefined`
abbrev pub is_some {ℓ} : {A : Type ℓ} → Option A → Bool
is_some none = false
is_some (some _) = true

abbrev pub get_or {ℓ} : {A : Type ℓ} → Option A → A → A
get_or none d = d
get_or (some a) d = a

module _ {ℓ} {V : Type ℓ} where
  -- `m[k] = v`; an entry that is there keeps its place.
  unfoldable pub insert : String → V → List (String × V) → List (String × V)
  insert name value [] = (name, value) ∷ []
  insert name value ((other, old) ∷ rest) =
      if other === name then (other, value) ∷ rest else (other, old) ∷ insert name value rest

  -- `m[k]`
  unfoldable pub lookup : String → List (String × V) → Option V
  lookup name [] = none
  lookup name ((other, value) ∷ rest) = if other === name then some value else lookup name rest

  -- `Object.values(m)`
  abbrev pub values : List (String × V) → List V
  values [] = []
  values ((k, v) ∷ m) = v ∷ values m

  pub lookup-nil : (k : String) → lookup k [] ≡ none
  unfolding lookup
  lookup-nil k = refl

  pub lookup-insert :
      (name asked : String) (value : V) (m : List (String × V))
      → lookup asked (insert name value m) ≡ (if name === asked then some value else lookup asked m)
  unfolding insert lookup
  lookup-insert name asked value [] = refl
  lookup-insert name asked value ((other, old) ∷ rest) =
      let later = lookup-insert name asked value rest in
      ground (arith, later, eq_iff other name, eq_iff name asked, eq_iff other asked)

  pub lookup-insert_self :
      (name : String) (value : V) (m : List (String × V))
      → lookup name (insert name value m) ≡ some value
  lookup-insert_self name value m = simp (lookup-insert, eq_refl)

-- The sum of all values, `Object.values(m).reduce((a, b) => a + b, 0)`.
unfoldable pub sum_values : List (String × ℕ) → ℕ
sum_values [] = 0
sum_values ((k, v) ∷ m) = v + sum_values m

pub sum_values-nil : sum_values [] ≡ 0
unfolding sum_values
sum_values-nil = refl

-- A write changes the sum by the difference of the new and the old value.
pub sum_values-insert :
    (k : String) (v : ℕ) (m : List (String × ℕ))
    → sum_values (insert k v m) + get_or (lookup k m) 0 ≡ sum_values m + v
unfolding sum_values insert lookup
sum_values-insert k v [] = omega arith
sum_values-insert k v ((j, w) ∷ m) = ground (arith, sum_values-insert k v m)
