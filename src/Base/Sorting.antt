-- ===== src/Base/Sorting.antt =====
-- `[...xs].sort((a, b) => key(a) - key(b))`: JavaScript's sort is stable, so it is the insertion
-- sort by the key.
use Prim.Native.Nat.{ℕ}
use mathlib.Core.Path.{◌≡◌, refl, ◌∙◌}
use mathlib.Core.Logic.{◌≢◌}
use mathlib.Core.List.{List, [], ◌∷◌, map, Permᴰ, Nodup, Nodup-cons, mem-cons_self}
use mathlib.Core.List.Perm
use mathlib.Core.List.Permᴰ
use native.Mathlib.Omega.{arith}
use secure_vote.Base.Tests.{if◌then◌else◌, leb}

module _ {ℓ} {A : Type ℓ} (key : A → ℕ) where
  unfoldable pub place : A → List A → List A
  place x [] = x ∷ []
  place x (y ∷ ys) = if leb (key x) (key y) then x ∷ y ∷ ys else y ∷ place x ys

  unfoldable pub sort_by : List A → List A
  unfolding place
  sort_by [] = []
  sort_by (x ∷ xs) = place x (sort_by xs)

  place_comm : (x y : A) (l : List A) → key x ≢ key y → place x (place y l) ≡ place y (place x l)
  unfolding place
  place_comm x y [] h = ground arith
  place_comm x y (z ∷ l) h = ground (arith, place_comm x y l h)

  place-perm : (x : A) (l : List A) → Permᴰ (place x l) (x ∷ l)
  unfolding place
  place-perm x [] = Permᴰ.refl (x ∷ [])
  place-perm x (y ∷ l) =
      let further : Permᴰ (y ∷ place x l) (x ∷ y ∷ l) =
        Permᴰ.trans (Permᴰ.cons refl (place-perm x l)) (Permᴰ.swap refl refl) in
      ground (arith, Permᴰ.refl (x ∷ y ∷ l), further)

  -- Sorting loses and invents nothing.
  pub sort_by-perm : (l : List A) → Permᴰ (sort_by l) l
  unfolding sort_by
  sort_by-perm [] = Permᴰ.nil
  sort_by-perm (x ∷ l) = Permᴰ.trans (place-perm x (sort_by l)) (Permᴰ.cons refl (sort_by-perm l))

  -- With distinct keys the order of the input does not matter.
  pub sort_by-eq_of_perm : {l m : List A} → Permᴰ l m → Nodup (map key l) → sort_by l ≡ sort_by m
  unfolding sort_by
  sort_by-eq_of_perm Permᴰ.nil h = refl
  sort_by-eq_of_perm (Permᴰ.cons {a} {b} {l₁} {l₂} e p) h =
      rw (sort_by-eq_of_perm p (Nodup-cons.0 h).1, e) refl
  sort_by-eq_of_perm (Permᴰ.swap {a} {b} {l} e f) h =
      rw (← e, ← f) (place_comm a b (sort_by l) (λ q. (Nodup-cons.0 h).0 (rw q mem-cons_self)))
  sort_by-eq_of_perm (Permᴰ.trans {l₁} {l₂} p q) h =
      sort_by-eq_of_perm p h ∙ sort_by-eq_of_perm q (Perm.nodup ∣ Permᴰ.map key p ∣₁ h)
