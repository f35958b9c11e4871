-- ===== src/Base/Indices.antt =====
-- What stands at an index of a list after a change.
use Prim.Native.Nat.{ℕ, zero, suc, ◌<◌}
use mathlib.Core.Path.{◌≡◌, refl, ap}
use mathlib.Core.Logic.{◌≢◌, ◌⊎◌, inl, inr}
use mathlib.Core.List.{List, [], ◌∷◌, ◌++◌}
use mathlib.Core.Option.{some}
use native.Mathlib.Omega.{arith}
use yakutil.Base.Lists.{length, get_elem?, set, replicate}

module _ {A : Type 0} where
  pub get_elem?-set_self :
      (l : List A) (i : ℕ) (a v : A) → get_elem? l i ≡ some a → get_elem? (set l i v) i ≡ some v
  get_elem?-set_self [] i a v h = cc
  get_elem?-set_self (x ∷ l) zero a v h = refl
  get_elem?-set_self (x ∷ l) (suc i) a v h = get_elem?-set_self l i a v h

  pub get_elem?-set_one :
      (l : List A) (i j : ℕ) (v b : A)
      → get_elem? (set l i v) j ≡ some b
      → (b ≡ v) ⊎ (get_elem? l j ≡ some b)
  get_elem?-set_one [] i j v b h = inr h
  get_elem?-set_one (x ∷ l) zero zero v b h = inl cc
  get_elem?-set_one (x ∷ l) zero (suc j) v b h = inr h
  get_elem?-set_one (x ∷ l) (suc i) zero v b h = inr h
  get_elem?-set_one (x ∷ l) (suc i) (suc j) v b h = get_elem?-set_one l i j v b h

  pub get_elem?_within : (l : List A) (i : ℕ) → i < length l → (a : A) × (get_elem? l i ≡ some a)
  get_elem?_within [] i h = absurd (omega arith)
  get_elem?_within (x ∷ l) zero h = (x, refl)
  get_elem?_within (x ∷ l) (suc i) h = get_elem?_within l i (omega arith)

  pub get_elem?-replicate : (n i : ℕ) (a b : A) → get_elem? (replicate n a) i ≡ some b → b ≡ a
  get_elem?-replicate zero i a b h = cc
  get_elem?-replicate (suc n) zero a b h = cc
  get_elem?-replicate (suc n) (suc i) a b h = get_elem?-replicate n i a b h

  pub get_elem?_end : (l : List A) (a : A) → get_elem? (l ++ (a ∷ [])) (length l) ≡ some a
  get_elem?_end [] a = refl
  get_elem?_end (x ∷ l) a = get_elem?_end l a

  pub get_elem?_front :
      (l m : List A) (i : ℕ) (a : A) → get_elem? l i ≡ some a → get_elem? (l ++ m) i ≡ some a
  get_elem?_front [] m i a h = cc
  get_elem?_front (x ∷ l) m zero a h = h
  get_elem?_front (x ∷ l) m (suc i) a h = get_elem?_front l m i a h

  pub get_elem?-set_ne :
      (l : List A) (i j : ℕ) (v : A) → i ≢ j → get_elem? (set l i v) j ≡ get_elem? l j
  get_elem?-set_ne [] i j v h = refl
  get_elem?-set_ne (x ∷ l) zero zero v h = absurd (h refl)
  get_elem?-set_ne (x ∷ l) zero (suc j) v h = refl
  get_elem?-set_ne (x ∷ l) (suc i) zero v h = refl
  get_elem?-set_ne (x ∷ l) (suc i) (suc j) v h = get_elem?-set_ne l i j v (λ e. h (ap suc e))
