-- ===== src/Base/Keyed.antt =====
-- Lists of items that are told apart by a key, such as the nodes of a linked list that a map points
-- to, and the keys of the map themselves.
use mathlib.Core.Path.{◌≡◌, refl}
use mathlib.Core.Logic.{ite, if_pos, if_neg, ◌≢◌}
use mathlib.Core.List.{List, [], ◌∷◌}
use mathlib.Core.Option.{Option, none, some}
use Prim.Native.Nat.{ℕ, zero, suc, ◌+◌, ◌≤◌}
use native.Mathlib.Omega.{arith}
use yakutil.Base.Lists.{length, take, get_elem?}

module _ {K A : Type 0} (dec : Discrete K) (key : A → K) where
  unfoldable pub find : K → List A → Option A
  find k [] = none
  find k (a ∷ l) = ite (dec (key a) k) (some a) (find k l)

  -- without the first item of a key
  unfoldable pub unlink : K → List A → List A
  unlink k [] = []
  unlink k (a ∷ l) = ite (dec (key a) k) l (a ∷ unlink k l)

  abbrev pub Distinct : List A → Type 0
  Distinct [] = Unit {0}
  Distinct (a ∷ l) = (find (key a) l ≡ none) × Distinct l

  pub find-key : (k : K) (l : List A) (a : A) → find k l ≡ some a → key a ≡ k
  unfolding find
  find-key k [] a h = cc
  find-key k (b ∷ l) a h = ground (arith, find-key k l a)

  pub find-unlink_ne : (k j : K) (l : List A) → k ≢ j → find j (unlink k l) ≡ find j l
  unfolding find unlink
  find-unlink_ne k j [] h = refl
  find-unlink_ne k j (a ∷ l) h = ground (arith, find-unlink_ne k j l)

  pub find-unlink_self : (k : K) (l : List A) → Distinct l → find k (unlink k l) ≡ none
  unfolding find unlink
  find-unlink_self k [] d = refl
  find-unlink_self k (a ∷ l) d = ground (arith, find-unlink_self k l)

  pub unlink_absent : (k : K) (l : List A) → find k l ≡ none → unlink k l ≡ l
  unfolding find unlink
  unlink_absent k [] h = refl
  unlink_absent k (a ∷ l) h = ground (arith, unlink_absent k l)

  find-unlink-none : (k j : K) (l : List A) → find j l ≡ none → find j (unlink k l) ≡ none
  unfolding find unlink
  find-unlink-none k j [] h = refl
  find-unlink-none k j (a ∷ l) h = ground (arith, find-unlink-none k j l)

  pub unlink-Distinct : (k : K) (l : List A) → Distinct l → Distinct (unlink k l)
  unfolding unlink
  unlink-Distinct k [] d = tt
  unlink-Distinct k (a ∷ l) d = elim (dec (key a) k) [
    | yes e ↦ rw (if_pos _ e) (d.1)
    | no n ↦ rw (if_neg _ n) (find-unlink-none k (key a) l d.0, unlink-Distinct k l d.1)
  ]

  pub length-unlink :
      (k : K) (l : List A) (a : A) → find k l ≡ some a → length (unlink k l) + 1 ≡ length l
  unfolding find unlink
  length-unlink k [] a h = cc
  length-unlink k (b ∷ l) a h = ground (arith, length-unlink k l a)

  pub length-unlink-le : (k : K) (l : List A) → length (unlink k l) ≤ length l
  unfolding unlink
  length-unlink-le k [] = omega arith
  length-unlink-le k (b ∷ l) = ground (arith, length-unlink-le k l)

  -- the item at the end of the list
  unfoldable pub last : List A → Option A
  last [] = none
  last (a ∷ []) = some a
  last (a ∷ b ∷ l) = last (b ∷ l)

  pub find-last : (l : List A) (a : A) → Distinct l → last l ≡ some a → find (key a) l ≡ some a
  unfolding find last
  find-last [] a d h = cc
  find-last (b ∷ []) a d h = ground arith
  find-last (b ∷ c ∷ l) a d h = ground (arith, find-last (c ∷ l) a, find-key (key b) (c ∷ l) a)

  -- Without its last item a list is a shorter front of itself.
  pub unlink-last :
      (n : ℕ) (l : List A) (a : A)
      → Distinct l
      → length l ≡ suc n
      → last l ≡ some a
      → unlink (key a) l ≡ take n l
  unfolding last unlink find
  unlink-last n [] a d e h = cc
  unlink-last zero (b ∷ []) a d e h = ground arith
  unlink-last (suc n) (b ∷ []) a d e h = absurd (omega arith)
  unlink-last zero (b ∷ c ∷ l) a d e h = absurd (omega arith)
  unlink-last (suc n) (b ∷ c ∷ l) a d e h =
      ground (arith, unlink-last n (c ∷ l) a, find-last (c ∷ l) a)

  pub last-some : (n : ℕ) (l : List A) → length l ≡ suc n → (a : A) × (last l ≡ some a)
  unfolding last
  last-some n [] e = absurd (omega arith)
  last-some n (b ∷ []) e = (b, refl)
  last-some n (b ∷ c ∷ l) e = last-some (length l) (c ∷ l) refl

  pub last-get_elem? : (n : ℕ) (l : List A) → length l ≡ suc n → last l ≡ get_elem? l n
  unfolding last
  last-get_elem? n [] e = absurd (omega arith)
  last-get_elem? zero (b ∷ []) e = refl
  last-get_elem? (suc n) (b ∷ []) e = absurd (omega arith)
  last-get_elem? zero (b ∷ c ∷ l) e = absurd (omega arith)
  last-get_elem? (suc n) (b ∷ c ∷ l) e = last-get_elem? n (c ∷ l) (omega arith)
