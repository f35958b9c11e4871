-- ===== src/Ratelimit/Collects.antt =====
-- ratelimit/ipmap.go: what the callbacks of Range collect, in whatever order.
use mathlib.Core.Path.{ap₂, subst}
use mathlib.Core.Logic.{ite, ∥∥₁_elim}
use mathlib.Core.Bool.{Bool-set}
use mathlib.Core.List.Perm
use mathlib.Core.List.{Perm, Permᴰ, Perm-prop, append_assoc, append-nil, perm_append_comm}
use yakutil.Base.{◌≡◌, refl, sym, ◌∙◌, ap, Bool, true, false, List, [], ◌∷◌, ◌++◌, arith}
use yakutil.Smap.Shards.{Shard, range, range_shard, and_on}
use yakutil.Smap.Entries.{entries}
use yakutil.Smap.Ranges.{range-perm}

module _ {K V B : Type 0} (pick : K × V → List B) where
  -- what is picked of each entry, one after the other
  abbrev pub picked : List (K × V) → List B
  picked [] = []
  picked (x ∷ l) = pick x ++ picked l

  picked-permᴰ : {l m : List (K × V)} → Permᴰ l m → Perm (picked l) (picked m)
  picked-permᴰ Permᴰ.nil = Perm.refl []
  picked-permᴰ (Permᴰ.cons {b = b} e p) = rw e (Perm.append_left (pick b) (picked-permᴰ p))
  picked-permᴰ (Permᴰ.swap {a' = a'} {b' = b'} {l = l} e e') =
      rw (e, e', ← append_assoc, ← append_assoc)
        (Perm.append_right (picked l) (perm_append_comm (pick b') (pick a')))
  picked-permᴰ (Permᴰ.trans p q) = Perm.trans (picked-permᴰ p) (picked-permᴰ q)

  picked-perm : (l m : List (K × V)) → Perm l m → Perm (picked l) (picked m)
  picked-perm l m p = ∥∥₁_elim p Perm-prop picked-permᴰ

  module _ (fn : List B → K → V → Bool × List B)
      (always : (acc : List B) (k : K) (v : V) → fn acc k v ≡ (true, acc ++ pick (k, v))) where
    range_shard-picked :
        (l : Shard K V) (acc : List B) → range_shard fn l acc ≡ (true, acc ++ picked l)
    unfolding range_shard
    range_shard-picked [] acc = ap (λ x. (true, x)) (sym (append-nil acc))
    range_shard-picked ((k, v) ∷ l) acc =
        ap (λ r. and_on r (range_shard fn l)) (always acc k v)
        ∙ (range_shard-picked l (acc ++ pick (k, v))
            ∙ ap (λ x. (true, x)) (append_assoc acc (pick (k, v)) (picked l)))

    -- Range collects what is picked of the entries, in some order.
    pub range-picked :
        (order : Shard K V → Shard K V) (l : List (Shard K V))
        → ((m : Shard K V) → Perm (order m) m)
        → Perm (range order fn l []).1 (picked (entries l))
    range-picked order l h =
        let (visited, p, e) = range-perm fn order l [] h in
        let all : (range order fn l []).1 ≡ picked visited =
          ap (λ r. r.1) (e ∙ range_shard-picked visited []) in
        rw all (picked-perm visited (entries l) p)

module _ {K : Type 0} (dec : Discrete K) where
  abbrev pub listed : K → List K → Bool
  listed k [] = false
  listed k (j ∷ l) = ite (dec j k) true (listed k l)

  -- No key twice.
  abbrev pub Once : List K → Type 0
  Once [] = Unit {0}
  Once (k ∷ l) = (listed k l ≡ false) × Once l

  listed-permᴰ : {l m : List K} → Permᴰ l m → (k : K) → listed k l ≡ listed k m
  listed-permᴰ Permᴰ.nil k = refl
  listed-permᴰ (Permᴰ.cons {a = a} {b = b} e p) k = rw e (ground (arith, listed-permᴰ p k))
  listed-permᴰ (Permᴰ.swap {a' = a'} {b' = b'} {l = l} e e') k = rw (e, e') (ground arith)
  listed-permᴰ (Permᴰ.trans p q) k = listed-permᴰ p k ∙ listed-permᴰ q k

  pub listed-perm : (l m : List K) → Perm l m → (k : K) → listed k l ≡ listed k m
  listed-perm l m p k = ∥∥₁_elim p (Bool-set _ _) (λ d. listed-permᴰ d k)

  Once-swap : (a b : K) (l : List K) → Once (a ∷ b ∷ l) → Once (b ∷ a ∷ l)
  Once-swap a b l h = ground arith

  Once-permᴰ : {l m : List K} → Permᴰ l m → Once l → Once m
  Once-permᴰ Permᴰ.nil h = tt
  Once-permᴰ (Permᴰ.cons {a = a} {b = b} {l₂ = m} e p) h =
      (ap (λ k. listed k m) (sym e) ∙ (sym (listed-permᴰ p a) ∙ h.0), Once-permᴰ p h.1)
  Once-permᴰ (Permᴰ.swap {a = a} {b = b} {b' = b'} {l = l} e e') h =
      subst (λ x. Once (x ∷ b' ∷ l)) e' (subst (λ y. Once (b ∷ y ∷ l)) e (Once-swap a b l h))
  Once-permᴰ (Permᴰ.trans p q) h = Once-permᴰ q (Once-permᴰ p h)

  Once-prop : (l : List K) (p q : Once l) → p ≡ q
  Once-prop [] p q = refl
  Once-prop (k ∷ l) p q = ap₂ (λ a b. (a, b)) (Bool-set _ _ p.0 q.0) (Once-prop l p.1 q.1)

  pub Once-perm : (l m : List K) → Perm l m → Once l → Once m
  Once-perm l m p h = ∥∥₁_elim p (Once-prop m) (λ d. Once-permᴰ d h)
