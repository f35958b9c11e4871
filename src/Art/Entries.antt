-- ===== src/Art/Entries.antt =====
-- art/tree.go: the entries of a tree in order, and a walk over a list of them.
use mathlib.Core.List.{append_assoc, append-nil}
use yakutil.Base.{
  ℕ, ◌≡◌, refl, sym, ◌∙◌, ap, Bool, true, false, Option, none, some, List, [], ◌∷◌, ◌++◌, arith,
  if◌then◌else◌,
}
use yakutil.Art.Tree.{Kind, Node, leaf, inner, Kids, end, kid}
use yakutil.Art.Paths.{IsNode, AreKids, EndsAt}
use yakutil.Art.Walk.{and_on, visit, for_each, for_each_child}

-- The key has the path before it.
abbrev pub Under : List ℕ → List ℕ → Type 0
Under q k = (e : List ℕ) × (k ≡ q ++ e)

pub Under-back : (p q k : List ℕ) → Under (p ++ q) k → Under p k
Under-back p q k (e, is_k) = (q ++ e, is_k ∙ append_assoc p q e)

module _ {V : Type 0} where
  abbrev pub term_entries : Option (List ℕ × V) → List (List ℕ × V)
  term_entries none = []
  term_entries (some e) = e ∷ []

  unfoldable mutual
    pub entries : Node V → List (List ℕ × V)
    entries (leaf k v) = (k, v) ∷ []
    entries (inner kind pfx term kids) = term_entries term ++ kids_entries kids

    pub kids_entries : Kids V → List (List ℕ × V)
    kids_entries end = []
    kids_entries (kid b n l) = entries n ++ kids_entries l

  -- The entries with a key that passes the test.
  abbrev pub filter : (List ℕ → Bool) → List (List ℕ × V) → List (List ℕ × V)
  filter test [] = []
  filter test ((k, v) ∷ l) = let rest = filter test l in if test k then (k, v) ∷ rest else rest

  pub filter-append :
      (test : List ℕ → Bool) (l m : List (List ℕ × V))
      → filter test (l ++ m) ≡ filter test l ++ filter test m
  filter-append test [] m = refl
  filter-append test ((k, v) ∷ l) m = ground (arith, filter-append test l m)

  -- All keys satisfy `P`.
  abbrev pub All : (List ℕ → Type 0) → List (List ℕ × V) → Type 0
  All P [] = Unit
  All P ((k, v) ∷ l) = P k × All P l

  pub All-append :
      (P : List ℕ → Type 0) (l m : List (List ℕ × V)) → All P l → All P m → All P (l ++ m)
  All-append P [] m a b = b
  All-append P ((k, v) ∷ l) m (h, a) b = (h, All-append P l m a b)

  pub All-map :
      (P Q : List ℕ → Type 0) (l : List (List ℕ × V))
      → ((k : List ℕ) → P k → Q k)
      → All P l
      → All Q l
  All-map P Q [] f a = tt
  All-map P Q ((k, v) ∷ l) f (h, a) = (f k h, All-map P Q l f a)

  pub filter-keeps :
      (test : List ℕ → Bool) (l : List (List ℕ × V))
      → All (λ k. test k ≡ true) l
      → filter test l ≡ l
  filter-keeps test [] a = refl
  filter-keeps test ((k, v) ∷ l) (h, a) = rw (h, filter-keeps test l a) refl

  pub filter-none :
      (test : List ℕ → Bool) (l : List (List ℕ × V))
      → All (λ k. test k ≡ false) l
      → filter test l ≡ []
  filter-none test [] a = refl
  filter-none test ((k, v) ∷ l) (h, a) = rw (h, filter-none test l a) refl

  term_entries-All :
      (q : List ℕ) (term : Option (List ℕ × V)) → EndsAt q term → All (Under q) (term_entries term)
  term_entries-All q none ends = tt
  term_entries-All q (some (k, v)) is_k = (([], is_k ∙ sym (append-nil q)), tt)

  mutual
    unfolding entries IsNode

    pub entries-All : (n : Node V) (p : List ℕ) → IsNode p n → All (Under p) (entries n)
    entries-All (leaf k v) p under = (under, tt)
    entries-All (inner kind pfx term kids) p (ends, good) =
        All-map (Under (p ++ pfx)) (Under p) (term_entries term ++ kids_entries kids)
          (Under-back p pfx)
          (All-append (Under (p ++ pfx)) (term_entries term) (kids_entries kids)
            (term_entries-All (p ++ pfx) term ends) (kids_entries-All kids (p ++ pfx) good))

    pub kids_entries-All : (l : Kids V) (q : List ℕ) → AreKids q l → All (Under q) (kids_entries l)
    kids_entries-All end q good = tt
    kids_entries-All (kid b n l) q (at, above, good) =
        All-append (Under q) (entries n) (kids_entries l)
          (All-map (Under (q ++ (b ∷ []))) (Under q) (entries n) (Under-back q (b ∷ []))
            (entries-All n (q ++ (b ∷ [])) at))
          (kids_entries-All l q good)

-- The keys at an inner node have its prefix too.
pub entries-All_inner :
    {V : Type 0} (kind : Kind) (p pfx : List ℕ) (term : Option (List ℕ × V)) (kids : Kids V)
    → IsNode p (inner kind pfx term kids)
    → All (Under (p ++ pfx)) (entries (inner kind pfx term kids))
unfolding entries IsNode
entries-All_inner kind p pfx term kids (ends, good) =
    All-append (Under (p ++ pfx)) (term_entries term) (kids_entries kids)
      (term_entries-All (p ++ pfx) term ends) (kids_entries-All kids (p ++ pfx) good)

pub and_on_assoc :
    {S : Type 0} (r : Bool × S) (f g : S → Bool × S)
    → and_on (and_on r f) g ≡ and_on r (λ s. and_on (f s) g)
and_on_assoc (true, s) f g = refl
and_on_assoc (false, s) f g = refl

pub and_on-done : {S : Type 0} (r : Bool × S) → and_on r (λ s. (true, s)) ≡ r
and_on-done (true, s) = refl
and_on-done (false, s) = refl

module _ {V : Type 0} {S : Type 0} (fn : S → List ℕ → V → Bool × S) where
  -- The callback on one entry after another, until it returns false.
  abbrev pub walk : List (List ℕ × V) → S → Bool × S
  walk [] s = (true, s)
  walk ((k, v) ∷ l) s = and_on (fn s k v) (λ s'. walk l s')

  pub walk-append :
      (l m : List (List ℕ × V)) (s : S) → walk (l ++ m) s ≡ and_on (walk l s) (λ s'. walk m s')
  walk-append [] m s = refl
  walk-append ((k, v) ∷ l) m s =
      ap (and_on (fn s k v)) (λ i s'. walk-append l m s' i)
      ∙ sym (and_on_assoc (fn s k v) (λ s'. walk l s') (λ s'. walk m s'))

  -- Two walks one after the other are a walk over both lists.
  pub walk-both :
      (l m : List (List ℕ × V)) (f g : S → Bool × S)
      → ((s : S) → f s ≡ walk l s)
      → ((s : S) → g s ≡ walk m s)
      → (s : S) → and_on (f s) g ≡ walk (l ++ m) s
  walk-both l m f g first later s =
      ap (λ r. and_on r g) (first s)
      ∙ (ap (and_on (walk l s)) (λ i s'. later s' i) ∙ sym (walk-append l m s))

  walk-visit : (term : Option (List ℕ × V)) (s : S) → visit fn term s ≡ walk (term_entries term) s
  walk-visit none s = refl
  walk-visit (some (k, v)) s = sym (and_on-done (fn s k v))

  mutual
    unfolding for_each entries

    pub for_each-walk : (n : Node V) (s : S) → for_each fn n s ≡ walk (entries n) s
    for_each-walk (leaf k v) s = sym (and_on-done (fn s k v))
    for_each-walk (inner kind pfx term kids) s =
        walk-both (term_entries term) (kids_entries kids) (visit fn term)
          (λ s'. for_each_child fn kids s') (walk-visit term) (for_each_child-walk kids) s

    pub for_each_child-walk : (l : Kids V) (s : S) → for_each_child fn l s ≡ walk (kids_entries l) s
    for_each_child-walk end s = refl
    for_each_child-walk (kid b n l) s =
        walk-both (entries n) (kids_entries l) (for_each fn n) (λ s'. for_each_child fn l s')
          (for_each-walk n) (for_each_child-walk l) s

  pub walk-filter-both :
      (test : List ℕ → Bool) (l m : List (List ℕ × V)) (f g : S → Bool × S)
      → ((s : S) → f s ≡ walk (filter test l) s)
      → ((s : S) → g s ≡ walk (filter test m) s)
      → (s : S) → and_on (f s) g ≡ walk (filter test (l ++ m)) s
  walk-filter-both test l m f g first later s =
      walk-both (filter test l) (filter test m) f g first later s
      ∙ ap (λ x. walk x s) (sym (filter-append test l m))

  -- A subtree whose keys all pass the test is walked as a whole.
  pub walk-whole :
      (test : List ℕ → Bool) (n : Node V) (p : List ℕ)
      → All (Under p) (entries n)
      → ((e : List ℕ) → test (p ++ e) ≡ true)
      → (s : S) → for_each fn n s ≡ walk (filter test (entries n)) s
  walk-whole test n p good each s =
      for_each-walk n s
      ∙ ap (λ x. walk x s)
          (sym (
            filter-keeps test (entries n) (
              All-map (Under p) (λ k. test k ≡ true) (entries n)
                (λ k (e, is_k). ap test is_k ∙ each e) good)))

  pub walk-whole_children :
      (test : List ℕ → Bool) (l : Kids V) (q : List ℕ)
      → AreKids q l
      → ((b : ℕ) (e : List ℕ) → test (q ++ (b ∷ e)) ≡ true)
      → (s : S) → for_each_child fn l s ≡ walk (filter test (kids_entries l)) s
  unfolding for_each entries IsNode
  walk-whole_children test end q good each s = refl
  walk-whole_children test (kid b n l) q (at, above, good) each s =
      walk-filter-both test (entries n) (kids_entries l) (for_each fn n)
        (λ s'. for_each_child fn l s')
        (walk-whole test n (q ++ (b ∷ [])) (entries-All n (q ++ (b ∷ [])) at)
          (λ e. ap test (append_assoc q (b ∷ []) e) ∙ each b e))
        (walk-whole_children test l q good each) s

-- A subtree without a key that passes the test.
pub filter-nothing :
    {V : Type 0} (test : List ℕ → Bool) (n : Node V) (p : List ℕ)
    → All (Under p) (entries n)
    → ((e : List ℕ) → test (p ++ e) ≡ false)
    → filter test (entries n) ≡ []
filter-nothing test n p good each = filter-none test (entries n) (
    All-map (Under p) (λ k. test k ≡ false) (entries n) (λ k (e, is_k). ap test is_k ∙ each e) good)
