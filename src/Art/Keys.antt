-- ===== src/Art/Keys.antt =====
-- art/tree.go: keys as lists of bytes, and how the code compares parts of them. The position `depth`
-- in a key is kept as what follows it: `checkPrefix(key, depth)` and `depth += len(prefix)` are
-- `strip`, of the prefix from the rest of the key.
use yakutil.Base.{
  ℕ, suc, ◌≡◌, ◌≢◌, inl, inr, refl, ap, Bool, true, false, Option, none, some, List, [], ◌∷◌, ◌++◌,
  arith, ◌==◌, ==_iff, Bool-cases, Option-cases, if◌then◌else◌, length, drop, ◌>>=◌,
}

-- `a == b`, of strings
abbrev pub same : List ℕ → List ℕ → Bool
same [] [] = true
same [] (c ∷ b) = false
same (c ∷ a) [] = false
same (c ∷ a) (d ∷ b) = let rest = same a b in if c == d then rest else false

-- `checkPrefix`, with the rest of the key behind the prefix
unfoldable pub strip : List ℕ → List ℕ → Option (List ℕ)
strip [] s = some s
strip (b ∷ p) [] = none
strip (b ∷ p) (c ∷ s) = let rest = strip p s in if b == c then rest else none

-- `prefixMismatch`
unfoldable pub prefix_mismatch : List ℕ → List ℕ → ℕ
prefix_mismatch [] s = 0
prefix_mismatch (b ∷ p) [] = 0
prefix_mismatch (b ∷ p) (c ∷ s) = let rest = prefix_mismatch p s in if b == c then suc rest else 0

pub same-eq : (a b : List ℕ) → same a b ≡ true → a ≡ b
same-eq [] [] h = refl
same-eq [] (c ∷ b) h = cc
same-eq (c ∷ a) [] h = cc
same-eq (c ∷ a) (d ∷ b) h = ground (arith, same-eq a b)

pub same_refl : (a : List ℕ) → same a a ≡ true
same_refl [] = refl
same_refl (c ∷ a) = ground (arith, same_refl a)

pub same-append : (p a b : List ℕ) → same (p ++ a) (p ++ b) ≡ same a b
same-append [] a b = refl
same-append (c ∷ p) a b = ground (arith, same-append p a b)

pub strip-some : (q s : List ℕ) {r : List ℕ} → strip q s ≡ some r → s ≡ q ++ r
unfolding strip
strip-some [] s h = cc
strip-some (b ∷ q) [] h = cc
strip-some (b ∷ q) (c ∷ s) {r} h = ground (arith, strip-some q s {r = r})

pub strip-append : (q r : List ℕ) → strip q (q ++ r) ≡ some r
unfolding strip
strip-append [] r = refl
strip-append (b ∷ q) r = ground (arith, strip-append q r)

-- A test for the key that goes on with `r` behind `q` may wait until `q` has been taken off.
pub if-same-strip :
    {V : Type 0} (q r t : List ℕ) (o : Option V) (f : List ℕ → Option V)
    → (if same (q ++ r) t then o else (strip q t >>= f))
      ≡ (strip q t >>= λ t'. if same r t' then o else f t')
unfolding strip
if-same-strip [] r t o f = refl
if-same-strip (b ∷ q) r [] o f = refl
if-same-strip (b ∷ q) r (c ∷ t) o f = ground (arith, if-same-strip q r t o f)

-- What follows `q` in a key decides.
pub strip-ext :
    {V : Type 0} (q t : List ℕ) (f g : List ℕ → Option V)
    → ((t' : List ℕ) → t ≡ q ++ t' → f t' ≡ g t')
    → (strip q t >>= f) ≡ (strip q t >>= g)
strip-ext q t f g h = elim (Option-cases (strip q t)) [
  | inl off ↦ rw off refl
  | inr (r, on) ↦ rw on (h r (strip-some q t on))
]

pub strip-concat :
    {V : Type 0} (p q t : List ℕ) (f : List ℕ → Option V)
    → (strip (p ++ q) t >>= f) ≡ (strip p t >>= λ r. strip q r >>= f)
unfolding strip
strip-concat [] q t f = refl
strip-concat (b ∷ p) q [] f = refl
strip-concat (b ∷ p) q (c ∷ t) f = ground (arith, strip-concat p q t f)

-- Two strings do not go on with the same byte.
abbrev pub HeadsDiffer : List ℕ → List ℕ → Type 0
HeadsDiffer [] b = Unit
HeadsDiffer (x ∷ a) [] = Unit
HeadsDiffer (x ∷ a) (y ∷ b) = x ≢ y

-- The common part of two strings, of length `m`, and what follows it.
pub record Forked (m : ℕ) (a b : List ℕ) : Type 0 where
  pub common : List ℕ
  pub after_a : List ℕ
  pub after_b : List ℕ
  pub at : m ≡ length common
  pub of_a : a ≡ common ++ after_a
  pub of_b : b ≡ common ++ after_b
  pub apart : HeadsDiffer after_a after_b

pub prefix_mismatch-Forked : (a b : List ℕ) → Forked (prefix_mismatch a b) a b
unfolding prefix_mismatch
prefix_mismatch-Forked [] b = record {
  common = [];
  after_a = [];
  after_b = b;
  at = refl;
  of_a = refl;
  of_b = refl;
  apart = tt;
}
prefix_mismatch-Forked (x ∷ a) [] = record {
  common = [];
  after_a = x ∷ a;
  after_b = [];
  at = refl;
  of_a = refl;
  of_b = refl;
  apart = tt;
}
prefix_mismatch-Forked (x ∷ a) (y ∷ b) = elim (Bool-cases (x == y)) [
  | inl e ↦
      let f = prefix_mismatch-Forked a b in
      let here : x ≡ y = (==_iff x y).0 e in
      rw e (record {
        common = x ∷ f.common;
        after_a = f.after_a;
        after_b = f.after_b;
        at = ap suc f.at;
        of_a = ap (λ l. x ∷ l) f.of_a;
        of_b = rw here (ap (λ l. y ∷ l) f.of_b);
        apart = f.apart;
      })
  | inr n ↦ rw n (record {
    common = [];
    after_a = x ∷ a;
    after_b = y ∷ b;
    at = refl;
    of_a = refl;
    of_b = refl;
    apart = ground (arith, n);
  })
]

pub drop-append_left : (a b : List ℕ) → drop (length a) (a ++ b) ≡ b
drop-append_left [] b = refl
drop-append_left (x ∷ a) b = drop-append_left a b
