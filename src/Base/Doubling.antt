-- ===== src/Base/Doubling.antt =====
-- The loop `for test(sz) { sz <<= 1 }` over a Go `int`, by which the containers round a capacity up
-- to a power of two. A doubling past the largest `int` gives a negative number and then 0, at which
-- the test still holds, so the loop never ends: that is `none`, as is running out of fuel.
use Prim.Native.Nat.{ℕ, zero, suc, ◌+◌, ◌*◌, ◌^◌, ◌≤◌, ◌<◌}
use mathlib.Core.Path.{◌≡◌, refl, ◌∙◌}
use mathlib.Core.Logic.{◌⊎◌, inl, inr}
use mathlib.Core.Bool.{Bool, true}
use mathlib.Core.Option.{Option, none, some}
use native.Mathlib.Omega.{arith}
use native.Mathlib.Decide.{dec_lt}
use yakutil.Base.Tests.{ltb, ltb→lt, lt→ltb, if◌then◌else◌, Bool-cases}
use yakutil.Base.Bits.{two-pow-suc, two-pow-le}

abbrev pub int_limit : ℕ
int_limit = 2 ^ 63

unfoldable pub double_while : (ℕ → Bool) → ℕ → ℕ → Option ℕ
double_while test zero sz = none
double_while test (suc fuel) sz =
    let rest = if ltb (sz * 2) int_limit then double_while test fuel (sz * 2) else none in
    if test sz then rest else some sz

-- The rounds that any caller needs: an `int` doubles at most 63 times.
abbrev pub int_rounds : ℕ
int_rounds = 64

-- `2 ^ k` is the first doubling of `2 ^ j` that reaches `n`.
pub record Rounded (j n : ℕ) (result : Option ℕ) : Type 0 where
  pub k : ℕ
  pub found : result ≡ some (2 ^ k)
  pub from : j ≤ k
  pub fits : k ≤ 62
  pub enough : n ≤ 2 ^ k
  pub least : (k ≡ j) ⊎ (2 ^ k < 2 * n)

two-pow_above : (j : ℕ) {n : ℕ} → 2 ^ j < n → n ≤ 2 ^ 62 → j < 62
two-pow_above j lt small = elim (dec_lt j 62) [
  | yes h ↦ h
  | no h ↦ absurd (omega (arith, two-pow-le 62 j (omega arith)))
]

-- One more doubling, whose first power counts as reached from `2 ^ j` too.
Rounded-next :
    {j n : ℕ} {result result' : Option ℕ}
    → 2 ^ j < n
    → result' ≡ result
    → Rounded (suc j) n result
    → Rounded j n result'
Rounded-next {j} {n} lt e r = record {
  k = r.k;
  found = e ∙ r.found;
  from = omega (arith, r.from);
  fits = r.fits;
  enough = r.enough;
  least = elim (r.least) [
    | inl same ↦ inr (rw same (omega (arith, two-pow-suc j)))
    | inr least ↦ inr least
  ];
}

-- Sixty-two doublings reach any `n` up to the largest power of two that is an `int`.
pub double_while-Rounded :
    (test : ℕ → Bool) (n fuel j : ℕ)
    → ((s : ℕ) → 2 ^ j ≤ s → test s ≡ ltb s n)
    → n ≤ 2 ^ 62
    → j ≤ 62
    → 62 < fuel + j
    → Rounded j n (double_while test fuel (2 ^ j))
unfolding double_while
double_while-Rounded test n zero j same small low rounds = absurd (omega arith)
double_while-Rounded test n (suc fuel) j same small low rounds = elim (Bool-cases (ltb (2 ^ j) n)) [
  | inl more ↦
      let below : j < 62 = two-pow_above j (ltb→lt _ _ more) small in
      Rounded-next (ltb→lt _ _ more) (again more below) (
        double_while-Rounded test n fuel (suc j) (λ s le. same s (omega (arith, two-pow-suc j)))
          small (omega arith) (omega arith))
  | inr done ↦ record {
    k = j;
    found = rw (same (2 ^ j) (omega arith), done) refl;
    from = omega arith;
    fits = low;
    enough = ground arith;
    least = inl refl;
  }
]
  where
    again :
        ltb (2 ^ j) n ≡ true
        → j < 62
        → double_while test (suc fuel) (2 ^ j) ≡ double_while test fuel (2 ^ suc j)
    again more below =
        rw (same (2 ^ j) (omega arith), more, twice, lt→ltb (2 ^ suc j) int_limit fits)
      where
        twice : 2 ^ j * 2 ≡ 2 ^ suc j
        twice = omega (arith, two-pow-suc j)

        fits : 2 ^ suc j < int_limit
        fits = omega (arith, two-pow-le (suc j) 62 below)
