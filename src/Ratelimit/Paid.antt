-- ===== src/Ratelimit/Paid.antt =====
-- ratelimit/ratelimit.go: the time since the start pays for the tokens beyond the burst.
use native.Mathlib.Nat.{mul-add, mul-le-mul_left, mul_comm, div-mul-le_self}
use mathlib.Core.Path.{subst}
use yakutil.Base.{
  ℕ, zero, suc, ◌+◌, ◌-◌, ◌*◌, ◌/◌, ◌≤◌, ◌≡◌, refl, ap, inl, inr, some, List, [], ◌∷◌, arith, ltb,
  ◌==◌, ==_iff, Bool-cases, min, get_elem?, set,
}
use yakutil.Ratelimit.Bucket.{Limiter, origin, sum_of, tokens_due}
use yakutil.Ratelimit.Calls.{
  Caller, resting, looping, timed, claiming, refilling, topping, beaten, deciding, load_tokens,
  claim, top_up, take, System,
}

-- The tokens that a call has claimed and not yet added.
abbrev pub owed : Caller → ℕ
owed resting = 0
owed (looping need now) = 0
owed (timed need now last) = 0
owed (claiming need now last) = 0
owed (refilling need now add) = add
owed (topping need now add tok) = add
owed (beaten need now) = 0
owed (deciding need now cur) = 0

abbrev pub time_of : Caller → ℕ
time_of resting = 0
time_of (looping need now) = now
time_of (timed need now last) = now
time_of (claiming need now last) = now
time_of (refilling need now add) = now
time_of (topping need now add tok) = now
time_of (beaten need now) = now
time_of (deciding need now cur) = now

abbrev pub all_owed : List Caller → ℕ
all_owed [] = 0
all_owed (c ∷ cs) = owed c + all_owed cs

abbrev pub Timely : ℕ → List Caller → Type 0
Timely upto [] = Unit
Timely upto (c ∷ cs) = (time_of c ≤ upto) × Timely upto cs

all_owed-set :
    (cs : List Caller) (i : ℕ) (c c' : Caller)
    → get_elem? cs i ≡ some c
    → all_owed (set cs i c') + owed c ≡ all_owed cs + owed c'
all_owed-set [] i c c' at = cc
all_owed-set (d ∷ cs) zero c c' at = let one : d ≡ c = cc in rw one (omega arith)
all_owed-set (d ∷ cs) (suc i) c c' at = omega (arith, all_owed-set cs i c c' at)

pub Timely-set :
    (upto : ℕ) (cs : List Caller) (i : ℕ) (c : Caller)
    → time_of c ≤ upto
    → Timely upto cs
    → Timely upto (set cs i c)
Timely-set upto [] i c h all = tt
Timely-set upto (d ∷ cs) zero c h (at, all) = (h, all)
Timely-set upto (d ∷ cs) (suc i) c h (at, all) = (at, Timely-set upto cs i c h all)

pub Timely-get :
    (upto : ℕ) (cs : List Caller) (i : ℕ) (c : Caller)
    → get_elem? cs i ≡ some c
    → Timely upto cs
    → time_of c ≤ upto
Timely-get upto [] i c at all = cc
Timely-get upto (d ∷ cs) zero c at (h, all) = let one : d ≡ c = cc in rw (← one) h
Timely-get upto (d ∷ cs) (suc i) c at (h, all) = Timely-get upto cs i c at all

-- With `w` tokens in the bucket (none if they are below zero), owed to it or gone through, the time up to the last refill has paid
-- for all beyond the first `burst`.
abbrev pub Paid : ℕ → ℕ → ℕ → ℕ → ℕ → Type 0
Paid interval burst start w last = interval * w + start ≤ interval * burst + last

pub Paid-less :
    (interval burst start w w' last : ℕ)
    → w' ≤ w
    → Paid interval burst start w last
    → Paid interval burst start w' last
Paid-less interval burst start w w' last less paid =
    omega (arith, mul-le-mul_left {m = w'} {n = w} interval less)

Paid-more :
    (interval burst start w add last : ℕ)
    → Paid interval burst start w last
    → Paid interval burst start (w + add) (last + add * interval)
Paid-more interval burst start w add last paid =
    omega (arith, mul-add interval w add, mul_comm interval add)

-- Everything is paid for up to the reading `upto` of the clock.
pub record Inv (interval burst start upto : ℕ) (s : System) : Type 0 where
  pub same_interval : s.limiter.interval ≡ interval
  pub timely : Timely upto s.callers
  pub in_time : s.limiter.last_nano ≤ upto
  pub paid :
      Paid interval burst start
        (s.limiter.tokens - origin + all_owed s.callers + s.granted)
        s.limiter.last_nano

-- A step that only moves a call on.
pub moved_on :
    (interval burst start upto : ℕ) (l : Limiter) (cs : List Caller) (g i : ℕ) (c c' : Caller)
    → get_elem? cs i ≡ some c
    → time_of c' ≤ upto
    → owed c' ≤ owed c
    → Inv interval burst start upto (record { limiter = l; callers = cs; granted = g })
    → Inv interval burst start upto (record { limiter = l; callers = set cs i c'; granted = g })
moved_on interval burst start upto l cs g i c c' at h less inv = record {
  same_interval = inv.same_interval;
  timely = Timely-set upto cs i c' h inv.timely;
  in_time = inv.in_time;
  paid =
      Paid-less interval burst start (l.tokens - origin + all_owed cs + g)
        (l.tokens - origin + all_owed (set cs i c') + g) l.last_nano
        (omega (arith, all_owed-set cs i c c' at)) inv.paid;
}

pub load_tokens-owed :
    (l : Limiter) (need now last : ℕ)
    → (owed (load_tokens l need now last) ≡ 0) × (time_of (load_tokens l need now last) ≡ now)
unfolding load_tokens
load_tokens-owed l need now last = elim (Bool-cases (ltb 0 (tokens_due l now last))) [
  | inl some_due ↦ rw some_due (refl, refl)
  | inr none_due ↦ rw none_due (refl, refl)
]

pub claim-Inv :
    (interval burst start upto : ℕ) (l : Limiter) (cs : List Caller) (g i need now last : ℕ)
    → get_elem? cs i ≡ some (claiming need now last)
    → Inv interval burst start upto (record { limiter = l; callers = cs; granted = g })
    → Inv interval burst start upto (record {
      limiter = (claim l need now last).0;
      callers = set cs i ((claim l need now last).1);
      granted = g;
    })
unfolding claim tokens_due
claim-Inv interval burst start upto l cs g i need now last at inv =
    let h : now ≤ upto = Timely-get upto cs i (claiming need now last) at inv.timely in
    elim (Bool-cases (l.last_nano == last)) [
      | inl won ↦
          let is_last : l.last_nano ≡ last = (==_iff l.last_nano last).0 won in
          let add = (now - last) / l.interval in
          let c' = refilling need now add in
          rw won (record {
            same_interval = inv.same_interval;
            timely = Timely-set upto cs i c' h inv.timely;
            in_time = omega (arith, inv.in_time, div-mul-le_self (now - last) l.interval);
            paid =
                Paid-less interval burst start (l.tokens - origin + all_owed cs + g + add)
                  (l.tokens - origin + all_owed (set cs i c') + g) (last + add * l.interval)
                  (omega (arith, all_owed-set cs i (claiming need now last) c' at))
                  (omega (
                    arith,
                    Paid-more interval burst start (l.tokens - origin + all_owed cs + g) add
                        l.last_nano inv.paid,
                    ap (λ x. add * x) inv.same_interval,
                  ));
          })
      | inr lost ↦ rw lost (
          moved_on interval burst start upto l cs g i (claiming need now last) (beaten need now) at
            h (omega arith) inv)
    ]

pub top_up-Inv :
    (interval burst start upto : ℕ) (l : Limiter) (cs : List Caller) (g i need now add tok : ℕ)
    → get_elem? cs i ≡ some (topping need now add tok)
    → Inv interval burst start upto (record { limiter = l; callers = cs; granted = g })
    → Inv interval burst start upto (record {
      limiter = (top_up l need now add tok).0;
      callers = set cs i ((top_up l need now add tok).1);
      granted = g;
    })
unfolding top_up sum_of
top_up-Inv interval burst start upto l cs g i need now add tok at inv =
    let h : now ≤ upto = Timely-get upto cs i (topping need now add tok) at inv.timely in
    elim (Bool-cases (l.tokens == tok)) [
      | inl won ↦
          let is_tok : l.tokens ≡ tok = (==_iff l.tokens tok).0 won in
          let new_tok = min (sum_of tok add) (origin + l.burst) in
          let c' = deciding need now new_tok in
          rw won (record {
            same_interval = inv.same_interval;
            timely = Timely-set upto cs i c' h inv.timely;
            in_time = inv.in_time;
            paid =
                Paid-less interval burst start (l.tokens - origin + all_owed cs + g)
                  (new_tok - origin + all_owed (set cs i c') + g) l.last_nano
                  (omega (arith, all_owed-set cs i (topping need now add tok) c' at)) inv.paid;
          })
      | inr lost ↦ rw lost (
          moved_on interval burst start upto l cs g i (topping need now add tok)
            (refilling need now add) at h (omega arith) inv)
    ]

pub take-Inv :
    (interval burst start upto : ℕ) (l : Limiter) (cs : List Caller) (g i need now cur : ℕ)
    → get_elem? cs i ≡ some (deciding need now cur)
    → origin + need ≤ cur
    → Inv interval burst start upto (record { limiter = l; callers = cs; granted = g })
    → Inv interval burst start upto (record {
      limiter = (take l need now cur).0;
      callers = set cs i ((take l need now cur).1);
      granted = g + (take l need now cur).2;
    })
unfolding take
take-Inv interval burst start upto l cs g i need now cur at enough inv =
    let h : now ≤ upto = Timely-get upto cs i (deciding need now cur) at inv.timely in
    elim (Bool-cases (l.tokens == cur)) [
      | inl won ↦
          let is_cur : l.tokens ≡ cur = (==_iff l.tokens cur).0 won in
          rw won (record {
            same_interval = inv.same_interval;
            timely = Timely-set upto cs i resting (omega arith) inv.timely;
            in_time = inv.in_time;
            paid =
                Paid-less interval burst start (l.tokens - origin + all_owed cs + g)
                  (cur - need - origin + all_owed (set cs i resting) + (g + need)) l.last_nano
                  (omega (arith, all_owed-set cs i (deciding need now cur) resting at)) inv.paid;
          })
      | inr lost ↦ rw lost (
          subst
            (λ x.
              Inv interval burst start upto
                (record { limiter = l; callers = set cs i (looping need now); granted = x }))
            (omega arith)
            (moved_on interval burst start upto l cs g i (deciding need now cur) (looping need now)
              at h (omega arith) inv))
    ]
