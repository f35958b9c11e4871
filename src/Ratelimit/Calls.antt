-- ===== src/Ratelimit/Calls.antt =====
-- ratelimit/ratelimit.go: AllowN by several goroutines, as its atomic loads and CompareAndSwaps.
use yakutil.Base.{
  ℕ, ◌+◌, ◌-◌, ◌*◌, ◌≤◌, ◌<◌, ◌≡◌, true, false, some, List, ltb, ◌==◌, if◌then◌else◌, min,
  get_elem?, set,
}
use yakutil.Ratelimit.Bucket.{Limiter, origin, sum_of, tokens_due}

-- Where a call of `AllowN` for `need` tokens stands, at the reading `now` of the clock: not begun, at
-- the top of the loop, with the time of the last refill, about to claim the refill, adding the
-- tokens it has claimed, with the tokens loaded that it adds to, after a claim that was lost, and
-- with the tokens that it compares.
pub data Caller : Type 0 where
  resting : Caller
  looping : ℕ → ℕ → Caller
  timed : ℕ → ℕ → ℕ → Caller
  claiming : ℕ → ℕ → ℕ → Caller
  refilling : ℕ → ℕ → ℕ → Caller
  topping : ℕ → ℕ → ℕ → ℕ → Caller
  beaten : ℕ → ℕ → Caller
  deciding : ℕ → ℕ → ℕ → Caller

-- `cur := l.tokens.Load()`, and whether there is something to add
unfoldable pub load_tokens : Limiter → ℕ → ℕ → ℕ → Caller
load_tokens l need now last =
    if ltb 0 (tokens_due l now last) then claiming need now last else deciding need now l.tokens

-- `l.lastNano.CompareAndSwap(last, last+add*l.interval)`
unfoldable pub claim : Limiter → ℕ → ℕ → ℕ → Limiter × Caller
claim l need now last =
    let add = tokens_due l now last in
    if l.last_nano == last
    then (record l { last_nano = last + add * l.interval }, refilling need now add)
    else (l, beaten need now)

-- `l.tokens.CompareAndSwap(tok, newTok)`
unfoldable pub top_up : Limiter → ℕ → ℕ → ℕ → ℕ → Limiter × Caller
top_up l need now add tok =
    let new_tok = min (sum_of tok add) (origin + l.burst) in
    if l.tokens == tok
    then (record l { tokens = new_tok }, deciding need now new_tok)
    else (l, refilling need now add)

-- `l.tokens.CompareAndSwap(cur, cur-need)`: the tokens that go through, and what follows
unfoldable pub take : Limiter → ℕ → ℕ → ℕ → Limiter × Caller × ℕ
take l need now cur =
    if l.tokens == cur
    then (record l { tokens = cur - need }, resting, need)
    else (l, looping need now, 0)

-- The limiter, the calls under way, and the tokens that have gone through.
pub record System : Type 0 where
  pub limiter : Limiter
  pub callers : List Caller
  pub granted : ℕ

-- One atomic step of one of the calls. The clock reads no more than `upto`. A call that divides by an
-- interval of 0 panics, and takes no further step.
pub data Step (upto : ℕ) : System → System → Type 0 where
  begins :
      (l : Limiter) (cs : List Caller) (g i need now : ℕ)
      → get_elem? cs i ≡ some resting
      → need ≤ l.burst
      → now ≤ upto
      → Step upto
          (record { limiter = l; callers = cs; granted = g })
          (record { limiter = l; callers = set cs i (looping need now); granted = g })
  loads_last :
      (l : Limiter) (cs : List Caller) (g i need now : ℕ)
      → get_elem? cs i ≡ some (looping need now)
      → Step upto
          (record { limiter = l; callers = cs; granted = g })
          (record { limiter = l; callers = set cs i (timed need now l.last_nano); granted = g })
  loads_tokens :
      (l : Limiter) (cs : List Caller) (g i need now last : ℕ)
      → get_elem? cs i ≡ some (timed need now last)
      → 0 < l.interval
      → Step upto
          (record { limiter = l; callers = cs; granted = g })
          (record { limiter = l; callers = set cs i (load_tokens l need now last); granted = g })
  claims :
      (l : Limiter) (cs : List Caller) (g i need now last : ℕ)
      → get_elem? cs i ≡ some (claiming need now last)
      → Step upto
          (record { limiter = l; callers = cs; granted = g })
          (record {
            limiter = (claim l need now last).0;
            callers = set cs i ((claim l need now last).1);
            granted = g;
          })
  loads_again :
      (l : Limiter) (cs : List Caller) (g i need now add : ℕ)
      → get_elem? cs i ≡ some (refilling need now add)
      → Step upto
          (record { limiter = l; callers = cs; granted = g })
          (record { limiter = l; callers = set cs i (topping need now add l.tokens); granted = g })
  tops_up :
      (l : Limiter) (cs : List Caller) (g i need now add tok : ℕ)
      → get_elem? cs i ≡ some (topping need now add tok)
      → Step upto
          (record { limiter = l; callers = cs; granted = g })
          (record {
            limiter = (top_up l need now add tok).0;
            callers = set cs i ((top_up l need now add tok).1);
            granted = g;
          })
  reloads :
      (l : Limiter) (cs : List Caller) (g i need now : ℕ)
      → get_elem? cs i ≡ some (beaten need now)
      → Step upto
          (record { limiter = l; callers = cs; granted = g })
          (record { limiter = l; callers = set cs i (deciding need now l.tokens); granted = g })
  refuses :
      (l : Limiter) (cs : List Caller) (g i need now cur : ℕ)
      → get_elem? cs i ≡ some (deciding need now cur)
      → ltb cur (origin + need) ≡ true
      → Step upto
          (record { limiter = l; callers = cs; granted = g })
          (record { limiter = l; callers = set cs i resting; granted = g })
  takes :
      (l : Limiter) (cs : List Caller) (g i need now cur : ℕ)
      → get_elem? cs i ≡ some (deciding need now cur)
      → ltb cur (origin + need) ≡ false
      → Step upto
          (record { limiter = l; callers = cs; granted = g })
          (record {
            limiter = (take l need now cur).0;
            callers = set cs i ((take l need now cur).1);
            granted = g + (take l need now cur).2;
          })

pub data Steps (upto : ℕ) : System → System → Type 0 where
  done : (s : System) → Steps upto s s
  after : (s t u : System) → Steps upto s t → Step upto t u → Steps upto s u
