-- ===== src/Ratelimit/Windows.antt =====
-- ratelimit/ipmap.go: what recentHits makes of hits that are long past.
use yakutil.Base.{
  ℕ, zero, suc, ◌+◌, ◌*◌, ◌/◌, ◌%◌, ◌-◌, ◌≡◌, ◌≢◌, refl, sym, arith, true, Bool-cases, inl, inr,
  ==_iff, ◌==◌, ◌∙◌,
}
use yakutil.Ratelimit.Addresses.{
  Entry, turn, add_recent_at, recent_hits, minute, count_hit, touch, new_entry,
}

-- An entry touched a number of times at one time.
unfoldable pub touches : ℕ → ℕ → Entry → Entry
touches zero now e = e
touches (suc c) now e = touch (touches c now e) now

-- After touches at one time: the minute, their number on top of what it starts from, and the count of
-- the minute before.
record Window (now count prev : ℕ) (e : Entry) : Type 0 where
  minute_of : e.recent_min ≡ now / minute
  count_of : e.recent_count ≡ count
  prev_of : e.prev_count ≡ prev

touch-Window :
    {now count prev : ℕ} {e : Entry}
    → Window now count prev e
    → Window now (suc count) prev (touch e now)
unfolding touch count_hit add_recent_at turn
touch-Window w = record {
  minute_of = ground (arith, w.minute_of);
  count_of = ground (arith, w.minute_of, w.count_of);
  prev_of = ground (arith, w.minute_of, w.prev_of);
}

touches-Window :
    (c now prev : ℕ) (e : Entry)
    → Window now 1 prev (touch e now)
    → Window now (suc c) prev (touches (suc c) now e)
unfolding touches
touches-Window zero now prev e w = w
touches-Window (suc c) now prev e w = touch-Window (touches-Window c now prev e w)

first-Window :
    (rate burst made now : ℕ) → Window now 1 0 (touch (new_entry rate burst now made) now)
unfolding touch count_hit add_recent_at turn new_entry
first-Window rate burst made now = record {
  minute_of = ground arith;
  count_of = ground arith;
  prev_of = ground arith;
}

turn-Window :
    (now now' count prev : ℕ) (e : Entry)
    → now / minute ≢ now' / minute
    → Window now count prev e
    → Window now' 1 count (touch e now')
unfolding touch count_hit add_recent_at turn
turn-Window now now' count prev e ne w = record {
  minute_of = ground (arith, w.minute_of);
  count_of = ground (arith, w.minute_of, w.count_of);
  prev_of = ground (arith, w.minute_of, w.count_of);
}

recent_hits-Window :
    (now count prev clock : ℕ) (e : Entry)
    → Window now count prev e
    → (clock / 60 ≡ now / minute → recent_hits e clock ≡ prev * (60 - clock % 60) / 60 + count)
      × (clock / 60 ≢ now / minute → recent_hits e clock ≡ count)
unfolding recent_hits
recent_hits-Window now count prev clock e w = (
  λ h.
      let this : (e.recent_min == clock / 60) ≡ true = (==_iff _ _).1 (w.minute_of ∙ sym h) in
      rw (this, w.prev_of, w.count_of) refl,
  λ h. elim (Bool-cases (e.recent_min == clock / 60)) [
    | inl same ↦ absurd (h (sym ((==_iff _ _).0 same) ∙ w.minute_of))
    | inr other ↦ rw other (w.count_of)
  ],
)

-- An address is new, and there are c + 1 calls for it at one time and then d + 1 calls at a time of
-- another minute. The recent hits, read in that minute, are the d + 1 and the c + 1 less a sixtieth for
-- each second of the minute; read in any other minute they are the d + 1. So it is however long ago the
-- first ones are, and in the other case all of them.
pub recent_hits-touches :
    (rate burst made c d now now' clock : ℕ)
    → now / minute ≢ now' / minute
    → (clock / 60 ≡ now' / minute
        → recent_hits
            (touches (suc d) now' (touches (suc c) now (new_entry rate burst now made)))
            clock
          ≡ suc c * (60 - clock % 60) / 60 + suc d)
      × (clock / 60 ≢ now' / minute
          → recent_hits
              (touches (suc d) now' (touches (suc c) now (new_entry rate burst now made)))
              clock
            ≡ suc d)
recent_hits-touches rate burst made c d now now' clock ne =
    let first =
      touches-Window c now 0 (new_entry rate burst now made) (first-Window rate burst made now) in
    let e = touches (suc c) now (new_entry rate burst now made) in
    recent_hits-Window now' (suc d) (suc c) clock (touches (suc d) now' e)
      (touches-Window d now' (suc c) e (turn-Window now now' (suc c) 0 e ne first))
