-- ===== src/Ratelimit/Isolation.antt =====
-- ratelimit/ipmap.go: calls for many addresses, one after another.
use native.Mathlib.Nat.{le-div_iff_mul-le}
use yakutil.Base.{
  ℕ, ◌≤◌, ◌<◌, ◌≡◌, refl, sym, ◌∙◌, ap, Bool, false, Option, none, some, arith, ltb, ◌==◌,
  Bool-cases, inl, inr, length, dec_lt, lt→ltb,
}
use yakutil.Smap.Held.{held, IsMap}
use yakutil.Ratelimit.Bucket
use yakutil.Ratelimit.Bucket.{Limiter, second, or_one, tokens_due, refill, deduct}
use yakutil.Ratelimit.Addresses.{
  Address, Entry, IpMap, new_entry, turn, add_recent_at, count_hit, touch, allow_ip, max_ip_key_len,
}
use yakutil.Ratelimit.Admissions.{visited, allow_ip-Wrote, update_self, update_other}

-- A call of AllowN, with the readings of the clock that it makes.
pub record Request : Type 0 where
  pub ip : Address
  pub n : ℕ
  pub now : ℕ
  pub made : ℕ
  pub used : ℕ

-- The limiter that an address has, or the one that a call makes for it.
unfoldable pub limiter_at : ℕ → ℕ → ℕ → Option Limiter → Limiter
limiter_at rate burst made none = Bucket.new rate burst made
limiter_at rate burst made (some l) = l

unfoldable pub limiter_in : Option Entry → Option Limiter
limiter_in none = none
limiter_in (some e) = some (e.lim)

touch-lim : (e : Entry) (now : ℕ) → (touch e now).lim ≡ e.lim
unfolding touch count_hit add_recent_at turn
touch-lim e now = ground arith

visited-lim :
    (rate burst now made : ℕ) (o : Option Entry)
    → (visited rate burst now made o).lim ≡ limiter_at rate burst made (limiter_in o)
unfolding visited limiter_at limiter_in new_entry
visited-lim rate burst now made none = touch-lim (new_entry rate burst now made) now
visited-lim rate burst now made (some e) = touch-lim e now

new-interval : (rate burst now : ℕ) → rate ≤ second → 0 < (Bucket.new rate burst now).interval
unfolding Bucket.new or_one
new-interval rate burst now h =
    (le-div_iff_mul-le {k = or_one rate} {x = 1} {y = second} (ground arith)).1 (ground arith)

allow_n-runs :
    (l : Limiter) (now n : ℕ)
    → 0 < l.interval
    → (l' : Limiter) × (ok : Bool) × (Bucket.allow_n l now n ≡ some (l', ok))
      × (l'.interval ≡ l.interval)
unfolding Bucket.allow_n
allow_n-runs l now n h = elim (Bool-cases (ltb l.burst (or_one n))) [
  | inl much ↦ (l, false, rw much refl, refl)
  | inr fits ↦
      let divides : (l.interval == 0) ≡ false = ground arith in
      let s = deduct (refill l now) (or_one n) in (s.0, s.1, rw (fits, divides) refl, kept)
]
  where
    kept : (deduct (refill l now) (or_one n)).0.interval ≡ l.interval
    kept = unfold deduct refill in ground arith

module _ (dec : Discrete Address) (sum : Address → ℕ) (rate burst : ℕ) where
  -- A map whose limiters do not divide by zero.
  pub record IsGood (m : IpMap) : Type 0 where
    pub valid : IsMap dec sum m.table
    pub settings : (m.rate ≡ rate) × (m.burst ≡ burst)
    pub paced :
        (ip : Address) (l : Limiter) → limiter_in (held dec m.table ip) ≡ some l → 0 < l.interval

  -- What a call does to the limiters.
  pub record Served (m : IpMap) (r : Request) : Type 0 where
    pub m' : IpMap
    pub ok : Bool
    pub did : allow_ip dec sum m r.ip r.n r.now r.made r.used ≡ some (m', ok)
    pub good : IsGood m'
    pub others :
        (ip : Address)
        → (r.ip ≡ ip → ⊥)
        → limiter_in (held dec m'.table ip) ≡ limiter_in (held dec m.table ip)
    pub refused : max_ip_key_len < length r.ip → ok ≡ false
    pub taken :
        length r.ip ≤ max_ip_key_len
        → (l : Limiter) × (Bucket.allow_n
              (limiter_at rate burst r.made (limiter_in (held dec m.table r.ip)))
              r.used
              r.n
            ≡ some (l, ok))
          × (limiter_in (held dec m'.table r.ip) ≡ some l)

  refused-Served : (m : IpMap) (r : Request) → IsGood m → max_ip_key_len < length r.ip → Served m r
  unfolding allow_ip
  refused-Served m r g long = record {
    m' = m;
    ok = false;
    did = rw (lt→ltb max_ip_key_len (length r.ip) long) refl;
    good = g;
    others = λ ip h. refl;
    refused = λ h. refl;
    taken = λ h. absurd (omega arith);
  }

  limiter_paced :
      (m : IpMap) (ip : Address) (made : ℕ)
      → rate ≤ second
      → IsGood m
      → 0 < (limiter_at rate burst made (limiter_in (held dec m.table ip))).interval
  unfolding limiter_at
  limiter_paced m ip made slow g = go (limiter_in (held dec m.table ip)) refl
    where
      go :
          (o : Option Limiter)
          → limiter_in (held dec m.table ip) ≡ o
          → 0 < (limiter_at rate burst made o).interval
      go none e = new-interval rate burst made slow
      go (some l) e = g.paced ip l e

  taken-Served :
      (m : IpMap) (r : Request)
      → rate ≤ second
      → IsGood m
      → length r.ip ≤ max_ip_key_len
      → Served m r
  unfolding limiter_in
  taken-Served m r slow g short =
      let o = held dec m.table r.ip in
      let old = limiter_at rate burst r.made (limiter_in o) in
      let e = visited m.rate m.burst r.now r.made o in
      let same : e.lim ≡ old =
        visited-lim m.rate m.burst r.now r.made o
        ∙ (ap (λ a. limiter_at a m.burst r.made (limiter_in o)) g.settings.0
            ∙ ap (λ b. limiter_at rate b r.made (limiter_in o)) g.settings.1) in
      let paced : 0 < old.interval = limiter_paced m r.ip r.made slow g in
      let (l, ok, ran, kept) = allow_n-runs old r.used r.n paced in
      let (m', did, w) =
        allow_ip-Wrote dec sum m r.ip r.n r.now r.made r.used l ok g.valid short
          (ap (λ x. Bucket.allow_n x r.used r.n) same ∙ ran) in
      let mine : limiter_in (held dec m'.table r.ip) ≡ some l =
        ap limiter_in
          (w.seen r.ip ∙ update_self dec (held dec m.table) r.ip (some (record e { lim = l }))) in
      let others : (ip : Address)
          → (r.ip ≡ ip → ⊥)
          → limiter_in (held dec m'.table ip) ≡ limiter_in (held dec m.table ip) =
        λ ip h. ap limiter_in (
          w.seen ip
          ∙ update_other dec (held dec m.table) r.ip ip (some (record e { lim = l })) h) in
      record {
        m' = m';
        ok = ok;
        did = did;
        good = record {
          valid = w.valid;
          settings = (w.settings.0 ∙ g.settings.0, w.settings.1 ∙ g.settings.1);
          paced = λ ip l' h. elim (dec r.ip ip) [
            | yes p ↦
                let there : some l ≡ some l' =
                  sym mine ∙ (ap (λ j. limiter_in (held dec m'.table j)) p ∙ h) in
                let same_one : l ≡ l' = (cc) in rw (← same_one, kept) paced
            | no p ↦ g.paced ip l' (sym (others ip p) ∙ h)
          ];
        };
        others = others;
        refused = λ h. absurd (omega arith);
        taken = λ h. (l, ran, mine);
      }

  pub Served-of : (m : IpMap) (r : Request) → rate ≤ second → IsGood m → Served m r
  Served-of m r slow g = elim (dec_lt max_ip_key_len (length r.ip)) [
    | yes long ↦ refused-Served m r g long
    | no short ↦ taken-Served m r slow g (omega arith)
  ]
