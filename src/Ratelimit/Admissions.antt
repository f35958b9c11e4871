-- ===== src/Ratelimit/Admissions.antt =====
-- ratelimit/ipmap.go: a call for an address changes the entry of that address only.
use mathlib.Core.Path.{subst}
use mathlib.Core.Logic.{if_pos, if_neg}
use yakutil.Base.{
  ℕ, ◌≤◌, ◌≡◌, refl, sym, ◌∙◌, ap, Bool, true, false, Option, none, some, ◌>>=◌, if◌then◌else◌,
  length, le→ltb,
}
use yakutil.Smap.Shards
use yakutil.Smap.Calls.{update, or_made}
use yakutil.Smap.Held.{held, IsMap, get-held, set-Became, get_or_set-Became}
use yakutil.Ratelimit.Bucket
use yakutil.Ratelimit.Bucket.{Limiter}
use yakutil.Ratelimit.Addresses.{
  Address, Entry, IpMap, new_entry, count_hit, touch, write_back, read_back, fast_or_slow,
  get_or_create, allow_ip, limiter_of, max_ip_key_len,
}

module _ {K V : Type 0} (dec : Discrete K) where
  pub update_self : (f : K → Option V) (k : K) (o : Option V) → update dec f k o k ≡ o
  unfolding update
  update_self f k o = if_pos (dec k k) refl _ _

  pub update_other :
      (f : K → Option V) (k j : K) (o : Option V) → (k ≡ j → ⊥) → update dec f k o j ≡ f j
  unfolding update
  update_other f k j o h = if_neg (dec k j) h _ _

  -- Only the last of two values of a key counts.
  pub update-update :
      (f g : K → Option V) (k : K) (o o' : Option V)
      → ((j : K) → g j ≡ update dec f k o j)
      → (j : K) → update dec g k o' j ≡ update dec f k o' j
  unfolding update
  update-update f g k o o' h j = elim (dec k j) [
    | yes p ↦ if_pos (dec k j) p _ _ ∙ sym (if_pos (dec k j) p _ _)
    | no p ↦
        if_neg (dec k j) p _ _ ∙ (h j ∙ (if_neg (dec k j) p _ _ ∙ sym (if_neg (dec k j) p _ _)))
  ]

-- The entry of an address at a call: that which is there, or a new one, counted.
unfoldable pub visited : ℕ → ℕ → ℕ → ℕ → Option Entry → Entry
visited rate burst now made none = touch (new_entry rate burst now made) now
visited rate burst now made (some e) = touch e now

touch-new :
    (rate burst now made : ℕ)
    → touch (new_entry rate burst now made) now ≡ count_hit (new_entry rate burst now made) now
unfolding touch new_entry
touch-new rate burst now made = refl

module _ (dec : Discrete Address) (sum : Address → ℕ) where
  -- The entry of one address written, with all else as it was.
  pub record Wrote (m : IpMap) (ip : Address) (e : Entry) (m' : IpMap) : Type 0 where
    pub valid : IsMap dec sum m'.table
    pub seen : (j : Address) → held dec m'.table j ≡ update dec (held dec m.table) ip (some e) j
    pub settings : (m'.rate ≡ m.rate) × (m'.burst ≡ m.burst)

  write_back-Wrote :
      (m : IpMap) (ip : Address) (e : Entry)
      → IsMap dec sum m.table
      → (m' : IpMap) × (write_back dec sum m ip e ≡ some m') × Wrote m ip e m'
  unfolding write_back
  write_back-Wrote m ip e v =
      let (t, did, became) = set-Became dec sum m.table v ip e in
      (
        record m { table = t },
        rw did refl,
        record { valid = became.valid; seen = became.seen; settings = (refl, refl) },
      )

  Wrote-Wrote :
      {m m' m'' : IpMap} {ip : Address} {e e' : Entry}
      → Wrote m ip e m'
      → Wrote m' ip e' m''
      → Wrote m ip e' m''
  Wrote-Wrote {m} {m'} {m''} {ip} {e} {e'} w w' = record {
    valid = w'.valid;
    seen = λ j.
        w'.seen j
        ∙ update-update dec (held dec m.table) (held dec m'.table) ip (some e) (some e') w.seen j;
    settings = (w'.settings.0 ∙ w.settings.0, w'.settings.1 ∙ w.settings.1);
  }

  Visit : IpMap → Address → Entry → Option (IpMap × Entry) → Type 0
  Visit m ip e r = (m' : IpMap) × (r ≡ some (m', e)) × Wrote m ip e m'

  fast_or_slow-Visit :
      (m : IpMap) (ip : Address) (now made : ℕ) (o : Option Entry)
      → IsMap dec sum m.table
      → Visit m ip
          (visited m.rate m.burst now made o)
          (fast_or_slow dec sum m ip now (new_entry m.rate m.burst now made) o)
  unfolding Visit visited fast_or_slow read_back
  fast_or_slow-Visit m ip now made (some e) v =
      let (m', did, w) = write_back-Wrote m ip (touch e now) v in (m', rw did refl, w)
  fast_or_slow-Visit m ip now made none v =
      let ne = new_entry m.rate m.burst now made in
      let (m', did, w) = write_back-Wrote m ip ne v in
      let there : held dec m'.table ip ≡ some ne =
        w.seen ip ∙ update_self dec (held dec m.table) ip (some ne) in
      let (m'', did', w') = write_back-Wrote m' ip (touch ne now) w.valid in
      (
        m'',
        rw
            (
              did,
              get-held dec sum m'.table w.valid ip,
              there,
              ← touch-new m.rate m.burst now made,
              did',
            )
            refl,
        Wrote-Wrote w w',
      )

  get_or_create-Visit :
      (m : IpMap) (ip : Address) (now made : ℕ)
      → IsMap dec sum m.table
      → Visit m ip
          (visited m.rate m.burst now made (held dec m.table ip))
          (get_or_create dec sum m ip now made)
  unfolding Visit get_or_create
  get_or_create-Visit m ip now made v = go m.strict
    where
      ne : Entry
      ne = new_entry m.rate m.burst now made

      o : Option Entry
      o = held dec m.table ip

      chosen : (o : Option Entry) → touch (or_made o ne).0 now ≡ visited m.rate m.burst now made o
      chosen none = unfold or_made visited in refl
      chosen (some e) = unfold or_made visited in refl

      go :
          (strict : Bool)
          → Visit m ip (visited m.rate m.burst now made o) (
              if strict
              then (Shards.get_or_set dec sum m.table ip ne >>= λ r.
                  write_back dec sum (record m { table = r.0 }) ip (touch r.1 now) >>= λ m'.
                  some (m', touch r.1 now))
              else (Shards.get dec sum m.table ip >>= fast_or_slow dec sum m ip now ne))
      go true =
          let (t, did, became) = get_or_set-Became dec sum m.table v ip ne in
          let e = (or_made o ne).0 in
          let m1 : IpMap = record m { table = t } in
          let (m', did', w) = write_back-Wrote m1 ip (touch e now) became.valid in
          let w0 : Wrote m ip e m1 = record {
            valid = became.valid;
            seen = became.seen;
            settings = (refl, refl);
          } in
          (
            m',
            rw (did, did') (ap (λ x. some (m', x)) (chosen o)),
            subst (λ x. Wrote m ip x m') (chosen o) (Wrote-Wrote w0 w),
          )
      go false =
          let (m', did, w) = fast_or_slow-Visit m ip now made o v in
          (m', rw (get-held dec sum m.table v ip) did, w)

  -- AllowN takes from the limiter of the address, and writes the entry of no other.
  pub allow_ip-Wrote :
      (m : IpMap) (ip : Address) (n now made used : ℕ) (l : Limiter) (ok : Bool)
      → IsMap dec sum m.table
      → length ip ≤ max_ip_key_len
      → Bucket.allow_n (visited m.rate m.burst now made (held dec m.table ip)).lim used n
        ≡ some (l, ok)
      → (m' : IpMap) × (allow_ip dec sum m ip n now made used ≡ some (m', ok))
        × Wrote m ip (record (visited m.rate m.burst now made (held dec m.table ip)) { lim = l }) m'
  unfolding allow_ip Visit
  allow_ip-Wrote m ip n now made used l ok v short take =
      let (m1, did, w) = get_or_create-Visit m ip now made v in
      let e = visited m.rate m.burst now made (held dec m.table ip) in
      let (m2, did', w') = write_back-Wrote m1 ip (record e { lim = l }) w.valid in
      (m2, rw (le→ltb max_ip_key_len (length ip) short, did, take, did') refl, Wrote-Wrote w w')

  -- Get returns the limiter of the address, and counts like AllowN.
  pub limiter_of-Wrote :
      (m : IpMap) (ip : Address) (now made : ℕ)
      → IsMap dec sum m.table
      → length ip ≤ max_ip_key_len
      → (m' : IpMap) × (limiter_of dec sum m ip now made
          ≡ some (m', some ((visited m.rate m.burst now made (held dec m.table ip)).lim)))
        × Wrote m ip (visited m.rate m.burst now made (held dec m.table ip)) m'
  unfolding limiter_of Visit
  limiter_of-Wrote m ip now made v short =
      let (m', did, w) = get_or_create-Visit m ip now made v in
      (m', rw (le→ltb max_ip_key_len (length ip) short, did) refl, w)
