-- ===== src/Ratelimit/Addresses.antt =====
-- ratelimit/ipmap.go: a limiter for each address, in the map of package smap. An entry is reached
-- only by its address, so that what the source writes through the pointer to it is a new value in
-- the map. An address is the list of its bytes; the strict mode and the other differ only where two
-- calls come between each other. `none` is a panic.
use yakutil.Base.{
  ℕ, ◌+◌, ◌-◌, ◌*◌, ◌/◌, ◌%◌, Bool, true, false, Option, none, some, List, [], ◌∷◌, ◌++◌, ltb, ◌==◌,
  ◌>>=◌, if◌then◌else◌, length,
}
use yakutil.Smap.Shards
use yakutil.Smap.Shards.{Map, Shard, range}
use yakutil.Ratelimit.Bucket
use yakutil.Ratelimit.Bucket.{Limiter, second}
use yakutil.Topn.Select.{by_key}
use yakutil.Base.Int.{ℤ, pos, negsuc}

abbrev pub Address : Type 0
Address = List ℕ

-- `ipEntry`
pub record Entry : Type 0 where
  pub lim : Limiter
  pub last_used : ℕ
  pub hits : ℕ
  pub recent_min : ℕ
  pub recent_count : ℕ
  pub prev_count : ℕ

-- `IPMap`
pub record IpMap : Type 0 where
  pub table : Map Address Entry
  pub rate : ℕ
  pub burst : ℕ
  pub strict : Bool

-- `IPEntry`
pub record Report : Type 0 where
  pub ip : Address
  pub hits : ℕ
  pub recent_hits : ℕ

-- the first part of `addRecentAt`
unfoldable pub turn : Entry → ℕ → Entry
turn e now_min =
    if now_min == e.recent_min
    then e
    else record e { recent_min = now_min; prev_count = e.recent_count; recent_count = 0 }

-- `addRecentAt`
unfoldable pub add_recent_at : Entry → ℕ → Entry
add_recent_at e now_min = let t = turn e now_min in record t { recent_count = t.recent_count + 1 }

-- `recentHits`, at a second of the clock
unfoldable pub recent_hits : Entry → ℕ → ℕ
recent_hits e now =
    if e.recent_min == now / 60
    then e.prev_count * (60 - now % 60) / 60 + e.recent_count
    else e.recent_count

-- `time.Minute`
abbrev pub minute : ℕ
minute = 60 * second

-- `e.hits.Add(1)` and `e.addRecentAt(nowMin)`, at a nanosecond
unfoldable pub count_hit : Entry → ℕ → Entry
count_hit e now = add_recent_at (record e { hits = e.hits + 1 }) (now / minute)

-- the same for an entry that was there
unfoldable pub touch : Entry → ℕ → Entry
touch e now = count_hit (record e { last_used = now }) now

-- a new entry; `made` is what the clock reads in `New`
unfoldable pub new_entry : ℕ → ℕ → ℕ → ℕ → Entry
new_entry rate burst now made = record {
  lim = Bucket.new rate burst made;
  last_used = now;
  hits = 0;
  recent_min = 0;
  recent_count = 0;
  prev_count = 0;
}

abbrev pub max_ip_key_len : ℕ
max_ip_key_len = 128

-- `NewIPMap`; a number of shards below 1 counts as 64
unfoldable pub new_ip_map : ℕ → ℕ → ℕ → Bool → Option IpMap
new_ip_map rate burst shards strict = Shards.new (if shards == 0 then 64 else shards) >>= λ t.
    some (record { table = t; rate = rate; burst = burst; strict = strict })

module _ (dec : Discrete Address) (sum : Address → ℕ) where
  -- what is written through the pointer to the entry of an address
  unfoldable pub write_back : IpMap → Address → Entry → Option IpMap
  write_back m ip e = Shards.set dec sum m.table ip e >>= λ t. some (record m { table = t })

  -- the slow path of `getOrCreate`: the entry that is read back, or the new one
  unfoldable pub read_back : IpMap → Address → ℕ → Entry → Option Entry → Option (IpMap × Entry)
  read_back m ip now ne (some e) =
      write_back m ip (count_hit e now) >>= λ m'. some (m', count_hit e now)
  read_back m ip now ne none = some (m, count_hit ne now)

  unfoldable pub fast_or_slow : IpMap → Address → ℕ → Entry → Option Entry → Option (IpMap × Entry)
  fast_or_slow m ip now ne (some e) = write_back m ip (touch e now) >>= λ m'. some (m', touch e now)
  fast_or_slow m ip now ne none =
      write_back m ip ne >>= λ m'. Shards.get dec sum m'.table ip >>= read_back m' ip now ne

  -- `getOrCreate`, at two readings of the clock, its own and that of `New`
  unfoldable pub get_or_create : IpMap → Address → ℕ → ℕ → Option (IpMap × Entry)
  get_or_create m ip now made =
      let ne = new_entry m.rate m.burst now made in
      if m.strict
      then (Shards.get_or_set dec sum m.table ip ne >>= λ r.
          write_back (record m { table = r.0 }) ip (touch r.1 now) >>= λ m'.
          some (m', touch r.1 now))
      else (Shards.get dec sum m.table ip >>= fast_or_slow m ip now ne)

  -- `AllowN`, at a third reading, that of the limiter
  unfoldable pub allow_ip : IpMap → Address → ℕ → ℕ → ℕ → ℕ → Option (IpMap × Bool)
  allow_ip m ip n now made used =
      if ltb max_ip_key_len (length ip)
      then some (m, false)
      else (get_or_create m ip now made >>= λ r. Bucket.allow_n r.1.lim used n >>= λ s.
          write_back r.0 ip (record r.1 { lim = s.0 }) >>= λ m'. some (m', s.1))

  -- `Get`
  unfoldable pub limiter_of : IpMap → Address → ℕ → ℕ → Option (IpMap × Option Limiter)
  limiter_of m ip now made =
      if ltb max_ip_key_len (length ip)
      then some (m, none)
      else (get_or_create m ip now made >>= λ r. some (r.0, some (r.1.lim)))

  unfoldable pub del_all : IpMap → List Address → Option IpMap
  del_all m [] = some m
  del_all m (ip ∷ l) = Shards.del dec sum m.table ip >>= λ t. del_all (record m { table = t }) l

-- `time.Now().Add(-ttl)`, where a time before 1970 counts as 0
unfoldable pub cutoff : ℕ → ℤ → ℕ
cutoff now (pos n) = now - n
cutoff now (negsuc n) = now + (n + 1)

-- the callbacks of Range: they take the state first
unfoldable pub note_stale : ℕ → List Address → Address → Entry → Bool × List Address
note_stale limit ips ip e = (true, if ltb e.last_used limit then ips ++ (ip ∷ []) else ips)

unfoldable pub note_ip : List Address → Address → Entry → Bool × List Address
note_ip ips ip e = (true, ips ++ (ip ∷ []))

-- what the clock reads at the entry of an address
unfoldable pub report : (Address → ℕ) → Address → Entry → Report
report clock ip e = record { ip = ip; hits = e.hits; recent_hits = recent_hits e (clock ip) }

unfoldable pub note_report : (Address → ℕ) → List Report → Address → Entry → Bool × List Report
note_report clock all ip e = (true, all ++ (report clock ip e ∷ []))

unfoldable pub note_recent : (Address → ℕ) → List Report → Address → Entry → Bool × List Report
note_recent clock all ip e =
    (true, if ltb 0 (recent_hits e (clock ip)) then all ++ (report clock ip e ∷ []) else all)

module _ (order : Shard Address Entry → Shard Address Entry) where
  module _ (dec : Discrete Address) (sum : Address → ℕ) where
    -- `Evict`, and the number of entries that it deletes
    unfoldable pub evict : IpMap → ℤ → ℕ → Option (IpMap × ℕ)
    evict m ttl now =
        let stale = (range order (note_stale (cutoff now ttl)) m.table.shards []).1 in
        del_all dec sum m stale >>= λ m'. some (m', length stale)

    -- `Purge`
    unfoldable pub purge_ips : IpMap → Option IpMap
    purge_ips m = del_all dec sum m (range order note_ip m.table.shards []).1

  module _ (sort_func : (Report → Report → ℤ) → List Report → List Report) where
    -- `TopN` and `TopNRecent`
    unfoldable pub top_ips : IpMap → ℕ → (Address → ℕ) → Option (List Report)
    top_ips m n clock =
        if n == 0
        then some []
        else by_key sort_func (range order (note_report clock) m.table.shards []).1 n Report.hits

    unfoldable pub top_recent : IpMap → ℕ → (Address → ℕ) → Option (List Report)
    top_recent m n clock =
        if n == 0
        then some []
        else by_key sort_func (range order (note_recent clock) m.table.shards []).1 n
            Report.recent_hits

-- `Len`
unfoldable pub len_ips : IpMap → ℕ
len_ips m = Shards.total m.table.shards
