-- ===== src/Ratelimit/Evictions.antt =====
-- ratelimit/ipmap.go: Evict and Purge delete the entries that they are to, and count them.
use mathlib.Core.Logic.{if_pos}
use mathlib.Core.List.Perm
use mathlib.Core.List.{Perm}
use yakutil.Base.{
  ℕ, ◌+◌, ◌≡◌, refl, sym, ◌∙◌, ap, Bool, true, false, Option, none, some, List, [], ◌∷◌, ◌++◌,
  arith, ltb, if◌then◌else◌, length,
}
use yakutil.Base.Int.{ℤ, pos, negsuc}
use yakutil.Smap.Shards.{Shard, lookup, range}
use yakutil.Smap.Entries.{entries, Distinct, total-entries}
use yakutil.Smap.Calls.{update}
use yakutil.Smap.Held.{held, IsMap, IsMap-Distinct, del-Became}
use yakutil.Smap.Deletions.{total-del}
use yakutil.Ratelimit.Addresses.{Address, Entry, IpMap, note_ip, del_all, purge_ips, len_ips}
use yakutil.Ratelimit.Admissions.{update_other}
use yakutil.Ratelimit.Collects.{picked, range-picked, listed, Once, listed-perm, Once-perm}

-- The addresses of the entries that a test takes.
pick : (Entry → Bool) → Address × Entry → List Address
pick p (ip, e) = if p e then ip ∷ [] else []

taken : (Entry → Bool) → Option Entry → Bool
taken p none = false
taken p (some e) = p e

unfoldable pub left : (Entry → Bool) → Option Entry → Option Entry
left p none = none
left p (some e) = if p e then none else some e

taken-some : (p : Entry → Bool) (o : Option Entry) → taken p o ≡ true → (e : Entry) × (o ≡ some e)
unfolding taken
taken-some p none h = cc
taken-some p (some e) h = (e, refl)

stays :
    (p : Entry → Bool) (o : Option Entry) (b : Bool)
    → b ≡ taken p o
    → (if b then none else o) ≡ left p o
unfolding taken left
stays p none b h = ground arith
stays p (some e) b h = ground arith

-- Whether an entry was last used before `now` less `ttl`.
abbrev pub stale : ℤ → ℕ → Entry → Bool
stale (pos n) now e = ltb (e.last_used + n) now
stale (negsuc n) now e = ltb e.last_used (now + (n + 1))

module _ (dec : Discrete Address) (p : Entry → Bool) where
  same_key :
      (k j : Address) (l : List (Address × Entry))
      → k ≡ j
      → lookup dec k l ≡ none
      → lookup dec j l ≡ none
  same_key k j l e h = ap (λ i. lookup dec i l) (sym e) ∙ h

  picked-listed :
      (l : List (Address × Entry)) (j : Address)
      → Distinct dec l
      → listed dec j (picked (pick p) l) ≡ taken p (lookup dec j l)
  unfolding lookup taken pick
  picked-listed [] j d = refl
  picked-listed ((k, e) ∷ l) j d = ground (arith, picked-listed l j d.1, same_key k j l)

  picked-Once : (l : List (Address × Entry)) → Distinct dec l → Once dec (picked (pick p) l)
  unfolding taken pick
  picked-Once [] d = tt
  picked-Once ((k, e) ∷ l) d =
      let absent : listed dec k (picked (pick p) l) ≡ false =
        picked-listed l k d.1 ∙ ap (taken p) d.0 in
      ground (arith, picked-Once l d.1)

nothing_held :
    (dec : Discrete Address) (l : List (Address × Entry))
    → ((j : Address) → lookup dec j l ≡ none)
    → l ≡ []
unfolding lookup
nothing_held dec [] h = refl
nothing_held dec ((k, e) ∷ l) h =
    let never : some e ≡ none = sym (if_pos (dec k k) refl _ _) ∙ h k in cc

module _ (dec : Discrete Address) (sum : Address → ℕ) where
  listed-later :
      (j ip : Address) (ips : List Address)
      → listed dec j ips ≡ true
      → listed dec j (ip ∷ ips) ≡ true
  listed-later j ip ips h = ground arith

  apart :
      (j ip : Address) (ips : List Address)
      → Once dec (ip ∷ ips)
      → listed dec j ips ≡ true
      → ip ≡ j
      → ⊥
  apart j ip ips once h e =
      let both : true ≡ false = sym h ∙ (ap (λ k. listed dec k ips) (sym e) ∙ once.0) in cc

  gone :
      (j ip : Address) (ips : List Address) (f g : Address → Option Entry)
      → ((j : Address) → g j ≡ update dec f ip none j)
      → (if listed dec j ips then none else g j) ≡ (if listed dec j (ip ∷ ips) then none else f j)
  unfolding update
  gone j ip ips f g h = ground (arith, h j)

  -- Without the addresses of a list.
  record Deleted (m : IpMap) (ips : List Address) (m' : IpMap) : Type 0 where
    valid : IsMap dec sum m'.table
    seen :
        (j : Address)
        → held dec m'.table j ≡ (if listed dec j ips then none else held dec m.table j)
    size : len_ips m' + length ips ≡ len_ips m

  del_all-Deleted :
      (m : IpMap) (ips : List Address)
      → IsMap dec sum m.table
      → Once dec ips
      → ((j : Address) → listed dec j ips ≡ true → (e : Entry) × (held dec m.table j ≡ some e))
      → (m' : IpMap) × (del_all dec sum m ips ≡ some m') × Deleted m ips m'
  unfolding del_all len_ips
  del_all-Deleted m [] v once there =
      (m, refl, record { valid = v; seen = λ j. refl; size = omega arith })
  del_all-Deleted m (ip ∷ ips) v once there =
      let (t, did, became) = del-Became dec sum m.table v ip in
      let m1 : IpMap = record m { table = t } in
      let (e, here) = there ip (if_pos (dec ip ip) refl _ _) in
      let other : (j : Address) → listed dec j ips ≡ true → (e : Entry) × (held dec t j ≡ some e) =
        λ j h.
          let (e', at) = there j (listed-later j ip ips h) in
          (
            e',
            became.seen j
                ∙ (update_other dec (held dec m.table) ip j none (apart j ip ips once h) ∙ at),
          ) in
      let (m', rest, d) = del_all-Deleted m1 ips became.valid once.1 other in
      (
        m',
        rw (did, rest) refl,
        record {
          valid = d.valid;
          seen = λ j. d.seen j ∙ gone j ip ips (held dec m.table) (held dec t) became.seen;
          size = omega (arith, d.size, total-del dec sum m.table t ip e v here did);
        },
      )

  module _ (order : Shard Address Entry → Shard Address Entry)
      (orders : (s : Shard Address Entry) → Perm (order s) s) (m : IpMap)
      (v : IsMap dec sum m.table) where
    -- Range and then Del, of the entries that a test takes.
    deletions :
        (p : Entry → Bool) (fn : List Address → Address → Entry → Bool × List Address)
        → ((acc : List Address) (ip : Address) (e : Entry)
            → fn acc ip e ≡ (true, acc ++ pick p (ip, e)))
        → (m' : IpMap) × (del_all dec sum m (range order fn m.table.shards []).1 ≡ some m')
          × IsMap dec sum m'.table
          × ((j : Address) → held dec m'.table j ≡ left p (held dec m.table j))
          × (len_ips m' + length (range order fn m.table.shards []).1 ≡ len_ips m)
    unfolding left
    deletions p fn always =
        let ips = (range order fn m.table.shards []).1 in
        let all = picked (pick p) (entries m.table.shards) in
        let perm : Perm ips all = range-picked (pick p) fn always order m.table.shards orders in
        let d = IsMap-Distinct dec sum m.table v in
        let member : (j : Address) → listed dec j ips ≡ taken p (held dec m.table j) =
          λ j. listed-perm dec ips all perm j ∙ picked-listed dec p (entries m.table.shards) j d in
        let once : Once dec ips =
          Once-perm dec all ips (Perm.symm perm) (picked-Once dec p (entries m.table.shards) d) in
        let (m', did, gone) =
          del_all-Deleted m ips v once
            (λ j h. taken-some p (held dec m.table j) (sym (member j) ∙ h)) in
        (
          m',
          did,
          gone.valid,
          λ j. gone.seen j ∙ stays p (held dec m.table j) (listed dec j ips) (member j),
          gone.size,
        )

    -- If Go ranges over the map of a shard in some order of its entries, Purge on a map in order
    -- deletes every entry, so that Len is 0.
    pub purge_ips-empty :
        (m' : IpMap) × (purge_ips order dec sum m ≡ some m')
        × IsMap dec sum m'.table
        × ((j : Address) → held dec m'.table j ≡ none)
        × (len_ips m' ≡ 0)
    unfolding purge_ips note_ip pick left len_ips
    purge_ips-empty =
        let (m', did, v', seen, size) = deletions (λ e. true) note_ip (λ acc ip e. refl) in
        let empty : (j : Address) → held dec m'.table j ≡ none =
          λ j. seen j ∙ all_left (held dec m.table j) in
        (
          m',
          did,
          v',
          empty,
          total-entries m'.table.shards
              ∙ ap length (nothing_held dec (entries m'.table.shards) empty),
        )
      where
        all_left : (o : Option Entry) → left (λ e. true) o ≡ none
        all_left none = refl
        all_left (some e) = refl
