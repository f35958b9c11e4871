-- ===== src/Ratelimit/Tops.antt =====
-- ratelimit/ipmap.go: TopN and TopNRecent.
use mathlib.Core.List.Perm
use mathlib.Core.List.{Perm, append-nil}
use yakutil.Base.{
  ℕ, ◌≡◌, refl, ◌∙◌, Bool, some, List, [], ◌∷◌, arith, ltb, ◌==◌, if◌then◌else◌, min, Bool-cases,
  inl, inr, ==_iff, ap,
}
use yakutil.Base.Int.{ℤ}
use yakutil.Smap.Shards.{Shard, range}
use yakutil.Smap.Entries.{entries}
use yakutil.Topn.Firsts.{IsSort, IsTop, by_key-IsTop, length-perm}
use yakutil.Ratelimit.Addresses.{
  Address, Entry, IpMap, Report, report, recent_hits, note_report, note_recent, top_ips, top_recent,
}
use yakutil.Ratelimit.Collects.{picked, range-picked}

module _ (clock : Address → ℕ) where
  -- the reports of all entries: their hits, and their recent hits at the clock
  abbrev pub reports : List (Address × Entry) → List Report
  reports [] = []
  reports ((ip, e) ∷ l) =
      record { ip = ip; hits = e.hits; recent_hits = recent_hits e (clock ip) } ∷ reports l

  -- the reports of the entries with recent hits
  abbrev pub recent_reports : List (Address × Entry) → List Report
  recent_reports [] = []
  recent_reports ((ip, e) ∷ l) =
      if ltb 0 (recent_hits e (clock ip))
      then record { ip = ip; hits = e.hits; recent_hits = recent_hits e (clock ip) }
        ∷ recent_reports l
      else recent_reports l

  pick_report : Address × Entry → List Report
  pick_report (ip, e) = report clock ip e ∷ []

  pick_recent : Address × Entry → List Report
  pick_recent (ip, e) = if ltb 0 (recent_hits e (clock ip)) then report clock ip e ∷ [] else []

  picked-reports : (l : List (Address × Entry)) → picked pick_report l ≡ reports l
  unfolding pick_report report
  picked-reports [] = refl
  picked-reports ((ip, e) ∷ l) = ap (◌∷◌ (report clock ip e)) (picked-reports l)

  picked-recent_reports : (l : List (Address × Entry)) → picked pick_recent l ≡ recent_reports l
  unfolding pick_recent report
  picked-recent_reports [] = refl
  picked-recent_reports ((ip, e) ∷ l) = ground (arith, picked-recent_reports l)

module _ {A : Type 0} {less : A → A → Bool} {n : ℕ} {src : List A} where
  IsTop-perm : {all r : List A} → IsTop less n all r → Perm all src → IsTop less n src r
  IsTop-perm {all} {r} top p = record {
    others = top.others;
    same = Perm.trans top.same p;
    size = top.size ∙ ap (min n) (length-perm all src p);
    ordered = top.ordered;
    ahead = top.ahead;
  }

  none-IsTop : n ≡ 0 → IsTop less n src []
  none-IsTop e = record {
    others = src;
    same = Perm.refl src;
    size = omega arith;
    ordered = tt;
    ahead = tt;
  }

module _ (sort_func : (Report → Report → ℤ) → List Report → List Report) (sorts : IsSort sort_func)
    (order : Shard Address Entry → Shard Address Entry)
    (orders : (s : Shard Address Entry) → Perm (order s) s) (m : IpMap) (n : ℕ)
    (clock : Address → ℕ) where
  -- If SortFunc sorts by a comparison and Go ranges over the map of a shard in some order of its
  -- entries, TopN returns the n reports of the entries of the map with the most hits, or all if there
  -- are fewer, in descending order of these: the reports left have no more.
  pub top_ips-IsTop :
      (r : List Report) × (top_ips order sort_func m n clock ≡ some r)
      × IsTop (λ a b. ltb b.hits a.hits) n (reports clock (entries m.table.shards)) r
  unfolding top_ips note_report pick_report
  top_ips-IsTop = elim (Bool-cases (n == 0)) [
    | inl e ↦ ([], rw e refl, none-IsTop ((==_iff n 0).0 e))
    | inr e ↦
        let all = (range order (note_report clock) m.table.shards []).1 in
        let (r, did, top) = by_key-IsTop sort_func sorts Report.hits all n in
        let perm : Perm all (picked (pick_report clock) (entries m.table.shards)) =
          range-picked (pick_report clock) (note_report clock) (λ acc ip e. refl) order
            m.table.shards orders in
        (r, rw e did, IsTop-perm top (rw⁻¹ (picked-reports clock (entries m.table.shards)) perm))
  ]

  -- If SortFunc sorts by a comparison and Go ranges over the map of a shard in some order of its
  -- entries, TopNRecent does so with the recent hits, of the entries that have any.
  pub top_recent-IsTop :
      (r : List Report) × (top_recent order sort_func m n clock ≡ some r)
      × IsTop
          (λ a b. ltb b.recent_hits a.recent_hits)
          n
          (recent_reports clock (entries m.table.shards))
          r
  unfolding top_recent note_recent pick_recent
  top_recent-IsTop = elim (Bool-cases (n == 0)) [
    | inl e ↦ ([], rw e refl, none-IsTop ((==_iff n 0).0 e))
    | inr e ↦
        let all = (range order (note_recent clock) m.table.shards []).1 in
        let (r, did, top) = by_key-IsTop sort_func sorts Report.recent_hits all n in
        let perm : Perm all (picked (pick_recent clock) (entries m.table.shards)) =
          range-picked (pick_recent clock) (note_recent clock)
            (λ acc ip e. ground (arith, append-nil acc)) order m.table.shards orders in
        (
          r,
          rw e did,
          IsTop-perm top (rw⁻¹ (picked-recent_reports clock (entries m.table.shards)) perm),
        )
  ]
