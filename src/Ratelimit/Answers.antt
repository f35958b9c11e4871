-- ===== src/Ratelimit/Answers.antt =====
-- ratelimit/ipmap.go: the answers to the calls for one address, among those for others.
use mathlib.Core.Path.{subst, ap₂}
use mathlib.Core.Logic.{ite, if_pos, if_neg}
use yakutil.Base.{
  ℕ, ◌^◌, ◌≤◌, ◌<◌, ◌≡◌, refl, sym, ◌∙◌, ap, Bool, false, Option, none, some, List, [], ◌∷◌, arith,
  ◌==◌, ◌>>=◌, if◌then◌else◌, length, map,
}
use yakutil.Smap.Held.{held, new-IsMap}
use yakutil.Ratelimit.Bucket
use yakutil.Ratelimit.Bucket.{Limiter, second}
use yakutil.Ratelimit.Addresses.{Address, IpMap, new_ip_map, allow_ip, max_ip_key_len}
use yakutil.Ratelimit.Isolation.{Request, limiter_at, limiter_in, IsGood, Served, Served-of}

-- Calls on one limiter, which the first of them makes.
unfoldable pub alone : ℕ → ℕ → Option Limiter → List Request → Option (List Bool)
alone rate burst o [] = some []
alone rate burst o (r ∷ rs) = Bucket.allow_n (limiter_at rate burst r.made o) r.used r.n >>= λ s.
    alone rate burst (some s.0) rs >>= λ oks. some (s.1 ∷ oks)

module _ (dec : Discrete Address) where
  -- The calls for an address, and the answers to them.
  unfoldable pub requests_of : Address → List Request → List Request
  requests_of ip [] = []
  requests_of ip (r ∷ rs) = ite (dec r.ip ip) (r ∷ requests_of ip rs) (requests_of ip rs)

  unfoldable pub answers_of : Address → List Request → List Bool → List Bool
  answers_of ip (r ∷ rs) (ok ∷ oks) =
      ite (dec r.ip ip) (ok ∷ answers_of ip rs oks) (answers_of ip rs oks)
  answers_of ip rs oks = []

  unfoldable pub serve_all : (Address → ℕ) → IpMap → List Request → Option (List Bool)
  serve_all sum m [] = some []
  serve_all sum m (r ∷ rs) = allow_ip dec sum m r.ip r.n r.now r.made r.used >>= λ t.
      serve_all sum t.0 rs >>= λ oks. some (t.1 ∷ oks)

module _ (dec : Discrete Address) (ip : Address) (r : Request) (rs : List Request) where
  requests_of_hit : r.ip ≡ ip → requests_of dec ip (r ∷ rs) ≡ r ∷ requests_of dec ip rs
  unfolding requests_of
  requests_of_hit p = if_pos (dec r.ip ip) p _ _

  requests_of_miss : (r.ip ≡ ip → ⊥) → requests_of dec ip (r ∷ rs) ≡ requests_of dec ip rs
  unfolding requests_of
  requests_of_miss p = if_neg (dec r.ip ip) p _ _

  answers_of_hit :
      (ok : Bool) (oks : List Bool)
      → r.ip ≡ ip
      → answers_of dec ip (r ∷ rs) (ok ∷ oks) ≡ ok ∷ answers_of dec ip rs oks
  unfolding answers_of
  answers_of_hit ok oks p = if_pos (dec r.ip ip) p _ _

  answers_of_miss :
      (ok : Bool) (oks : List Bool)
      → (r.ip ≡ ip → ⊥)
      → answers_of dec ip (r ∷ rs) (ok ∷ oks) ≡ answers_of dec ip rs oks
  unfolding answers_of
  answers_of_miss ok oks p = if_neg (dec r.ip ip) p _ _

module _ (dec : Discrete Address) (sum : Address → ℕ) (rate burst : ℕ) where
  -- What a list of calls answers to an address.
  abbrev Apart : IpMap → List Request → List Bool → Address → Type 0
  Apart m rs oks ip =
      (length ip ≤ max_ip_key_len
        → alone rate burst (limiter_in (held dec m.table ip)) (requests_of dec ip rs)
          ≡ some (answers_of dec ip rs oks))
      × (max_ip_key_len < length ip
          → answers_of dec ip rs oks ≡ map (λ r. false) (requests_of dec ip rs))

  Apart-mine :
      (m : IpMap) (r : Request) (rs : List Request) (oks : List Bool)
      (s : Served dec sum rate burst m r)
      → Apart s.m' rs oks r.ip
      → Apart m (r ∷ rs) (s.ok ∷ oks) r.ip
  unfolding alone
  Apart-mine m r rs oks s h =
      rw (requests_of_hit dec r.ip r rs refl, answers_of_hit dec r.ip r rs s.ok oks refl)
        (
          λ short. let (l, took, left) = s.taken short in rw (took, ← left, h.0 short) refl,
          λ long. ap₂ ◌∷◌ (s.refused long) (h.1 long),
        )

  Apart-other :
      (m : IpMap) (r : Request) (rs : List Request) (oks : List Bool)
      (s : Served dec sum rate burst m r) (ip : Address)
      → (r.ip ≡ ip → ⊥)
      → Apart s.m' rs oks ip
      → Apart m (r ∷ rs) (s.ok ∷ oks) ip
  Apart-other m r rs oks s ip ne h =
      rw
        (requests_of_miss dec ip r rs ne, answers_of_miss dec ip r rs s.ok oks ne, ← s.others ip ne)
        h

  serve_all-Apart :
      (m : IpMap) (rs : List Request)
      → rate ≤ second
      → IsGood dec sum rate burst m
      → (oks : List Bool) × (serve_all dec sum m rs ≡ some oks)
        × ((ip : Address) → Apart m rs oks ip)
  unfolding serve_all requests_of answers_of alone
  serve_all-Apart m [] slow g = ([], refl, λ ip. (λ short. refl, λ long. refl))
  serve_all-Apart m (r ∷ rs) slow g =
      let s = Served-of dec sum rate burst m r slow g in
      let (oks, did, apart) = serve_all-Apart s.m' rs slow s.good in
      (
        s.ok ∷ oks,
        rw (s.did, did) refl,
        λ ip. elim (dec r.ip ip) [
          | yes p ↦
              subst (Apart m (r ∷ rs) (s.ok ∷ oks)) p
                (Apart-mine m r rs oks s (subst (Apart s.m' rs oks) (sym p) (apart ip)))
          | no p ↦ Apart-other m r rs oks s ip p (apart ip)
        ],
      )

-- NewIPMap for up to 2^62 shards and 10^9 tokens a second, strict or not, and calls of AllowN for any
-- addresses, one after another, whatever the hash: none panics. The answers to the calls for an address of
-- at most 128 bytes are those of a limiter of its own, which New makes at the first of them, to these calls
-- alone. A call for a longer address returns false.
pub new_ip_map-alone :
    (dec : Discrete Address) (sum : Address → ℕ) (rate burst shards : ℕ) (strict : Bool)
    (rs : List Request)
    → rate ≤ second
    → shards ≤ 2 ^ 62
    → (m : IpMap) × (oks : List Bool) × (new_ip_map rate burst shards strict ≡ some m)
      × (serve_all dec sum m rs ≡ some oks)
      × ((ip : Address)
          → (length ip ≤ max_ip_key_len
              → alone rate burst none (requests_of dec ip rs) ≡ some (answers_of dec ip rs oks))
            × (max_ip_key_len < length ip
                → answers_of dec ip rs oks ≡ map (λ r. false) (requests_of dec ip rs)))
unfolding new_ip_map limiter_in
new_ip_map-alone dec sum rate burst shards strict rs slow small =
    let num = if shards == 0 then 64 else shards in
    let (t, made, v, empty) = new-IsMap dec sum num (ground arith) in
    let m : IpMap = record { table = t; rate = rate; burst = burst; strict = strict } in
    let nothing : (ip : Address) → limiter_in (held dec t ip) ≡ none =
      λ ip. ap limiter_in (empty ip) in
    let (oks, did, apart) = serve_all-Apart dec sum rate burst m rs slow (record {
      valid = v;
      settings = (refl, refl);
      paced = λ ip l h. let never : none ≡ some l = sym (nothing ip) ∙ h in cc;
    }) in
    (
      m,
      oks,
      rw made refl,
      did,
      λ ip. (
        λ short.
            ap (λ o. alone rate burst o (requests_of dec ip rs)) (sym (nothing ip))
            ∙ (apart ip).0 short,
        (apart ip).1,
      ),
    )
