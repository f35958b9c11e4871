-- ===== src/Ratelimit/Tests.antt =====
-- ratelimit/ratelimit.go, ratelimit/ipmap.go: runs of the bucket and of the map, and each theorem at an input that meets its hypotheses.
use native.Mathlib.Decide.{ℕ_discrete}
use yakutil.Base.{
  ℕ, ◌+◌, ◌-◌, ◌*◌, ◌/◌, ◌%◌, ◌^◌, ◌≤◌, ◌<◌, ◌≡◌, ◌≢◌, refl, true, false, Bool, none, some, List,
  [], ◌∷◌, arith, map, ltb, length,
}
use yakutil.Base.Int.{pos}
use yakutil.Ratelimit.Bucket.{
  Limiter, origin, sum_of, new, or_one, tokens_due, refill, deduct, allow_n, reset, second,
}
use yakutil.Ratelimit.Calls.{
  Caller, resting, looping, timed, deciding, load_tokens, claim, top_up, take, System, begins,
  loads_last, loads_tokens, takes, Steps, done, after,
}
use yakutil.Ratelimit.Bounds.{all_resting, Steps-granted}
use yakutil.Ratelimit.Waits.{allow_n-later, new-allow_n}
use mathlib.Core.Path.{ap₂}
use mathlib.Core.List.Perm
use yakutil.Smap.Shards
use yakutil.Smap.Shards.{Map}
use yakutil.Smap.Entries.{entries}
use yakutil.Topn.Firsts.{IsTop}
use yakutil.Topn.Insertion.{insertion_sort, insertion_sort-IsSort}
use yakutil.Ratelimit.Addresses
use yakutil.Ratelimit.Addresses.{
  Address, Entry, IpMap, Report, new_ip_map, new_entry, minute, recent_hits, evict, purge_ips,
  top_ips, top_recent, max_ip_key_len,
}
use yakutil.Ratelimit.Tops.{reports, top_ips-IsTop}
use yakutil.Ratelimit.Windows.{touches, recent_hits-touches}
use yakutil.Ratelimit.Isolation.{Request}
use yakutil.Ratelimit.Answers.{alone, requests_of, answers_of, serve_all, new_ip_map-alone}

program : Unit {0}
unfolding ℕ_discrete new or_one tokens_due sum_of refill deduct allow_n reset load_tokens claim
    top_up take evict Addresses.cutoff Addresses.note_stale Addresses.del_all Shards.range
    Shards.range_shard Shards.del Shards.del_at Shards.remove Shards.shard Shards.lookup
program = tt

-- five tokens a second, three at once
abbrev start : Limiter
start = new 5 3 1000

abbrev later : Limiter
later = record { tokens = origin + 1; last_nano = 1000; rate = 5; burst = 3; interval = 200000000 }

allows : allow_n start 1000 2 ≡ some (later, true)
unfolding program
allows = refl

refuses_then : allow_n later 1000 2 ≡ some (later, false)
unfolding program
refuses_then = refl

refills :
    allow_n later 200001000 2
    ≡ some (
      record { tokens = origin; last_nano = 200001000; rate = 5; burst = 3; interval = 200000000 },
      true,
    )
unfolding program
refills = refl

never_more : allow_n later 200001000 4 ≡ some (later, false)
unfolding program
never_more = refl

-- The sum of a refill goes round: a limiter of the greatest burst refuses a token.
goes_round :
    allow_n (new 1000 (2 ^ 63 - 1) 0) 1000000 1
    ≡ some (
      record {
        tokens = 0;
        last_nano = 1000000;
        rate = 1000;
        burst = 2 ^ 63 - 1;
        interval = 1000000;
      },
      false,
    )
unfolding program
goes_round = refl

full_again : reset later 7 ≡ new 5 3 7
unfolding program
full_again = refl

-- One call for two tokens.
abbrev with_caller : Caller → System
with_caller c = record { limiter = start; callers = c ∷ []; granted = 0 }

abbrev ended : System
ended = record { limiter = later; callers = resting ∷ []; granted = 2 }

one_call :
    Steps 2000 (record { limiter = new 5 3 1000; callers = all_resting 1; granted = 0 }) ended
unfolding program
one_call =
    after (with_caller resting) (with_caller (deciding 2 1000 (origin + 3))) ended
      (after (with_caller resting) (with_caller (timed 2 1000 1000))
        (with_caller (deciding 2 1000 (origin + 3)))
        (after (with_caller resting) (with_caller (looping 2 1000))
          (with_caller (timed 2 1000 1000))
          (after (with_caller resting) (with_caller resting) (with_caller (looping 2 1000))
            (done (with_caller resting))
            (begins start (resting ∷ []) 0 0 2 1000 refl (omega arith) (omega arith)))
          (loads_last start (looping 2 1000 ∷ []) 0 0 2 1000 refl))
        (loads_tokens start (timed 2 1000 1000 ∷ []) 0 0 2 1000 1000 refl (omega arith)))
      (takes start (deciding 2 1000 (origin + 3) ∷ []) 0 0 2 1000 (origin + 3) refl refl)

Steps-granted_example :
    (second / or_one 5) * ended.granted ≤ (second / or_one 5) * or_one 3 + (2000 - 1000)
Steps-granted_example = Steps-granted 5 3 1000 2000 1 (omega arith) ended one_call

fits : or_one 2 ≤ later.burst
unfolding program
fits = omega arith

wait : 1000 + or_one 2 * later.interval ≤ 400001000
unfolding program
wait = omega arith

allow_n-later_example : (l : Limiter) × (allow_n later 400001000 2 ≡ some (l, true))
allow_n-later_example =
    allow_n-later later 1000 400001000 2 (omega arith) (omega arith) (omega arith) (omega arith)
      fits wait (omega arith) later refuses_then

one_fits : or_one 1 ≤ or_one 3
unfolding program
one_fits = omega arith

new-allow_n_example : allow_n (new 2000000000 3 0) 5 1 ≡ none
new-allow_n_example = new-allow_n 2000000000 3 0 5 1 (omega arith) one_fits

-- The library's decision on lists does not compute.
same_address : Discrete Address
same_address [] [] = yes refl
same_address [] (y ∷ b) = no (λ e. cc)
same_address (x ∷ a) [] = no (λ e. cc)
same_address (x ∷ a) (y ∷ b) =
    let rest = same_address a b in
    elim (ℕ_discrete x y) [
      | yes p ↦ elim rest [ yes q ↦ yes (ap₂ ◌∷◌ p q) | no n ↦ no (λ e. n (cc)) ]
      | no n ↦ no (λ e. n (cc))
    ]

-- the hash: the first byte
abbrev first_byte : Address → ℕ
first_byte [] = 0
first_byte (b ∷ l) = b

-- two addresses, the first with more calls than its burst
abbrev requests : List Request
requests =
    record { ip = 1 ∷ 7 ∷ []; n = 2; now = 1000; made = 1000; used = 1000 }
    ∷ record { ip = 2 ∷ []; n = 1; now = 1100; made = 1100; used = 1100 }
    ∷ record { ip = 1 ∷ 7 ∷ []; n = 2; now = 1200; made = 1200; used = 1200 }
    ∷ record { ip = 2 ∷ []; n = 2; now = 1300; made = 1300; used = 1300 }
    ∷ []

new_ip_map-alone_example :
    (m : IpMap) × (oks : List Bool) × (new_ip_map 5 3 0 false ≡ some m)
    × (serve_all same_address first_byte m requests ≡ some oks)
    × ((ip : Address)
        → (length ip ≤ max_ip_key_len
            → alone 5 3 none (requests_of same_address ip requests)
              ≡ some (answers_of same_address ip requests oks))
          × (max_ip_key_len < length ip
              → answers_of same_address ip requests oks
                ≡ map (λ r. false) (requests_of same_address ip requests)))
new_ip_map-alone_example =
    new_ip_map-alone same_address first_byte 5 3 0 false requests (omega arith) (omega arith)

-- an entry of five calls, last used at a time
abbrev used_at : ℕ → Entry
used_at now = record {
  lim = start;
  last_used = now;
  hits = 5;
  recent_min = 0;
  recent_count = 5;
  prev_count = 0;
}

abbrev pair : IpMap
pair = record {
  table = record {
    shards = [] ∷ ((1 ∷ 7 ∷ [], used_at 1000) ∷ (1 ∷ [], used_at 9000) ∷ []) ∷ [] ∷ [] ∷ [];
    mask = 3;
  };
  rate = 5;
  burst = 3;
  strict = true;
}

evict_one :
    evict (λ s. s) same_address first_byte pair (pos 5000) 10000
    ≡ some (
      record pair {
        table = record { shards = [] ∷ ((1 ∷ [], used_at 9000) ∷ []) ∷ [] ∷ [] ∷ []; mask = 3 };
      },
      1,
    )
unfolding program same_address
evict_one = refl

top_ips-IsTop_example :
    (r : List Report) × (top_ips (λ s. s) insertion_sort pair 1 (λ ip. 70) ≡ some r)
    × IsTop
        (λ a b. ltb (Report.hits b) (Report.hits a))
        1
        (reports (λ ip. 70) (entries pair.table.shards))
        r
top_ips-IsTop_example =
    top_ips-IsTop insertion_sort (insertion_sort-IsSort Report) (λ s. s) (λ s. Perm.refl s) pair 1
      (λ ip. 70)

-- a day later
recent_hits-touches_example :
    (86460 / 60 ≡ 86400 * second / minute
      → recent_hits (touches 1 (86400 * second) (touches 1000 0 (new_entry 5 3 0 0))) 86460
        ≡ 1000 * (60 - 86460 % 60) / 60 + 1)
    × (86460 / 60 ≢ 86400 * second / minute
        → recent_hits (touches 1 (86400 * second) (touches 1000 0 (new_entry 5 3 0 0))) 86460 ≡ 1)
recent_hits-touches_example =
    recent_hits-touches 5 3 0 999 0 0 (86400 * second) 86460 (λ e. absurd (omega arith))
