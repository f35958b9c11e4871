-- ===== src/Spsc/Invariant.antt =====
-- spsc/ring.go: what the ring holds for its queue: the counters without the wrap, how they lie to each
-- other, and the slots between them.
use native.Mathlib.Nat.{mod-lt}
use yakutil.Base.{
  ℕ, ◌+◌, ◌-◌, ◌%◌, ◌^◌, ◌≤◌, ◌<◌, ◌≡◌, ◌≢◌, refl, true, false, List, [], ◌∷◌, ◌++◌, ltb,
  if◌then◌else◌, length, get_or, set, get_or-set, arith,
}
use yakutil.Base.Int.{u64_mod}
use yakutil.Base.Bits.{two-pow-le, two-pow-pos}
use yakutil.Spsc.Slots.{
  Ring, Producer, at_rest, refreshing, writing, publishing, Consumer, resting, reloading, reading,
  clearing, releasing, Event, quiet, refused, empty, pushed, popped, is_full, System,
}
use yakutil.Spsc.Counters.{distance}

-- How the counters lie to each other, with `n` values in the ring.
abbrev pub Between : ℕ → ℕ → ℕ → ℕ → ℕ → ℕ → Type 0
Between k p o seen_o seen_p n =
    (k ≤ 62) × (p ≡ o + n) × (seen_o ≤ o) × (p ≤ seen_o + 2 ^ k) × (o ≤ seen_p) × (seen_p ≤ p)

module _ {T : Type 0} where
  -- What an event means for a queue of at most `n` values.
  abbrev pub Serves : ℕ → List T → Event T → List T → Type 0
  Serves n q quiet q' = q' ≡ q
  Serves n q (pushed v) q' = (length q < n) × (q' ≡ q ++ (v ∷ []))
  Serves n q refused q' = (length q ≡ n) × (q' ≡ q)
  Serves n q (popped v) q' = q ≡ v ∷ q'
  Serves n q empty q' = (q ≡ []) × (q' ≡ q)

  -- The counters of the ring, for those without the wrap: of the values pushed and popped, and of
  -- those that each side has last seen of the other.
  abbrev pub Counted : ℕ → ℕ → ℕ → ℕ → ℕ → Ring T → Type 0
  Counted k p o seen_o seen_p r =
      (length r.buf ≡ 2 ^ k)
      × (r.mask ≡ 2 ^ k - 1)
      × (r.tail ≡ p % u64_mod)
      × (r.head ≡ o % u64_mod)
      × (r.cached_head ≡ seen_o % u64_mod)
      × (r.cached_tail ≡ seen_p % u64_mod)

module _ {T : Type 0} (z : T) where
  abbrev pub ProducerAt : ℕ → ℕ → ℕ → List T → Producer T → Type 0
  ProducerAt k p seen_o buf at_rest = Unit
  ProducerAt k p seen_o buf (refreshing t v) = t ≡ p % u64_mod
  ProducerAt k p seen_o buf (writing t v) = (t ≡ p % u64_mod) × (p < seen_o + 2 ^ k)
  ProducerAt k p seen_o buf (publishing t v) =
      (t ≡ p % u64_mod) × (p < seen_o + 2 ^ k) × (get_or buf (p % 2 ^ k) z ≡ v)

  abbrev pub ConsumerAt : ℕ → ℕ → List T → Consumer T → Type 0
  ConsumerAt o seen_p q resting = Unit
  ConsumerAt o seen_p q (reloading h) = h ≡ o % u64_mod
  ConsumerAt o seen_p q (reading h) = (h ≡ o % u64_mod) × (o < seen_p)
  ConsumerAt o seen_p q (clearing h v) = (h ≡ o % u64_mod) × (o < seen_p) × (get_or q 0 z ≡ v)
  ConsumerAt o seen_p q (releasing h v) = (h ≡ o % u64_mod) × (o < seen_p) × (get_or q 0 z ≡ v)

  -- The slot of the first value counts until it is cleared.
  abbrev pub first : Consumer T → ℕ
  first resting = 0
  first (reloading h) = 0
  first (reading h) = 0
  first (clearing h v) = 0
  first (releasing h v) = 1

  abbrev pub Holds : ℕ → ℕ → List T → List T → ℕ → Type 0
  Holds k o buf q from =
      (i : ℕ) → from ≤ i → i < length q → get_or buf ((o + i) % 2 ^ k) z ≡ get_or q i z

  -- The ring of 2^k slots stands for the queue.
  pub record Inv (k : ℕ) (s : System T) (q : List T) : Type 0 where
    pub p : ℕ
    pub o : ℕ
    pub seen_o : ℕ
    pub seen_p : ℕ
    pub counted : Counted k p o seen_o seen_p s.ring
    pub between : Between k p o seen_o seen_p (length q)
    pub at_producer : ProducerAt k p seen_o s.ring.buf s.producer
    pub at_consumer : ConsumerAt o seen_p q s.consumer
    pub holds : Holds k o s.ring.buf q (first s.consumer)

  pub is_full-Counted :
      (k p o seen_o seen_p n : ℕ) (r : Ring T) (t : ℕ)
      → Counted k p o seen_o seen_p r
      → Between k p o seen_o seen_p n
      → t ≡ p % u64_mod
      → is_full r t ≡ (if ltb (p - seen_o) (2 ^ k) then false else true)
  unfolding is_full
  is_full-Counted k p o seen_o seen_p n r t (size, mask, tail, head, cached_head, cached_tail)
        (small, is_p, below, room, above, upto) is_t =
      rw
        (
          size,
          is_t,
          cached_head,
          distance seen_o p (omega arith) (omega (arith, two-pow-le k 62 small)),
        )
        refl

  abbrev pub Moved : ℕ → List T → Event T → System T → Type 0
  Moved k q e t = (q' : List T) × Serves (2 ^ k) q e q' × Inv k t q'

  -- A slot after a store to another one, and to itself.
  pub other_slot :
      (k a b : ℕ) (buf : List T) (v : T)
      → length buf ≡ 2 ^ k
      → a % 2 ^ k ≢ b % 2 ^ k
      → get_or (set buf (a % 2 ^ k) v) (b % 2 ^ k) z ≡ get_or buf (b % 2 ^ k) z
  other_slot k a b buf v size apart = ground (
    arith,
    get_or-set buf (a % 2 ^ k) v (b % 2 ^ k) z (omega (arith, size, mod-lt a (two-pow-pos k))),
  )

  pub this_slot :
      (k a : ℕ) (buf : List T) (v : T)
      → length buf ≡ 2 ^ k
      → get_or (set buf (a % 2 ^ k) v) (a % 2 ^ k) z ≡ v
  this_slot k a buf v size = ground (
    arith,
    get_or-set buf (a % 2 ^ k) v (a % 2 ^ k) z (omega (arith, size, mod-lt a (two-pow-pos k))),
  )
