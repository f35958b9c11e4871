-- ===== src/Spsc/Pops.antt =====
-- spsc/ring.go: the steps of Pop keep the ring in order for its queue.
use Prim.Native.Nat.{bit_and}
use yakutil.Base.{
  ℕ, suc, ◌+◌, ◌%◌, ◌^◌, ◌≤◌, ◌<◌, ◌≡◌, ◌≢◌, refl, sym, ◌∙◌, ap, inl, inr, List, [], ◌∷◌, ◌==◌,
  Bool-cases, ==_iff, length, get_or, set, length-set, arith,
}
use yakutil.Base.Int.{u64_mod}
use yakutil.Base.Bits.{two-pow-le}
use yakutil.Spsc.Slots.{
  Ring, Producer, at_rest, refreshing, writing, publishing, resting, reloading, reading, clearing,
  releasing, quiet, popped, pop_start, pop_reload, pop_release, clear_slot, read_slot,
}
use yakutil.Spsc.Counters.{same_counter, next_counter, slots_apart, slot_of}
use yakutil.Spsc.Invariant.{ProducerAt, Inv, Moved, other_slot}

module _ {T : Type 0} (z : T) where
  pub start_pop-Moved :
      (k : ℕ) (r : Ring T) (p : Producer T) (q : List T)
      → Inv z k (record { ring = r; producer = p; consumer = resting }) q
      → Moved z k q quiet (record { ring = r; producer = p; consumer = pop_start r })
  unfolding pop_start
  start_pop-Moved k r p q i =
      let (size, mask, tail, head, cached_head, cached_tail) = i.counted in
      let (small, is_p, below, room, above, upto) = i.between in
      elim (Bool-cases (r.head == r.cached_tail)) [
        | inl none_seen ↦ rw none_seen (
          q,
          refl,
          record {
            p = i.p;
            o = i.o;
            seen_o = i.seen_o;
            seen_p = i.seen_p;
            counted = i.counted;
            between = i.between;
            at_producer = i.at_producer;
            at_consumer = head;
            holds = i.holds;
          },
        )
        | inr some_seen ↦
            let differ : i.o ≢ i.seen_p =
              λ e. ground (arith, some_seen, head, cached_tail, ap (λ x. x % u64_mod) e) in
            rw some_seen (
              q,
              refl,
              record {
                p = i.p;
                o = i.o;
                seen_o = i.seen_o;
                seen_p = i.seen_p;
                counted = i.counted;
                between = i.between;
                at_producer = i.at_producer;
                at_consumer = (head, omega arith);
                holds = i.holds;
              },
            )
      ]

  no_values : (q : List T) → length q ≡ 0 → q ≡ []
  no_values [] h = refl
  no_values (x ∷ q) h = absurd (omega arith)

  pub reload-Moved :
      (k : ℕ) (r : Ring T) (p : Producer T) (h : ℕ) (q : List T)
      → Inv z k (record { ring = r; producer = p; consumer = reloading h }) q
      → Moved z k q
          ((pop_reload r h).2)
          (record { ring = (pop_reload r h).0; producer = p; consumer = (pop_reload r h).1 })
  unfolding pop_reload
  reload-Moved k r p h q i =
      let (size, mask, tail, head, cached_head, cached_tail) = i.counted in
      let (small, is_p, below, room, above, upto) = i.between in
      let is_h : h ≡ i.o % u64_mod = i.at_consumer in
      elim (Bool-cases (h == r.tail)) [
        | inl none_in ↦
            let met : i.o ≡ i.p =
              same_counter i.o i.p (omega arith) (omega (arith, two-pow-le k 62 small))
                (sym is_h ∙ (==_iff h r.tail).0 none_in ∙ tail) in
            rw none_in (
              q,
              (no_values q (omega arith), refl),
              record {
                p = i.p;
                o = i.o;
                seen_o = i.seen_o;
                seen_p = i.p;
                counted = (size, mask, tail, head, cached_head, tail);
                between = (small, is_p, below, room, omega arith, omega arith);
                at_producer = i.at_producer;
                at_consumer = tt;
                holds = i.holds;
              },
            )
        | inr some_in ↦
            let differ : i.o ≢ i.p =
              λ e. ground (arith, some_in, is_h, tail, ap (λ x. x % u64_mod) e) in
            rw some_in (
              q,
              refl,
              record {
                p = i.p;
                o = i.o;
                seen_o = i.seen_o;
                seen_p = i.p;
                counted = (size, mask, tail, head, cached_head, tail);
                between = (small, is_p, below, room, omega arith, omega arith);
                at_producer = i.at_producer;
                at_consumer = (is_h, omega arith);
                holds = i.holds;
              },
            )
      ]

  pub read-Moved :
      (k : ℕ) (r : Ring T) (p : Producer T) (h : ℕ) (q : List T)
      → Inv z k (record { ring = r; producer = p; consumer = reading h }) q
      → Moved z k q quiet
          (record { ring = r; producer = p; consumer = clearing h (read_slot z r h) })
  unfolding read_slot
  read-Moved k r p h q i =
      let (size, mask, tail, head, cached_head, cached_tail) = i.counted in
      let (small, is_p, below, room, above, upto) = i.between in
      let (is_h, some_in) = i.at_consumer in
      let slot : bit_and h r.mask ≡ i.o % 2 ^ k =
        rw is_h (slot_of k i.o r.mask (omega arith) mask) in
      let here : (i.o + 0) % 2 ^ k ≡ i.o % 2 ^ k = ap (λ x. x % 2 ^ k) (omega arith) in
      let found : get_or q 0 z ≡ get_or r.buf (bit_and h r.mask) z =
        sym
          (ap (λ x. get_or r.buf x z) (slot ∙ sym here) ∙ i.holds 0 (omega arith) (omega arith)) in
      (
        q,
        refl,
        record {
          p = i.p;
          o = i.o;
          seen_o = i.seen_o;
          seen_p = i.seen_p;
          counted = i.counted;
          between = i.between;
          at_producer = i.at_producer;
          at_consumer = (is_h, some_in, found);
          holds = i.holds;
        },
      )

  ProducerAt-clear :
      (k p o seen_o : ℕ) (buf : List T) (x : Producer T)
      → length buf ≡ 2 ^ k
      → o < p
      → seen_o ≤ o
      → ProducerAt z k p seen_o buf x
      → ProducerAt z k p seen_o (set buf (o % 2 ^ k) z) x
  ProducerAt-clear k p o seen_o buf at_rest size some_in below at = tt
  ProducerAt-clear k p o seen_o buf (refreshing t v) size some_in below at = at
  ProducerAt-clear k p o seen_o buf (writing t v) size some_in below at = at
  ProducerAt-clear k p o seen_o buf (publishing t v) size some_in below (is_t, space, in_slot) = (
    is_t,
    space,
    other_slot z k o p buf z size (slots_apart (2 ^ k) o p some_in (omega arith)) ∙ in_slot,
  )

  pub clear-Moved :
      (k : ℕ) (r : Ring T) (p : Producer T) (h : ℕ) (v : T) (q : List T)
      → Inv z k (record { ring = r; producer = p; consumer = clearing h v }) q
      → Moved z k q quiet
          (record { ring = clear_slot z r h; producer = p; consumer = releasing h v })
  unfolding clear_slot
  clear-Moved k r p h v q i =
      let (size, mask, tail, head, cached_head, cached_tail) = i.counted in
      let (small, is_p, below, room, above, upto) = i.between in
      let (is_h, some_in, is_v) = i.at_consumer in
      let slot : bit_and h r.mask ≡ i.o % 2 ^ k =
        rw is_h (slot_of k i.o r.mask (omega arith) mask) in
      rw slot (
        q,
        refl,
        record {
          p = i.p;
          o = i.o;
          seen_o = i.seen_o;
          seen_p = i.seen_p;
          counted =
              (length-set r.buf (i.o % 2 ^ k) z ∙ size, mask, tail, head, cached_head, cached_tail);
          between = i.between;
          at_producer =
              ProducerAt-clear k i.p i.o i.seen_o r.buf p size (omega arith) below i.at_producer;
          at_consumer = (is_h, some_in, is_v);
          holds = λ j from within.
              other_slot z k i.o (i.o + j) r.buf z size
                (slots_apart (2 ^ k) i.o (i.o + j) (omega arith) (omega arith))
              ∙ i.holds j (omega arith) within;
        },
      )

  pub release-Moved :
      (k : ℕ) (r : Ring T) (p : Producer T) (h : ℕ) (v : T) (q : List T)
      → Inv z k (record { ring = r; producer = p; consumer = releasing h v }) q
      → Moved z k q (popped v) (record { ring = pop_release r h; producer = p; consumer = resting })
  unfolding pop_release
  release-Moved k r p h v [] i =
      let (small, is_p, below, room, above, upto) = i.between in
      let (is_h, some_in, is_v) = i.at_consumer in absurd (omega arith)
  release-Moved k r p h v (x ∷ q) i =
      let (size, mask, tail, head, cached_head, cached_tail) = i.counted in
      let (small, is_p, below, room, above, upto) = i.between in
      let (is_h, some_in, is_v) = i.at_consumer in
      (
        q,
        ap (λ y. y ∷ q) is_v,
        record {
          p = i.p;
          o = i.o + 1;
          seen_o = i.seen_o;
          seen_p = i.seen_p;
          counted = (
            size,
            mask,
            tail,
            ap (λ y. (y + 1) % u64_mod) is_h ∙ next_counter i.o,
            cached_head,
            cached_tail,
          );
          between = (small, omega arith, omega arith, room, omega arith, upto);
          at_producer = i.at_producer;
          at_consumer = tt;
          holds = λ j from within.
              let moved : i.o + 1 + j ≡ i.o + suc j = omega arith in
              rw moved (i.holds (suc j) (omega arith) (omega arith));
        },
      )
