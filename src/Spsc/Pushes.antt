-- ===== src/Spsc/Pushes.antt =====
-- spsc/ring.go: the steps of Push keep the ring in order for its queue.
use Prim.Native.Nat.{bit_and}
use yakutil.Base.{
  ℕ, ◌+◌, ◌-◌, ◌%◌, ◌^◌, ◌≤◌, ◌≡◌, refl, sym, ◌∙◌, ap, inl, inr, List, [], ◌∷◌, ◌++◌, ltb,
  if◌then◌else◌, Bool-cases, length, get_or, length-set, length-append, get_or-append, arith,
}
use yakutil.Base.Int.{u64_mod}
use yakutil.Spsc.Slots.{
  Ring, at_rest, refreshing, writing, publishing, Consumer, resting, reloading, reading, clearing,
  releasing, quiet, pushed, is_full, push_start, push_refresh, push_write, push_publish,
}
use yakutil.Spsc.Counters.{next_counter, slots_apart, slot_of}
use yakutil.Spsc.Invariant.{
  Counted, Between, ProducerAt, ConsumerAt, Inv, Moved, is_full-Counted, other_slot, this_slot,
}

module _ {T : Type 0} (z : T) where
  pub start_push-Moved :
      (k : ℕ) (r : Ring T) (c : Consumer T) (v : T) (q : List T)
      → Inv z k (record { ring = r; producer = at_rest; consumer = c }) q
      → Moved z k q quiet (record { ring = r; producer = push_start r v; consumer = c })
  unfolding push_start
  start_push-Moved k r c v q i = (
    q,
    refl,
    record {
      p = i.p;
      o = i.o;
      seen_o = i.seen_o;
      seen_p = i.seen_p;
      counted = i.counted;
      between = i.between;
      at_producer = at;
      at_consumer = i.at_consumer;
      holds = i.holds;
    },
  )
    where
      at :
          ProducerAt z k
            (i.p)
            (i.seen_o)
            (r.buf)
            (if is_full r r.tail then refreshing r.tail v else writing r.tail v)
      at =
          let (size, mask, tail, head, cached_head, cached_tail) = i.counted in
          let full =
            is_full-Counted z k i.p i.o i.seen_o i.seen_p (length q) r r.tail i.counted i.between
              tail in
          elim (Bool-cases (ltb (i.p - i.seen_o) (2 ^ k))) [
            | inl room ↦ rw (full, room) (tail, ground (arith, room))
            | inr none_left ↦ rw (full, none_left) tail
          ]

  pub refresh-Moved :
      (k : ℕ) (r : Ring T) (c : Consumer T) (t : ℕ) (v : T) (q : List T)
      → Inv z k (record { ring = r; producer = refreshing t v; consumer = c }) q
      → Moved z k q ((push_refresh r t v).2) (record {
        ring = (push_refresh r t v).0;
        producer = (push_refresh r t v).1;
        consumer = c;
      })
  unfolding push_refresh
  refresh-Moved k r c t v q i =
      let (size, mask, tail, head, cached_head, cached_tail) = i.counted in
      let (small, is_p, below, room, above, upto) = i.between in
      let r' : Ring T = record r { cached_head = r.head } in
      let counted : Counted k i.p i.o i.o i.seen_p r' =
        (size, mask, tail, head, head, cached_tail) in
      let between : Between k i.p i.o i.o i.seen_p (length q) =
        (small, is_p, omega arith, omega arith, above, upto) in
      let full =
        is_full-Counted z k i.p i.o i.o i.seen_p (length q) r' t counted between i.at_producer in
      elim (Bool-cases (ltb (i.p - i.o) (2 ^ k))) [
        | inl some_room ↦
            rw (full, some_room)
              (
                q,
                refl,
                record {
                  p = i.p;
                  o = i.o;
                  seen_o = i.o;
                  seen_p = i.seen_p;
                  counted = counted;
                  between = between;
                  at_producer = (i.at_producer, ground (arith, some_room));
                  at_consumer = i.at_consumer;
                  holds = i.holds;
                },
              )
        | inr no_room ↦
            rw (full, no_room)
              (
                q,
                (ground (arith, no_room, is_p, room, below), refl),
                record {
                  p = i.p;
                  o = i.o;
                  seen_o = i.o;
                  seen_p = i.seen_p;
                  counted = counted;
                  between = between;
                  at_producer = tt;
                  at_consumer = i.at_consumer;
                  holds = i.holds;
                },
              )
      ]

  pub write-Moved :
      (k : ℕ) (r : Ring T) (c : Consumer T) (t : ℕ) (v : T) (q : List T)
      → Inv z k (record { ring = r; producer = writing t v; consumer = c }) q
      → Moved z k q quiet
          (record { ring = push_write r t v; producer = publishing t v; consumer = c })
  unfolding push_write
  write-Moved k r c t v q i =
      let (size, mask, tail, head, cached_head, cached_tail) = i.counted in
      let (small, is_p, below, room, above, upto) = i.between in
      let (is_t, space) = i.at_producer in
      let slot : bit_and t r.mask ≡ i.p % 2 ^ k =
        rw is_t (slot_of k i.p r.mask (omega arith) mask) in
      rw slot (
        q,
        refl,
        record {
          p = i.p;
          o = i.o;
          seen_o = i.seen_o;
          seen_p = i.seen_p;
          counted =
              (length-set r.buf (i.p % 2 ^ k) v ∙ size, mask, tail, head, cached_head, cached_tail);
          between = i.between;
          at_producer = (is_t, space, this_slot z k i.p r.buf v size);
          at_consumer = i.at_consumer;
          holds = λ j from within.
              other_slot z k i.p (i.o + j) r.buf v size
                (λ e. slots_apart (2 ^ k) (i.o + j) i.p (omega arith) (omega arith) (sym e))
              ∙ i.holds j from within;
        },
      )

  get_or_end : (q : List T) (v : T) → get_or (q ++ (v ∷ [])) (length q) z ≡ v
  get_or_end [] v = refl
  get_or_end (x ∷ q) v = get_or_end q v

  ConsumerAt-append :
      (o seen_p : ℕ) (q : List T) (v : T) (c : Consumer T)
      → seen_p ≤ o + length q
      → ConsumerAt z o seen_p q c
      → ConsumerAt z o seen_p (q ++ (v ∷ [])) c
  ConsumerAt-append o seen_p q v resting upto at = tt
  ConsumerAt-append o seen_p q v (reloading h) upto at = at
  ConsumerAt-append o seen_p q v (reading h) upto at = at
  ConsumerAt-append o seen_p q v (clearing h x) upto (is_h, some_in, is_x) =
      (is_h, some_in, ground (arith, get_or-append q (v ∷ []) 0 z))
  ConsumerAt-append o seen_p q v (releasing h x) upto (is_h, some_in, is_x) =
      (is_h, some_in, ground (arith, get_or-append q (v ∷ []) 0 z))

  pub publish-Moved :
      (k : ℕ) (r : Ring T) (c : Consumer T) (t : ℕ) (v : T) (q : List T)
      → Inv z k (record { ring = r; producer = publishing t v; consumer = c }) q
      → Moved z k q
          (pushed v)
          (record { ring = push_publish r t; producer = at_rest; consumer = c })
  unfolding push_publish
  publish-Moved k r c t v q i =
      let (size, mask, tail, head, cached_head, cached_tail) = i.counted in
      let (small, is_p, below, room, above, upto) = i.between in
      let (is_t, space, in_slot) = i.at_producer in
      let longer : length (q ++ (v ∷ [])) ≡ length q + 1 = length-append q (v ∷ []) in
      (
        q ++ (v ∷ []),
        (omega arith, refl),
        record {
          p = i.p + 1;
          o = i.o;
          seen_o = i.seen_o;
          seen_p = i.seen_p;
          counted = (
            size,
            mask,
            ap (λ x. (x + 1) % u64_mod) is_t ∙ next_counter i.p,
            head,
            cached_head,
            cached_tail,
          );
          between = (small, omega (arith, longer), below, omega arith, above, omega arith);
          at_producer = tt;
          at_consumer = ConsumerAt-append i.o i.seen_p q v c (omega arith) i.at_consumer;
          holds = λ j from within. elim (Bool-cases (ltb j (length q))) [
            | inl inside ↦
                i.holds j from (ground (arith, inside))
                ∙ sym (get_or-append q (v ∷ []) j z ∙ rw inside refl)
            | inr last ↦
                let past : length q ≤ j = ground (arith, last) in
                let is_last : j ≡ length q = omega (arith, longer) in
                let at_p : i.o + j ≡ i.p = omega arith in
                rw at_p
                  (in_slot ∙ sym (ap (λ x. get_or (q ++ (v ∷ [])) x z) is_last ∙ get_or_end q v))
          ];
        },
      )
