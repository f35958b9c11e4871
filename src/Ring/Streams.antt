-- ===== src/Ring/Streams.antt =====
-- ring/ring.go: `WriteTo` hands the contents on, and `ReadFrom` appends all that it is given.
use mathlib.Core.Path.{ap, ap₂}
use mathlib.Core.List.{append_assoc, append-nil}
use native.Mathlib.Nat.{mod_self}
use yakutil.Base.{
  ℕ, ◌+◌, ◌-◌, ◌%◌, ◌≤◌, ◌<◌, min, ◌≡◌, refl, sym, ◌∙◌, Bool, true, false, List, ◌++◌, arith, leb,
  leb→le, ◌==◌, ==_iff, Bool-cases, inl, inr, length, take, drop, window, length-drop, length-take,
  take-take_of_le, take-append_left, take_of_length-le, take-add, rotate,
}
use yakutil.Ring.Buffer.{Buffer, len, cap, read_start, slice}
use yakutil.Ring.Stream.{Written, Writer, IsWriter, write_rest, write_to}
use yakutil.Ring.Inv.{IsValid, contents, advance, cap-pos, read_start-lt, length-contents}
use yakutil.Ring.Reads.{Took, Took-trans, nothing-Took, consumed, consumed-Took}
use yakutil.Ring.Peeks.{window_flat, window_round}

-- the first part of contents that go round, and what is left after it
abbrev first : Buffer → List ℕ
first b = drop (read_start b) b.buf

abbrev rest : Buffer → Buffer
rest b = consumed b (cap b - read_start b) b.read_prev b.has_unread

module _ {S : Type 0} {log : S → List ℕ} {w : Writer S} (ok : IsWriter log w) where
  -- The writer has got the first `n` bytes of `b`, which are gone from it.
  record Sent (s : S) (b : Buffer) (s' : S) (b' : Buffer) (n : ℕ) : Type 0 where
    took : Took b n b'
    got : log s' ≡ log s ++ take n (contents b)
    count : n ≤ len b

  -- One `Write` of a front of the contents.
  send :
      {b : Buffer} (s : S) (p : List ℕ) (m : ℕ)
      → IsValid b
      → p ≡ take m (contents b)
      → m ≤ len b
      → Sent s b (w s p).0 (consumed b (w s p).1 b.read_prev b.has_unread) (w s p).1
  send {b} s p m v e h = record {
    took = consumed-Took v (w s p).1 b.read_prev b.has_unread bound;
    got =
        ok.keeps s p
        ∙ ap (λ l. log s ++ l)
            (ap (take (w s p).1) e
              ∙ take-take_of_le (w s p).1 m (contents b) (omega (arith, ok.count s p, long)));
    count = bound;
  }
    where
      long : length p ≡ min m (len b)
      long = ap length e ∙ (length-take m (contents b) ∙ ap (λ n. min m n) (length-contents v))

      bound : (w s p).1 ≤ len b
      bound = omega (arith, ok.count s p, long)

  -- The second part, when the first ended at the end of the array.
  module _ {b : Buffer} (v : IsValid b) (round : cap b < read_start b + len b) where
    first-take : first b ≡ take (cap b - read_start b) (contents b)
    first-take =
        sym (take-append_left (first b) (take (read_start b + len b - cap b) b.buf))
        ∙ (ap (λ n. take n (first b ++ take (read_start b + len b - cap b) b.buf))
              (length-drop (read_start b) b.buf)
            ∙ ap (take (cap b - read_start b)) (
                window_round b.buf (read_start b) (len b) (read_start-lt v) v.bounded
                  (omega arith)))

    rest-Took : Took b (cap b - read_start b) (rest b)
    rest-Took = consumed-Took v _ _ _ (omega arith)

    rest-take : take (len (rest b)) b.buf ≡ take (len (rest b)) (contents (rest b))
    rest-take =
        at_start
        ∙ (ap₂ (window b.buf) (sym wrapped) refl
            ∙ sym (
                take_of_length-le (len (rest b)) (contents (rest b))
                  (omega (arith, length-contents rest-Took.valid))))
      where
        wrapped : read_start (rest b) ≡ 0
        wrapped =
            advance v b.r (cap b - read_start b)
            ∙ omega (
              arith,
              read_start-lt v,
              cap-pos v,
              rotate (read_start b) (cap b - read_start b) (cap b) (read_start-lt v) (omega arith),
              mod_self (cap b),
              to_end,
            )
          where
            to_end : (read_start b + (cap b - read_start b)) % cap b ≡ cap b % cap b
            to_end = ap (λ n. n % cap b) (omega (arith, read_start-lt v))

        at_start : take (len (rest b)) b.buf ≡ window b.buf 0 (len (rest b))
        at_start =
            ap (λ n. take n b.buf) (omega arith)
            ∙ window_flat b.buf 0 (len (rest b)) (cap-pos v) rest-Took.valid.bounded
                (omega (arith, rest-Took.valid.bounded))

  -- What `WriteTo` has done, from the writer `s` and the buffer `b`.
  pub record Delivered (s : S) (b : Buffer) (out : Written S) : Type 0 where
    pub got : log out.0 ≡ log s ++ take out.2 (contents b)
    pub took : Took b out.2 out.1
    pub count : out.2 ≤ len b
    pub whole : out.3 ≡ false → out.2 ≡ len b

  all_of_it : {b : Buffer} → IsValid b → length (take (len b) (contents b)) ≡ len b
  all_of_it {b} v = omega (arith, length-take (len b) (contents b), length-contents v)

  one_part :
      {b : Buffer} (s : S) (p : List ℕ)
      → IsValid b
      → p ≡ take (len b) (contents b)
      → Delivered s b
          ((w s p).0, consumed b (w s p).1 b.read_prev b.has_unread, (w s p).1, (w s p).2)
  one_part {b} s p v e =
      let t = send s p (len b) v e (omega arith) in
      record {
        got = t.got;
        took = t.took;
        count = t.count;
        whole = λ fine. ok.all s p fine ∙ (ap length e ∙ all_of_it v);
      }

  two_parts :
      {b b' : Buffer} (s s' : S) (n : ℕ) (err : Bool)
      → Sent s b s' b' n
      → (err ≡ false → take (len b') b'.buf ≡ take (len b') (contents b'))
      → Delivered s b (write_rest w s' b' n err)
  unfolding write_rest
  two_parts s s' n true t next = record {
    got = t.got;
    took = t.took;
    count = t.count;
    whole = λ e. cc;
  }
  two_parts {b} {b'} s s' n false t next =
      let p = take (len b') b'.buf in
      let u = one_part s' p t.took.valid (next refl) in
      record {
        got =
            u.got
            ∙ (ap₂ (λ l c. l ++ take (w s' p).1 c) t.got t.took.rest
                ∙ (append_assoc (log s) (take n (contents b))
                      (take (w s' p).1 (drop n (contents b)))
                    ∙ ap (λ l. log s ++ l) (sym (take-add n (w s' p).1 (contents b)))));
        took = Took-trans n (w s' p).1 t.took u.took;
        count = omega (arith, t.count, u.count, t.took.left);
        whole = λ e. omega (arith, t.count, u.whole e, t.took.left);
      }

  -- `WriteTo` hands the writer a front of the contents and removes just that, whether or not they go
  -- round the end of the array. Without an error that is all of them.
  pub write_to-contents : {b : Buffer} (s : S) → IsValid b → Delivered s b (write_to w s b)
  unfolding write_to
  write_to-contents {b} s v = elim (Bool-cases (len b == 0)) [
    | inl e ↦ rw e (nothing ((==_iff (len b) 0).0 e))
    | inr e ↦ elim (Bool-cases (leb (read_start b + len b) (cap b))) [
      | inl flat ↦ rw (e, flat) (one_part s _ v (shown (leb→le _ _ flat)))
      | inr round ↦
          rw (e, round)
            (let over : cap b < read_start b + len b = ground arith in
              two_parts s (w s (first b)).0 (w s (first b)).1 (w s (first b)).2
                (send s (first b) (cap b - read_start b) v (first-take v over) (omega arith))
                (λ fine.
                  rw (ok.all s (first b) fine, length-drop (read_start b) b.buf)
                    (rest-take v over)))
    ]
  ]
    where
      nothing : len b ≡ 0 → Delivered s b (s, b, 0, false)
      nothing e = record {
        got = sym (append-nil (log s));
        took = nothing-Took v b.has_unread;
        count = omega arith;
        whole = λ _. sym e;
      }

      shown :
          read_start b + len b ≤ cap b
          → slice b.buf (read_start b) (read_start b + len b) ≡ take (len b) (contents b)
      shown h =
          window_flat b.buf (read_start b) (len b) (read_start-lt v) v.bounded h
          ∙ sym (take_of_length-le (len b) (contents b) (omega (arith, length-contents v)))
