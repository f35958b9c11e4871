-- ===== src/Ring/Fills.antt =====
-- ring/ring.go: `ReadFrom` appends to the buffer all that the reader delivers.
use mathlib.Core.Path.{ap}
use mathlib.Core.List.{append_assoc}
use yakutil.Base.{
  ℕ, zero, suc, ◌+◌, ◌-◌, ◌%◌, ◌^◌, ◌≤◌, ◌<◌, min, ◌≡◌, ◌⊎◌, refl, sym, ◌∙◌, Bool, true, false,
  Option, some, List, ◌++◌, arith, ltb, ◌==◌, if◌then◌else◌, Bool-cases, inl, inr, length,
  overwrite_at, length-append,
}
use yakutil.Base.Int.{u64_mod}
use yakutil.Ring.Buffer.{Buffer, len, free, write_start, grow, put_bytes}
use yakutil.Ring.Stream.{Reader, IsReader, ReadEnd, more, eof, failed, Filled, read_from, room}
use yakutil.Ring.Inv.{IsValid, contents, write_start-lt}
use yakutil.Ring.Writes.{grow-Grown, Appended, store-Appended}

-- the buffer at the start of a round
abbrev ready : Buffer → Option Buffer
ready b = if free b == 0 then grow b 4096 else some b

ready-Grown :
    {b : Buffer}
    → IsValid b
    → len b + 4096 ≤ 2 ^ 62
    → (g : Buffer) × (ready b ≡ some g)
      × IsValid g
      × (contents g ≡ contents b)
      × (len g ≡ len b)
      × (0 < free g)
ready-Grown {b} v fits = elim (Bool-cases (free b == 0)) [
  | inl e ↦
      let (g, grown, t) = grow-Grown v 4096 fits in
      (g, rw e grown, t.valid, t.same, t.long, omega (arith, t.room))
  | inr e ↦ (b, rw e refl, v, refl, refl, ground (arith, e))
]

-- Bytes that fit before the end of the array are stored as `Write` stores them.
put_bytes_flat :
    (buf : List ℕ) (e : ℕ) (p : List ℕ)
    → length p ≤ length buf - e
    → overwrite_at buf e p ≡ put_bytes buf e p
unfolding put_bytes
put_bytes_flat buf e p h = sym (rw all refl)
  where
    all : ltb (min (length buf - e) (length p)) (length p) ≡ false
    all = ground arith

ReadEnd-cases : (e : ReadEnd) → (e ≡ more) ⊎ ((e ≡ eof) ⊎ (e ≡ failed))
ReadEnd-cases more = inl refl
ReadEnd-cases eof = inr (inl refl)
ReadEnd-cases failed = inr (inr refl)

Appended-trans :
    {b b' b'' : Buffer} {p q : List ℕ}
    → Appended b p b'
    → Appended b' q b''
    → Appended b (p ++ q) b''
Appended-trans {b} {p = p} {q = q} t u = record {
  valid = u.valid;
  bytes = u.bytes ∙ (ap (λ l. l ++ q) t.bytes ∙ append_assoc (contents b) p q);
  long = omega (arith, t.long, u.long, length-append p q);
}

module _ {S : Type 0} {log : S → List ℕ} {left : S → ℕ} {rd : Reader S}
    (ok : IsReader log left rd) where
  -- What `ReadFrom` has done, from the reader `s`, the buffer `b` and a count: `p` was delivered.
  pub record Received (s : S) (b : Buffer) (total : ℕ) (result : Option (Filled S)) : Type 0 where
    pub out : Filled S
    pub p : List ℕ
    pub ended : result ≡ some out
    pub got : log out.0 ≡ log s ++ p
    pub stored : Appended b p out.1
    pub count : out.2 ≡ total + length p

  -- The buffer after one `Read` into the free part up to the end of the array.
  abbrev after_read : S → Buffer → Buffer
  after_read s g = record g {
    buf = overwrite_at g.buf (write_start g) (rd s (room rd g)).1;
    w = (g.w + length (rd s (room rd g)).1) % u64_mod;
  }

  room-pos : {g : Buffer} → IsValid g → 0 < free g → 0 < room rd g
  room-pos gv space = omega (arith, write_start-lt gv, space)

  one_read :
      {b g : Buffer} (s : S)
      → IsValid g
      → contents g ≡ contents b
      → len g ≡ len b
      → Appended b (rd s (room rd g)).1 (after_read s g)
  one_read {b} {g} s v same long = record {
    valid = a.valid;
    bytes = a.bytes ∙ ap (λ l. l ++ p) same;
    long = a.long ∙ ap (λ n. n + length p) long;
  }
    where
      p : List ℕ
      p = (rd s (room rd g)).1

      a : Appended g p (after_read s g)
      a =
          store-Appended p (overwrite_at g.buf (write_start g) p) v
            (omega (arith, ok.fits s (room rd g), v.bounded))
            (put_bytes_flat g.buf (write_start g) p (omega (arith, ok.fits s (room rd g))))

  -- The last round, and a round with more to come.
  stop :
      {b b' : Buffer} (s s' : S) (p : List ℕ) (total : ℕ) (fine : Bool)
      → log s' ≡ log s ++ p
      → Appended b p b'
      → Received s b total (some (s', b', total + length p, fine))
  stop {b' = b'} s s' p total fine got a = record {
    out = (s', b', total + length p, fine);
    p = p;
    ended = refl;
    got = got;
    stored = a;
    count = refl;
  }

  resume :
      {b b' : Buffer} {s s' : S} {p : List ℕ} {total : ℕ} {result : Option (Filled S)}
      → log s' ≡ log s ++ p
      → Appended b p b'
      → Received s' b' (total + length p) result
      → Received s b total result
  resume {s = s} {p = p} got a more_came = record {
    out = more_came.out;
    p = p ++ more_came.p;
    ended = more_came.ended;
    got = more_came.got ∙ (ap (λ l. l ++ more_came.p) got ∙ append_assoc (log s) p more_came.p);
    stored = Appended-trans a more_came.stored;
    count = omega (arith, more_came.count, length-append p more_came.p);
  }

  -- On a valid buffer `ReadFrom` ends within one round more than the reader has answers left, with
  -- every byte that the reader delivered appended in order and counted, after an error too. The
  -- contents are to stay 4096 bytes below `2 ^ 62`.
  pub read_from-append :
      (rounds : ℕ) {b : Buffer} (s : S) (total : ℕ)
      → IsValid b
      → left s < rounds
      → len b + left s + 4096 ≤ 2 ^ 62
      → Received s b total (read_from rd rounds s b total)
  unfolding read_from
  read_from-append zero s total v h fits = absurd (omega arith)
  read_from-append (suc rounds) {b} s total v h fits =
      let (g, made, gv, same, long, space) = ready-Grown v (omega (arith, fits)) in
      let a = one_read s gv same long in
      let got = ok.keeps s (room rd g) in
      rw made (elim (ReadEnd-cases (rd s (room rd g)).2) [
        | inl e ↦ rw e (
            resume got a (
              read_from-append rounds _ _ a.valid
                (omega (arith, ok.ends s (room rd g) (room-pos gv space) e))
                (omega (arith, a.long, ok.bounded s (room rd g)))))
        | inr (inl e) ↦ rw e (stop s _ _ total true got a)
        | inr (inr e) ↦ rw e (stop s _ _ total false got a)
      ])
