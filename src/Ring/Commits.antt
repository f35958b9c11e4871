-- ===== src/Ring/Commits.antt =====
-- ring/ring.go: `WritableSegments` and `CommitWrite`, with a caller that fills the ranges between.
use mathlib.Core.Path.{ap, ap₂}
use yakutil.Base.{
  ℕ, suc, ◌+◌, ◌-◌, ◌%◌, ◌^◌, ◌≤◌, ◌<◌, min, ◌≡◌, ◌⊎◌, refl, sym, ◌∙◌, false, some, List, [], ◌∷◌,
  ◌++◌, arith, ltb, ◌==◌, ==_iff, if◌then◌else◌, Bool-cases, inl, inr, length, get_or, take, drop,
  overwrite, overwrite_at, List-ext, length-take, length-drop, length-overwrite_at, get_or-take,
  get_or-drop, get_or-overwrite_at, window, rotate, take-nil, take_of_length-le, overwrite-nil,
  drop-nil, overwrite_at-nil,
}
use yakutil.Base.Int.{pos, u64_mod}
use yakutil.Ring.Buffer.{Buffer, len, cap, free, read_start, write_start, put_bytes, grow}
use yakutil.Ring.Segments.{Range, ranges, writable_segments, commit_write, fill}
use yakutil.Ring.Copies.{length-put_bytes, get_or-put_bytes}
use yakutil.Ring.Inv.{
  IsValid, contents, cap-pos, cap-le, read_start-lt, write_start-lt, write_start-eq, IsNormal,
}
use yakutil.Ring.Writes.{grow-Grown, Appended, store-Appended}

length-fill : (buf : List ℕ) (s : Range × Range) (p : List ℕ) → length (fill buf s p) ≡ length buf
unfolding fill
length-fill buf ((lo, hi), (lo', hi')) p =
    length-overwrite_at (overwrite_at buf lo (take (hi - lo) p)) lo'
      (take (hi' - lo') (drop (hi - lo) p))
    ∙ length-overwrite_at buf lo (take (hi - lo) p)

module _ (buf : List ℕ) (lo hi hi' : ℕ) (p : List ℕ) where
  -- the bytes that go into each range
  abbrev head_part : List ℕ
  head_part = take (hi - lo) p

  abbrev tail_part : List ℕ
  tail_part = take hi' (drop (hi - lo) p)

  get_or-fill :
      (i : ℕ)
      → i < length buf
      → get_or (fill buf ((lo, hi), (0, hi')) p) i 0 ≡ (
          if ltb i (length tail_part)
          then get_or tail_part i 0
          else if ltb i lo
          then get_or buf i 0
          else if ltb (i - lo) (length head_part)
          then get_or head_part (i - lo) 0
          else get_or buf i 0)
  unfolding fill
  get_or-fill i lt = ground (
    arith,
    length-overwrite_at buf lo head_part,
    get_or-overwrite_at (overwrite_at buf lo head_part) 0 tail_part i 0,
    get_or-overwrite_at buf lo head_part i 0,
  )

  get_or-parts :
      (i : ℕ)
      → (length tail_part ≡ min hi' (length p - (hi - lo)))
        × (length head_part ≡ min (hi - lo) (length p))
        × (get_or head_part i 0 ≡ (if ltb i (hi - lo) then get_or p i 0 else 0))
        × (get_or tail_part i 0 ≡ (if ltb i hi' then get_or p (hi - lo + i) 0 else 0))
  get_or-parts i = (
    omega (arith, length-take hi' (drop (hi - lo) p), length-drop (hi - lo) p),
    length-take (hi - lo) p,
    get_or-take (hi - lo) p i 0,
    ground (arith, get_or-take hi' (drop (hi - lo) p) i 0, get_or-drop (hi - lo) p i 0),
  )

-- A range from `e` to `hi`, and one from 0 on if the first reaches the end of the array, take `p` as
-- the two copies of `Write` do.
fill-put_bytes :
    (buf : List ℕ) (e hi hi' : ℕ) (p : List ℕ)
    → e < length buf
    → length p ≤ length buf
    → length p ≤ (hi - e) + hi'
    → e ≤ hi
    → hi ≤ length buf
    → (hi ≡ length buf) ⊎ (length p ≤ hi - e)
    → fill buf ((e, hi), (0, hi')) p ≡ put_bytes buf e p
fill-put_bytes buf e hi hi' p he fits up order top full =
    List-ext 0 _ _ (length-fill buf ((e, hi), (0, hi')) p ∙ sym (length-put_bytes buf e p)) (λ i lt.
      let inside : i < length buf = omega (arith, length-fill buf ((e, hi), (0, hi')) p) in
      point i inside)
  where
    point :
        (i : ℕ)
        → i < length buf
        → get_or (fill buf ((e, hi), (0, hi')) p) i 0 ≡ get_or (put_bytes buf e p) i 0
    point i inside = ground (
      arith,
      get_or-put_bytes buf e p i he inside fits,
      get_or-fill buf e hi hi' p i inside,
      (get_or-parts buf e hi hi' p i).3,
      (get_or-parts buf e hi hi' p i).0,
      (get_or-parts buf e hi hi' p i).1,
      (get_or-parts buf e hi hi' p (i - e)).2,
    )

-- With no bytes nothing is written.
fill-nil : (buf : List ℕ) (s : Range × Range) (e : ℕ) → fill buf s [] ≡ put_bytes buf e []
unfolding fill put_bytes
fill-nil buf ((lo, hi), (lo', hi')) e = ground (
  arith,
  take-nil {A = ℕ} (hi - lo),
  drop-nil {A = ℕ} (hi - lo),
  drop-nil {A = ℕ} (min (cap_of - e) 0),
  take-nil {A = ℕ} (hi' - lo'),
  overwrite_at-nil buf lo,
  overwrite_at-nil buf lo',
  overwrite_at-nil buf e,
)
  where
    cap_of : ℕ
    cap_of = length buf

-- What `ranges` lends: from the write position to the end of the array or as far as is wanted, and
-- then from 0 on.
record Lent (g : Buffer) (n : ℕ) (s : Range × Range) : Type 0 where
  hi : ℕ
  hi' : ℕ
  is : s ≡ ((write_start g, hi), (0, hi'))
  enough : n ≤ (hi - write_start g) + hi'
  order : write_start g ≤ hi
  top : hi ≤ cap g
  full : (hi ≡ cap g) ⊎ (n ≤ hi - write_start g)

module _ {g : Buffer} (v : IsValid g) (n : ℕ) (some_room : 0 < n) (room : len g + n ≤ cap g) where
  write_at : write_start g ≡ (
      if ltb (read_start g + len g) (cap g)
      then read_start g + len g
      else read_start g + len g - cap g)
  write_at = write_start-eq v ∙ rotate (read_start g) (len g) (cap g) (read_start-lt v) v.bounded

  not_full : (free g == 0) ≡ false
  not_full = ground arith

  ranges-Lent : IsNormal g → Lent g n (ranges g)
  unfolding ranges
  ranges-Lent normal = elim (Bool-cases (g.r == g.w)) [
    | inl e ↦
        let same : g.r ≡ g.w = (==_iff g.r g.w).0 e in
        let start : write_start g ≡ 0 = ground (arith, normal same) in
        rw (not_full, e)
          (record {
            hi = free g;
            hi' = 0;
            is = rw start refl;
            enough = omega (arith, start);
            order = omega (arith, start);
            top = omega arith;
            full = inr (omega (arith, start));
          })
    | inr e ↦ elim (Bool-cases (ltb (write_start g) (read_start g))) [
      | inl lt ↦
          rw (not_full, e, lt)
            (record {
              hi = read_start g;
              hi' = 0;
              is = refl;
              enough = ground (arith, write_at);
              order = ground arith;
              top = omega (arith, read_start-lt v);
              full = inr (ground (arith, write_at));
            })
      | inr le ↦
          rw (not_full, e, le)
            (record {
              hi = cap g;
              hi' = read_start g;
              is = ground arith;
              enough = ground (arith, write_at, v.r_word, v.w_word);
              order = omega (arith, write_start-lt v);
              top = omega arith;
              full = inl refl;
            })
    ]
  ]

-- Whatever fits goes where `Write` would put it.
fill-ranges :
    {g : Buffer} (p : List ℕ)
    → IsValid g
    → IsNormal g
    → len g + length p ≤ cap g
    → fill g.buf (ranges g) p ≡ put_bytes g.buf (write_start g) p
fill-ranges {g} [] v normal room = fill-nil g.buf (ranges g) (write_start g)
fill-ranges {g} (x ∷ xs) v normal room =
    ap (λ s. fill g.buf s (x ∷ xs)) l.is
    ∙ fill-put_bytes g.buf (write_start g) l.hi l.hi' (x ∷ xs) (write_start-lt v) (omega arith)
        l.enough l.order l.top l.full
  where
    l : Lent g (suc (length xs)) (ranges g)
    l = ranges-Lent v (suc (length xs)) (omega arith) room normal

commit-some :
    (g : Buffer) (filled : List ℕ) (n : ℕ)
    → length filled ≡ cap g
    → len g + n ≤ cap g
    → commit_write (record g { buf = filled }) (pos n)
      ≡ some (record g { buf = filled; w = (g.w + n) % u64_mod })
unfolding commit_write
commit-some g filled n same room = ground arith

-- The ranges lent by `WritableSegments` lie at the write position: a caller that fills them with at
-- most `need` bytes and commits their number has appended them. The growth does not fail below
-- `2 ^ 62` bytes. The buffer is valid, and if empty it stands at the start of its array.
pub writable_segments-commit :
    {b : Buffer} (need : ℕ) (p : List ℕ)
    → IsValid b
    → IsNormal b
    → length p ≤ need
    → len b + need ≤ 2 ^ 62
    → (g : Buffer) × (s : Range × Range) × (b' : Buffer) × (writable_segments b need ≡ some (g, s))
      × (commit_write (record g { buf = fill g.buf s p }) (pos (length p)) ≡ some b')
      × Appended b p b'
unfolding writable_segments
writable_segments-commit {b} need p v normal short fits =
    let (g, grown, t) = grow-Grown v need fits in
    let room : len g + length p ≤ cap g = omega (arith, t.room) in
    let s = ranges g in
    let a = store-Appended p _ t.valid room (fill-ranges p t.valid (t.normal normal) room) in
    (
      g,
      s,
      _,
      rw grown refl,
      commit-some g (fill g.buf s p) (length p) (length-fill g.buf s p) room,
      record {
        valid = a.valid;
        bytes = a.bytes ∙ ap (λ l. l ++ p) t.same;
        long = a.long ∙ ap (λ n. n + length p) t.long;
      },
    )

fill_whole :
    (buf p : List ℕ)
    → length p ≤ length buf
    → fill buf ((0, length buf), (0, 0)) p ≡ overwrite buf p
unfolding fill
fill_whole buf p h =
    overwrite-nil (overwrite buf (take (length buf - 0) p))
    ∙ ap (overwrite buf) (take_of_length-le (length buf - 0) p (omega arith))

-- The way in which `WritableSegments` goes wrong: on an empty buffer that does not stand at the start
-- of its array, as `WriteTo` leaves one, it lends the array from index 0, while the bytes committed
-- are those from the read position on. What is read back is the array there, and not `p`.
pub writable_segments-astray :
    {b : Buffer} (need : ℕ) (p : List ℕ)
    → IsValid b
    → len b ≡ 0
    → need ≤ cap b
    → length p ≤ need
    → (writable_segments b need ≡ some (b, ((0, cap b), (0, 0))))
      × ((b' : Buffer) × (commit_write
              (record b { buf = fill b.buf ((0, cap b), (0, 0)) p })
              (pos (length p))
            ≡ some b')
          × (contents b' ≡ window (overwrite b.buf p) (read_start b) (length p)))
unfolding writable_segments ranges grow
writable_segments-astray {b} need p v empty fits short = (
  ground (arith, v.r_word, v.w_word, cap-pos v),
  (
    _,
    commit-some b _ (length p) (length-fill b.buf ((0, cap b), (0, 0)) p) (omega arith),
    ap₂ (λ l n. window l (read_start b) n) whole (omega (arith, v.r_word, v.w_word, cap-le v)),
  ),
)
  where
    whole : fill b.buf ((0, cap b), (0, 0)) p ≡ overwrite b.buf p
    whole = fill_whole b.buf p (omega arith)
