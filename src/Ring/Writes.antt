-- ===== src/Ring/Writes.antt =====
-- ring/ring.go: `New`, `grow`, `Write` and `WriteByte`.
use mathlib.Core.Path.{ap, ap₂}
use yakutil.Base.{
  ℕ, ◌+◌, ◌-◌, ◌*◌, ◌%◌, ◌^◌, ◌≤◌, ◌<◌, min, ◌≡◌, ◌⊎◌, refl, sym, ◌∙◌, false, some, List, [], ◌∷◌,
  ◌++◌, arith, ltb, leb, ◌==◌, Bool-cases, inl, inr, length, set, drop, replicate, length-replicate,
  window, overwrite_at-one, window-zero, window-append_left,
}
use yakutil.Base.Bits.{zero-bit_and}
use yakutil.Base.Doubling.{double_while, int_rounds, Rounded, double_while-Rounded}
use yakutil.Base.Int.{u64_mod}
use yakutil.Ring.Buffer.{
  Buffer, new, len, cap, free, read_start, write_start, copy_out, put_bytes, put, grow, write,
  write_byte, unread_byte,
}
use yakutil.Ring.Copies.{copy_out-window, length-copy_out, length-put_bytes, window-put_bytes}
use yakutil.Ring.Inv.{
  IsNormal, IsValid, contents, cap-pos, cap-le, read_start-lt, length-contents, write_start-eq,
  write_start-lt,
}

-- `b'` holds what `b` holds, in a valid buffer that has room for `need` more bytes.
pub record Grown (b : Buffer) (need : ℕ) (b' : Buffer) : Type 0 where
  pub valid : IsValid b'
  pub same : contents b' ≡ contents b
  pub long : len b' ≡ len b
  pub room : len b' + need ≤ cap b'
  pub flag : b'.has_unread ≡ b.has_unread
  pub normal : IsNormal b → IsNormal b'

-- `New` gives an empty buffer of the least power of two that is at least 64 and the size asked for.
pub new-IsValid :
    (n : ℕ)
    → n ≤ 2 ^ 62
    → (b : Buffer) × (new n ≡ some b)
      × IsValid b
      × (contents b ≡ [])
      × (n ≤ cap b)
      × ((cap b ≡ 64) ⊎ (cap b < 2 * n))
unfolding new
new-IsValid n h = (
  made,
  rw rounded_up.found,
  record {
    k = k;
    size = length-replicate {A = ℕ} (2 ^ k) 0;
    small = rounded_up.fits;
    masked = refl;
    r_word = omega arith;
    w_word = omega arith;
    bounded = omega arith;
  },
  window-zero _ _,
  omega (arith, long, rounded_up.enough),
  elim (rounded_up.least) [
    | inl e ↦ inl (long ∙ ap (λ j. 2 ^ j) e)
    | inr l ↦ inr (omega (arith, long, l))
  ],
)
  where
    rounded_up : Rounded 6 n (double_while (λ sz. ltb sz n) int_rounds 64)
    rounded_up = double_while-Rounded _ n int_rounds 6 (λ s le. refl) h (omega arith) (omega arith)

    k : ℕ
    k = rounded_up.k

    made : Buffer
    made = record {
      buf = replicate (2 ^ k) 0;
      r = 0;
      w = 0;
      mask = 2 ^ k - 1;
      read_prev = 0;
      has_unread = false;
    }

    long : cap made ≡ 2 ^ k
    long = length-replicate {A = ℕ} (2 ^ k) 0

module _ {b : Buffer} (v : IsValid b) (need : ℕ) (fits : len b + need ≤ 2 ^ 62) where
  rounded :
      Rounded v.k (len b + need) (double_while (λ c. ltb (c - len b) need) int_rounds (2 ^ v.k))
  rounded =
      double_while-Rounded (λ c. ltb (c - len b) need) (len b + need) int_rounds v.k
        (λ s le. ground (arith, v.bounded, v.size)) fits v.small (omega arith)

  -- the buffer of `2 ^ rounded.k` bytes that the data is moved to
  moved : Buffer
  moved = record b {
    buf = copy_out b.buf (read_start b) (len b) (replicate (2 ^ rounded.k) 0);
    mask = 2 ^ rounded.k - 1;
    r = 0;
    w = len b;
  }

  moved-Grown : Grown b need moved
  unfolding moved
  moved-Grown = record {
    valid = record {
      k = rounded.k;
      size = size;
      small = rounded.fits;
      masked = refl;
      r_word = omega arith;
      w_word = omega (arith, fits);
      bounded = omega (arith, long, size, rounded.enough);
    };
    same =
        ap₂ (window moved.buf) (zero-bit_and moved.mask) long
        ∙ (ap (λ l. window l 0 (len b)) bytes
            ∙ (ap (window (contents b ++ drop (len b) zeros) 0) (sym (length-contents v))
                ∙ window-append_left (contents b) (drop (len b) zeros)));
    long = long;
    room = omega (arith, long, size, rounded.enough);
    flag = refl;
    normal = λ _ _. zero-bit_and moved.mask;
  }
    where
      zeros : List ℕ
      zeros = replicate (2 ^ rounded.k) 0

      size : length moved.buf ≡ 2 ^ rounded.k
      size =
          length-copy_out b.buf (read_start b) (len b) zeros
          ∙ length-replicate {A = ℕ} (2 ^ rounded.k) 0

      long : len moved ≡ len b
      long = omega (arith, fits)

      bytes : moved.buf ≡ contents b ++ drop (len b) zeros
      bytes =
          copy_out-window b.buf (read_start b) (len b) zeros (read_start-lt v) v.bounded
            (omega (arith, length-replicate {A = ℕ} (2 ^ rounded.k) 0, rounded.enough))

  -- Growth does not fail below `2 ^ 62` bytes, loses no byte, and makes the room asked for.
  pub grow-Grown : (b' : Buffer) × (grow b need ≡ some b') × Grown b need b'
  unfolding grow moved
  grow-Grown = elim (Bool-cases (leb need (free b))) [
    | inl e ↦ (
      b,
      rw e refl,
      record {
        valid = v;
        same = refl;
        long = refl;
        room = ground (arith, v.bounded);
        flag = refl;
        normal = λ n. n;
      },
    )
    | inr e ↦ (moved, rw (e, not_empty, found), moved-Grown)
  ]
    where
      not_empty : (cap b == 0) ≡ false
      not_empty = ground (arith, cap-pos v)

      found : double_while (λ c. ltb (c - len b) need) int_rounds (cap b) ≡ some (2 ^ rounded.k)
      found = ap (double_while (λ c. ltb (c - len b) need) int_rounds) v.size ∙ rounded.found

-- A buffer with more bytes at the end of its contents.
pub record Appended (b : Buffer) (p : List ℕ) (b' : Buffer) : Type 0 where
  pub valid : IsValid b'
  pub bytes : contents b' ≡ contents b ++ p
  pub long : len b' ≡ len b + length p

forget-IsValid : {b : Buffer} → IsValid b → IsValid (record b { has_unread = false })
forget-IsValid v = record {
  k = v.k;
  size = v.size;
  small = v.small;
  masked = v.masked;
  r_word = v.r_word;
  w_word = v.w_word;
  bounded = v.bounded;
}

-- The buffer with `p` stored at the write position, where there is room.
pub store-Appended :
    {b : Buffer} (p : List ℕ) (stored : List ℕ)
    → IsValid b
    → len b + length p ≤ cap b
    → stored ≡ put_bytes b.buf (write_start b) p
    → Appended b p (record b { buf = stored; w = (b.w + length p) % u64_mod })
store-Appended {b} p stored v room e = record {
  valid = record {
    k = v.k;
    size = size ∙ v.size;
    small = v.small;
    masked = v.masked;
    r_word = v.r_word;
    w_word = omega arith;
    bounded = omega (arith, long, size, room);
  };
  bytes =
      ap₂ (λ l n. window l (read_start b) n) e long
      ∙ window-put_bytes b.buf (write_start b) p (read_start b) (len b) (read_start-lt v) room
          (write_start-eq v);
  long = long;
}
  where
    size : length stored ≡ cap b
    size = ap length e ∙ length-put_bytes b.buf (write_start b) p

    long : ((b.w + length p) % u64_mod + u64_mod - b.r) % u64_mod ≡ len b + length p
    long = omega (arith, v.r_word, v.w_word, room, cap-le v)

-- One byte is stored by one assignment, which is what the two copies do with a list of one.
put_bytes_one : (buf : List ℕ) (e c : ℕ) → e < length buf → set buf e c ≡ put_bytes buf e (c ∷ [])
unfolding put_bytes
put_bytes_one buf e c h = sym (rw one (overwrite_at-one buf e c))
  where
    one : min (length buf - e) 1 ≡ 1
    one = omega arith

module _ {b : Buffer} (v : IsValid b) where
  -- Write on a valid buffer succeeds if the contents stay within 2^62 bytes, takes all the bytes,
  -- appends just these to the contents in a valid buffer, and clears the mark for UnreadByte: a call
  -- of it then fails and changes nothing, also where a ReadByte came before the Write.
  pub write-append :
      (p : List ℕ)
      → len b + length p ≤ 2 ^ 62
      → (b' : Buffer) × (write b p ≡ some (b', length p))
        × Appended b p b'
        × (b'.has_unread ≡ false)
        × (unread_byte b' ≡ (b', false))
  unfolding write put unread_byte
  write-append p fits =
      let (g, grown, t) = grow-Grown (forget-IsValid v) (length p) fits in
      let a = store-Appended p _ t.valid t.room refl in
      (
        _,
        rw grown refl,
        record {
          valid = a.valid;
          bytes = a.bytes ∙ ap (λ l. l ++ p) t.same;
          long = a.long ∙ ap (λ n. n + length p) t.long;
        },
        t.flag,
        rw t.flag refl,
      )

  pub write_byte-append :
      (c : ℕ)
      → len b + 1 ≤ 2 ^ 62
      → (b' : Buffer) × (write_byte b c ≡ some b')
        × Appended b (c ∷ []) b'
        × (b'.has_unread ≡ false)
  unfolding write_byte
  write_byte-append c fits =
      let (g, grown, t) = grow-Grown (forget-IsValid v) 1 fits in
      let a =
        store-Appended (c ∷ []) (set g.buf (write_start g) c) t.valid t.room
          (put_bytes_one g.buf (write_start g) c (write_start-lt t.valid)) in
      (
        _,
        rw grown refl,
        record {
          valid = a.valid;
          bytes = a.bytes ∙ ap (λ l. l ++ (c ∷ [])) t.same;
          long = a.long ∙ ap (λ n. n + 1) t.long;
        },
        t.flag,
      )
