-- ===== src/Ring/Reads.antt =====
-- ring/ring.go: `Read`, `ReadByte`, `UnreadByte`, `Discard` take bytes from the front.
use mathlib.Core.Path.{ap, ap₂}
use yakutil.Base.{
  ℕ, ◌+◌, ◌-◌, ◌%◌, ◌≤◌, ◌<◌, min, ◌≡◌, refl, sym, ◌∙◌, Bool, true, false, none, some, List, ◌++◌,
  arith, ltb, ◌==◌, ==_iff, if◌then◌else◌, Bool-cases, inl, inr, length, get_or, get_elem?,
  get_elem?-get_or, take, drop, window, drop-add, take-window, drop-window, window-zero,
  get_or-window,
}
use yakutil.Base.Int.{pos, u64_mod}
use yakutil.Ring.Buffer.{
  Buffer, len, read_start, copy_out, normalize, read_byte, unread_byte, read, discard,
}
use yakutil.Ring.Copies.{copy_out-window}
use yakutil.Ring.Inv.{IsValid, contents, read_start-lt, advance, length-contents}

-- `b` with `m` bytes consumed; the roll-back point is any.
abbrev pub consumed : Buffer → ℕ → ℕ → Bool → Buffer
consumed b m prev flag = record b { r = (b.r + m) % u64_mod; read_prev = prev; has_unread = flag }

-- What an operation that takes `m` bytes leaves.
pub record Took (b : Buffer) (m : ℕ) (b' : Buffer) : Type 0 where
  pub valid : IsValid b'
  pub rest : contents b' ≡ drop m (contents b)
  pub left : len b' ≡ len b - m

-- Two operations in turn take the bytes of both.
pub Took-trans : {b b' b'' : Buffer} (m n : ℕ) → Took b m b' → Took b' n b'' → Took b (m + n) b''
Took-trans {b} m n t u = record {
  valid = u.valid;
  rest = u.rest ∙ (ap (drop n) t.rest ∙ sym (drop-add m n (contents b)));
  left = omega (arith, t.left, u.left);
}

module _ {b : Buffer} (v : IsValid b) where
  pub consumed-Took : (m prev : ℕ) (flag : Bool) → m ≤ len b → Took b m (consumed b m prev flag)
  consumed-Took m prev flag h = record {
    valid = record {
      k = v.k;
      size = v.size;
      small = v.small;
      masked = v.masked;
      r_word = omega arith;
      w_word = v.w_word;
      bounded = omega (arith, left, v.bounded);
    };
    rest =
        ap₂ (window b.buf) (advance v b.r m) left
        ∙ sym (drop-window 0 b.buf (read_start b) (len b) m (read_start-lt v) v.bounded h);
    left = left;
  }
    where
      left : len (consumed b m prev flag) ≡ len b - m
      left = omega (arith, v.r_word, v.w_word)

  -- An empty buffer is moved back to offset 0; any other is left alone.
  pub normalize-Took : {c : Buffer} (m : ℕ) → Took c m b → Took c m (normalize b)
  normalize-Took {c} m t = elim (Bool-cases (b.r == b.w)) [
    | inl empty ↦ rw empty (moved ((==_iff b.r b.w).0 empty))
    | inr more ↦ rw more t
  ]
    where
      moved : b.r ≡ b.w → Took c m (record b { r = 0; w = 0 })
      moved e = record {
        valid = record {
          k = v.k;
          size = v.size;
          small = v.small;
          masked = v.masked;
          r_word = omega arith;
          w_word = omega arith;
          bounded = omega arith;
        };
        rest =
            window-zero b.buf _
            ∙ sym (window-zero b.buf (read_start b))
            ∙ ap (window b.buf (read_start b)) (sym none_left)
            ∙ t.rest;
        left = omega (arith, t.left, none_left);
      }
        where
          none_left : len b ≡ 0
          none_left = omega (arith, v.r_word)

pub nothing-Took :
    {b : Buffer} → IsValid b → (flag : Bool) → Took b 0 (record b { has_unread = flag })
nothing-Took v flag = record {
  valid = record {
    k = v.k;
    size = v.size;
    small = v.small;
    masked = v.masked;
    r_word = v.r_word;
    w_word = v.w_word;
    bounded = v.bounded;
  };
  rest = refl;
  left = omega arith;
}

-- `Discard` drops that many bytes, or all that there are.
pub discard-drop : {b : Buffer} (n : ℕ) → IsValid b → Took b (min n (len b)) (discard b (pos n))
unfolding discard
discard-drop {b} n v =
    let m = min n (len b) in
    let flag : Bool = if ltb 0 m then false else b.has_unread in
    let took : Took b m (consumed b m b.read_prev flag) =
      consumed-Took v m b.read_prev flag (omega arith) in
    normalize-Took took.valid m took

-- `Read` takes as many bytes as `p` has room for and there are: it writes them to the start of `p`,
-- returns their number and removes them. It reports io.EOF exactly on an empty buffer.
pub read-take :
    {b : Buffer} (p : List ℕ)
    → IsValid b
    → let n = min (length p) (len b) in
      Took b n (read b p).0
      × ((read b p).1 ≡ (if len b == 0 then none else some (take n (contents b) ++ drop n p, n)))
unfolding read
read-take {b} p v = elim (Bool-cases (len b == 0)) [
  | inl e ↦ rw (e, none_taken ((==_iff (len b) 0).0 e)) (nothing-Took v b.has_unread, refl)
  | inr e ↦ rw e (normalize-Took took.valid n took, ap (λ t. some (t, n)) bytes)
]
  where
    n : ℕ
    n = min (length p) (len b)

    none_taken : len b ≡ 0 → n ≡ 0
    none_taken e = omega arith

    took : Took b n (consumed b n b.read_prev false)
    took = consumed-Took v n b.read_prev false (omega arith)

    bytes : copy_out b.buf (read_start b) n p ≡ take n (contents b) ++ drop n p
    bytes =
        copy_out-window b.buf (read_start b) n p (read_start-lt v) (omega (arith, v.bounded))
          (omega arith)
        ∙ ap (λ t. t ++ drop n p)
            (sym (
              take-window 0 b.buf (read_start b) (len b) n (read_start-lt v) v.bounded
                (omega arith)))

head-contents :
    {b : Buffer}
    → IsValid b
    → get_elem? (contents b) 0 ≡ (if b.r == b.w then none else some (get_or b.buf (read_start b) 0))
head-contents {b} v = ground (
  arith,
  v.r_word,
  v.w_word,
  read_start-lt v,
  length-contents v,
  get_elem?-get_or (contents b) 0 0,
  get_or-window b.buf (read_start b) (len b) 0 0,
)

-- On a valid buffer `ReadByte` removes the first byte and returns it, or nothing, for io.EOF, if the
-- buffer is empty.
pub read_byte-head :
    {b : Buffer}
    → IsValid b
    → Took b (min 1 (len b)) (read_byte b).0 × ((read_byte b).1 ≡ get_elem? (contents b) 0)
unfolding read_byte
read_byte-head {b} v = elim (Bool-cases (b.r == b.w)) [
  | inl e ↦ rw (head-contents v, e, taken_none e) (nothing-Took v false, refl)
  | inr e ↦ rw (head-contents v, e, taken_one e) (one e, refl)
]
  where
    taken_none : b.r == b.w ≡ true → min 1 (len b) ≡ 0
    taken_none e = ground arith

    taken_one : b.r == b.w ≡ false → min 1 (len b) ≡ 1
    taken_one e = ground (arith, v.r_word, v.w_word)

    one : b.r == b.w ≡ false → Took b 1 (normalize (consumed b 1 b.r true))
    one e =
        let took : Took b 1 (consumed b 1 b.r true) =
          consumed-Took v 1 b.r true (omega (arith, taken_one e)) in
        normalize-Took took.valid 1 took

-- On a valid buffer that is not empty, `UnreadByte` after `ReadByte` brings the buffer back, but for
-- the roll-back point itself: also where the read emptied the buffer and moved it to offset 0.
pub unread_byte-read_byte :
    {b : Buffer}
    → IsValid b
    → 0 < len b
    → unread_byte (read_byte b).0 ≡ (record b { read_prev = b.r; has_unread = false }, true)
unfolding read_byte unread_byte
unread_byte-read_byte {b} v h = ground (arith, v.r_word, v.w_word)
