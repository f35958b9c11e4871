-- ===== src/Ring/Peeks.antt =====
-- ring/ring.go: `Peek`, `PeekSegments`, `ReadableSegments` show the front of the buffer, and
-- `CommitRead` removes it.
use yakutil.Base.{
  ℕ, ◌+◌, ◌-◌, ◌≤◌, ◌<◌, min, ◌≡◌, sym, ◌∙◌, none, some, List, ◌++◌, ◌↔◌, arith, length, take, drop,
  replicate, overwrite, overwrite_at, List-ext, length-append, length-take, length-drop,
  length-replicate, length-overwrite, length-overwrite_at, get_or-append, get_or-take, get_or-drop,
  get_or-overwrite, get_or-overwrite_at, window, window-zero, take-min, take_of_length-le,
  take-window, length-window, get_or-window, rotate,
}
use mathlib.Core.List.{append-nil}
use yakutil.Base.Int.{pos}
use yakutil.Ring.Buffer.{Buffer, len, cap, read_start, write_start, slice, normalize}
use yakutil.Ring.Segments.{peek, peek_segments, readable_segments, commit_read}
use yakutil.Ring.Inv.{IsValid, contents, read_start-lt, length-contents, write_start-eq}
use yakutil.Ring.Reads.{Took, consumed, consumed-Took, normalize-Took}

-- The parts of a window that does not go round, and of one that does.
module _ (buf : List ℕ) (s n : ℕ) (hs : s < length buf) (hn : n ≤ length buf) where
  pub window_flat : s + n ≤ length buf → slice buf s (s + n) ≡ window buf s n
  window_flat h =
      List-ext 0 _ _
        (omega (
          arith,
          length-take (s + n - s) (drop s buf),
          length-drop s buf,
          length-window buf s n (omega arith) hn,
        ))
        (λ i lt. ground (
          arith,
          length-take (s + n - s) (drop s buf),
          get_or-take (s + n - s) (drop s buf) i 0,
          get_or-drop s buf i 0,
          get_or-window buf s n i 0,
        ))

  pub window_round :
      length buf ≤ s + n → drop s buf ++ take (s + n - length buf) buf ≡ window buf s n
  window_round h =
      List-ext 0 _ _
        (omega (
          arith,
          length-append (drop s buf) (take (s + n - length buf) buf),
          length-take (s + n - length buf) buf,
          length-drop s buf,
          length-window buf s n (omega arith) hn,
        ))
        (λ i lt. ground (
          arith,
          length-append (drop s buf) (take (s + n - length buf) buf),
          length-take (s + n - length buf) buf,
          length-drop s buf,
          get_or-append (drop s buf) (take (s + n - length buf) buf) i 0,
          get_or-take (s + n - length buf) buf (i - length (drop s buf)) 0,
          get_or-drop s buf i 0,
          get_or-window buf s n i 0,
        ))

  -- the copy that `Peek` makes of a window that goes round
  window_copied :
      length buf ≤ s + n
      → overwrite_at
          (overwrite (replicate n 0) (drop s buf))
          (min n (length buf - s))
          (take (n - min n (length buf - s)) buf)
        ≡ window buf s n
  window_copied h =
      List-ext 0 _ _ (omega (arith, long, length-window buf s n (omega arith) hn)) (λ i lt. ground (
        arith,
        long,
        length-overwrite zeros (drop s buf),
        length-replicate {A = ℕ} n 0,
        length-drop s buf,
        length-take (n - first) buf,
        get_or-overwrite_at (overwrite zeros (drop s buf)) first (take (n - first) buf) i 0,
        get_or-overwrite zeros (drop s buf) i 0,
        get_or-take (n - first) buf (i - first) 0,
        get_or-drop s buf i 0,
        get_or-window buf s n i 0,
      ))
    where
      zeros : List ℕ
      zeros = replicate n 0

      first : ℕ
      first = min n (length buf - s)

      long : length (overwrite_at (overwrite zeros (drop s buf)) first (take (n - first) buf)) ≡ n
      long =
          length-overwrite_at (overwrite zeros (drop s buf)) first (take (n - first) buf)
          ∙ (length-overwrite zeros (drop s buf) ∙ length-replicate n 0)

module _ {b : Buffer} (v : IsValid b) where
  -- the first bytes of the contents, as a window
  pub front : (n : ℕ) → window b.buf (read_start b) (min n (len b)) ≡ take n (contents b)
  front n =
      sym (
        take-window 0 b.buf (read_start b) (len b) (min n (len b)) (read_start-lt v) v.bounded
          (omega arith))
      ∙ take-min n (len b) (contents b) (sym (length-contents v))

  shown : (n : ℕ) → min n (len b) ≤ cap b
  shown n = omega (arith, v.bounded)

  -- `Peek` shows the first `n` bytes, or all that there are, whether or not they go round the end.
  pub peek-take : (n : ℕ) → peek b (pos n) ≡ some (take n (contents b))
  unfolding peek
  peek-take n = ground (
    arith,
    front n,
    window-zero b.buf (read_start b),
    window_flat b.buf (read_start b) (min n (len b)) (read_start-lt v) (shown n),
    window_copied b.buf (read_start b) (min n (len b)) (read_start-lt v) (shown n),
  )

  -- On a valid buffer the two segments, put together, are the contents: also of a full buffer, whose two offsets
  -- are the same under the mask.
  pub peek_segments-contents : let (s1, s2) = peek_segments b in s1 ++ s2 ≡ contents b
  unfolding peek_segments
  peek_segments-contents = ground (
    arith,
    v.r_word,
    v.w_word,
    read_start-lt v,
    write_start-eq v,
    rotate (read_start b) (len b) (cap b) (read_start-lt v) v.bounded,
    window-zero b.buf (read_start b),
    append-nil (slice b.buf (read_start b) (write_start b)),
    length-drop (read_start b) b.buf,
    take_of_length-le (cap b - read_start b) (drop (read_start b) b.buf),
    window_flat b.buf (read_start b) (len b) (read_start-lt v) v.bounded,
    window_round b.buf (read_start b) (len b) (read_start-lt v) v.bounded,
  )

  -- The two segments show the first `n` bytes, or all that there are.
  pub readable_segments-take :
      (n : ℕ) → let (s1, s2) = readable_segments b (pos n) in s1 ++ s2 ≡ take n (contents b)
  unfolding readable_segments
  readable_segments-take n = ground (
    arith,
    front n,
    read_start-lt v,
    write_start-eq v,
    rotate (read_start b) (len b) (cap b) (read_start-lt v) v.bounded,
    window-zero b.buf (read_start b),
    append-nil (slice b.buf (read_start b) (read_start b + min n (len b))),
    append-nil (drop (read_start b) b.buf),
    window_flat b.buf (read_start b) (min n (len b)) (read_start-lt v) (shown n),
    window_round b.buf (read_start b) (min n (len b)) (read_start-lt v) (shown n),
  )

  -- `CommitRead` removes the bytes shown, and panics exactly where there are fewer.
  pub commit_read-drop :
      (n : ℕ) → n ≤ len b → (b' : Buffer) × (commit_read b (pos n) ≡ some b') × Took b n b'
  unfolding commit_read
  commit_read-drop n h =
      let took = consumed-Took v n b.read_prev b.has_unread h in
      (
        normalize (consumed b n b.read_prev b.has_unread),
        ground arith,
        normalize-Took took.valid n took,
      )

  pub commit_read-none_iff : (n : ℕ) → (commit_read b (pos n) ≡ none) ↔ (len b < n)
  unfolding commit_read
  commit_read-none_iff n = ground arith
