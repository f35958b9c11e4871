-- ===== src/Ring/Copies.antt =====
-- ring/ring.go: what the pairs of `copy` calls of `Write`, `Read` and `grow` do to the bytes.
use yakutil.Base.{
  ℕ, ◌+◌, ◌-◌, ◌%◌, ◌≤◌, ◌<◌, min, ◌≡◌, List, ◌++◌, arith, ltb, if◌then◌else◌, length, get_or, take,
  drop, overwrite, overwrite_at, List-ext, length-append, length-take, length-drop,
  length-overwrite, length-overwrite_at, get_or-append, get_or-take, get_or-drop, get_or-overwrite,
  get_or-overwrite_at, window, length-window, get_or-window, rotate,
}
use yakutil.Ring.Buffer.{copy_out, slice, put_bytes}

length-slice : (xs : List ℕ) (lo hi : ℕ) → hi ≤ length xs → length (slice xs lo hi) ≡ hi - lo
length-slice xs lo hi h = omega (arith, length-take (hi - lo) (drop lo xs), length-drop lo xs)

get_or-slice :
    (xs : List ℕ) (lo hi i : ℕ)
    → get_or (slice xs lo hi) i 0 ≡ (if ltb i (hi - lo) then get_or xs (lo + i) 0 else 0)
get_or-slice xs lo hi i =
    ground (arith, get_or-take (hi - lo) (drop lo xs) i 0, get_or-drop lo xs i 0)

module _ (buf : List ℕ) (start n : ℕ) (dst : List ℕ) where
  -- the bytes up to the end of the array, and how many of them `dst` takes
  abbrev seg : List ℕ
  seg = slice buf start (min (start + n) (length buf))

  abbrev first : ℕ
  first = min (length dst) (length seg)

  pub length-copy_out : length (copy_out buf start n dst) ≡ length dst
  unfolding copy_out
  length-copy_out = ground (
    arith,
    length-overwrite dst seg,
    length-overwrite_at (overwrite dst seg) first (take (n - first) buf),
  )

  module _ (hs : start < length buf) (hn : n ≤ length buf) (hd : n ≤ length dst) where
    get_or-copy_out :
        (i : ℕ)
        → i < length dst
        → get_or (copy_out buf start n dst) i 0
          ≡ (if ltb i n then get_or (window buf start n) i 0 else get_or dst i 0)
    unfolding copy_out
    get_or-copy_out i lt = ground (
      arith,
      length-slice buf start (min (start + n) (length buf)) (omega arith),
      length-overwrite dst seg,
      length-take (n - first) buf,
      get_or-overwrite dst seg i 0,
      get_or-overwrite_at (overwrite dst seg) first (take (n - first) buf) i 0,
      get_or-take (n - first) buf (i - first) 0,
      get_or-slice buf start (min (start + n) (length buf)) i,
      get_or-window buf start n i 0,
    )

    -- The `n` bytes of the window, then what `dst` held behind them.
    pub copy_out-window : copy_out buf start n dst ≡ window buf start n ++ drop n dst
    copy_out-window =
        List-ext 0 _ _
          (omega (
            arith,
            length-copy_out,
            length-append (window buf start n) (drop n dst),
            length-window buf start n (omega arith) hn,
            length-drop n dst,
          ))
          (λ i lt. ground (
            arith,
            length-copy_out,
            get_or-copy_out i,
            length-window buf start n (omega arith) hn,
            get_or-append (window buf start n) (drop n dst) i 0,
            get_or-drop n dst (i - n) 0,
          ))

module _ (buf : List ℕ) (e : ℕ) (p : List ℕ) where
  pub length-put_bytes : length (put_bytes buf e p) ≡ length buf
  unfolding put_bytes
  length-put_bytes = ground (
    arith,
    length-overwrite_at buf e p,
    length-overwrite (overwrite_at buf e p) (drop (min (length buf - e) (length p)) p),
  )

  pub get_or-put_bytes :
      (i : ℕ)
      → e < length buf
      → i < length buf
      → length p ≤ length buf
      → get_or (put_bytes buf e p) i 0 ≡ (
          if ltb i e
          then if ltb (i + length buf - e) (length p)
            then get_or p (i + length buf - e) 0
            else get_or buf i 0
          else if ltb (i - e) (length p)
          then get_or p (i - e) 0
          else get_or buf i 0)
  unfolding put_bytes
  get_or-put_bytes i he lt fits = ground (
    arith,
    length-overwrite_at buf e p,
    length-drop (min (length buf - e) (length p)) p,
    get_or-overwrite_at buf e p i 0,
    get_or-overwrite (overwrite_at buf e p) (drop (min (length buf - e) (length p)) p) i 0,
    get_or-drop (min (length buf - e) (length p)) p i 0,
  )

  -- The two copies of `Write` extend a window of `n` bytes by `p`, where there is room.
  pub window-put_bytes :
      (s n : ℕ)
      → s < length buf
      → n + length p ≤ length buf
      → e ≡ (s + n) % length buf
      → window (put_bytes buf e p) s (n + length p) ≡ window buf s n ++ p
  window-put_bytes s n hs room at =
      List-ext 0 _ _
        (omega (
          arith,
          long,
          length-append (window buf s n) p,
          length-window buf s n (omega arith) (omega arith),
        ))
        (λ i lt. ground (
          arith,
          long,
          length-put_bytes,
          length-window buf s n (omega arith) (omega arith),
          rotate s n (length buf) hs (omega arith),
          get_or-window (put_bytes buf e p) s (n + length p) i 0,
          get_or-window buf s n i 0,
          get_or-append (window buf s n) p i 0,
          get_or-put_bytes (s + i),
          get_or-put_bytes (s + i - length buf),
        ))
    where
      long : length (window (put_bytes buf e p) s (n + length p)) ≡ n + length p
      long =
          let same = length-put_bytes in
          length-window (put_bytes buf e p) s (n + length p) (omega arith) (omega arith)
