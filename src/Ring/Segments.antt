-- ===== src/Ring/Segments.antt =====
-- ring/ring.go: the operations that lend parts of the array without copying, and the commits.
-- A slice to read from is the bytes that it shows, `nil` among them as no bytes; a slice to write
-- into is its range of indices. `none` of a commit or of `Peek` is a panic.
use yakutil.Base.{
  ℕ, ◌+◌, ◌-◌, ◌%◌, min, ◌||◌, Option, none, some, List, [], ltb, leb, ◌==◌, if◌then◌else◌, ◌>>=◌,
  take, drop, replicate, overwrite, overwrite_at,
}
use yakutil.Base.Int.{ℤ, pos, negsuc, u64_mod}
use yakutil.Ring.Buffer.{Buffer, len, cap, free, read_start, write_start, slice, normalize, grow}

-- `Peek`: a slice of the array, or a copy of two parts of it. A negative count is out of range.
unfoldable pub peek : Buffer → ℤ → Option (List ℕ)
peek b (pos n) =
    let m = min n (len b) in
    let start = read_start b in
    let first = min m (cap b - start) in
    if m == 0
    then some []
    else if leb (start + m) (cap b)
    then some (slice b.buf start (start + m))
    else some
        (overwrite_at (overwrite (replicate m 0) (drop start b.buf)) first (take (m - first) b.buf))
peek b (negsuc n) = none

-- `PeekSegments`
unfoldable pub peek_segments : Buffer → List ℕ × List ℕ
peek_segments b =
    let start = read_start b in
    let end = write_start b in
    if b.r == b.w
    then ([], [])
    else if ltb start end
    then (slice b.buf start end, [])
    else (slice b.buf start (cap b), take end b.buf)

-- `ReadableSegments`
unfoldable pub readable_segments : Buffer → ℤ → List ℕ × List ℕ
readable_segments b (pos n) =
    let m = min n (len b) in
    let start = read_start b in
    let end = write_start b in
    let first_len = cap b - start in
    if n == 0 || len b == 0
    then ([], [])
    else if ltb start end || leb m first_len
    then (slice b.buf start (start + m), [])
    else (drop start b.buf, if ltb 0 end then take (min (m - first_len) end) b.buf else [])
readable_segments b (negsuc n) = ([], [])

-- `CommitRead`, which does not touch the roll-back point
unfoldable pub commit_read : Buffer → ℤ → Option Buffer
commit_read b (pos n) =
    if ltb (len b) n then none else some (normalize (record b { r = (b.r + n) % u64_mod }))
commit_read b (negsuc n) = none

abbrev pub Range : Type 0
Range = ℕ × ℕ

-- the ranges that are free, going round; `nil` is the range from 0 to 0
unfoldable pub ranges : Buffer → Range × Range
ranges b =
    if free b == 0
    then ((0, 0), (0, 0))
    else if b.r == b.w
    then ((0, free b), (0, 0))
    else if ltb (write_start b) (read_start b)
    then ((write_start b, read_start b), (0, 0))
    else ((write_start b, cap b), if ltb 0 (read_start b) then (0, read_start b) else (0, 0))

-- `WritableSegments`
unfoldable pub writable_segments : Buffer → ℕ → Option (Buffer × (Range × Range))
writable_segments b need = do b' ← grow b need; some (b', ranges b')

-- `CommitWrite`, which does not touch the roll-back point
unfoldable pub commit_write : Buffer → ℤ → Option Buffer
commit_write b (pos n) =
    if ltb (free b) n then none else some (record b { w = (b.w + n) % u64_mod })
commit_write b (negsuc n) = none

-- A caller that writes `p` into the first range, and what is left of it into the second.
unfoldable pub fill : List ℕ → Range × Range → List ℕ → List ℕ
fill buf ((lo, hi), (lo', hi')) p =
    overwrite_at (overwrite_at buf lo (take (hi - lo) p)) lo' (take (hi' - lo') (drop (hi - lo) p))
