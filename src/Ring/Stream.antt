-- ===== src/Ring/Stream.antt =====
-- ring/ring.go: `WriteTo` and `ReadFrom`, between a buffer and an `io.Writer` or `io.Reader`.
-- Those are parameters: a function on a state of their own, with what package io documents of it.
use yakutil.Base.{
  ℕ, zero, suc, ◌+◌, ◌-◌, ◌%◌, ◌≤◌, ◌<◌, min, ◌≡◌, Bool, true, false, Option, none, some, List,
  ◌++◌, leb, ◌==◌, if◌then◌else◌, ◌>>=◌, length, take, drop, overwrite_at,
}
use yakutil.Base.Int.{u64_mod}
use yakutil.Ring.Buffer.{Buffer, len, cap, free, read_start, write_start, slice, grow}

-- `Write` of an `io.Writer`: the count accepted, and whether it reports an error.
abbrev pub Writer : Type 0 → Type 0
Writer S = S → List ℕ → S × ℕ × Bool

-- What package io asks of a writer: it accepts a front of the bytes, and reports an error if it is
-- not the whole. `log` is all that the writer has accepted.
pub record IsWriter {S : Type 0} (log : S → List ℕ) (w : Writer S) : Type 0 where
  pub count : (s : S) (p : List ℕ) → (w s p).1 ≤ length p
  pub all : (s : S) (p : List ℕ) → (w s p).2 ≡ false → (w s p).1 ≡ length p
  pub keeps : (s : S) (p : List ℕ) → log (w s p).0 ≡ log s ++ take (w s p).1 p

-- How a `Read` of an `io.Reader` ends.
pub data ReadEnd : Type 0 where
  more eof failed : ReadEnd

-- `Read` of an `io.Reader`, given the room for bytes: the bytes delivered.
abbrev pub Reader : Type 0 → Type 0
Reader S = S → ℕ → S × List ℕ × ReadEnd

-- What package io asks of a reader, and that it ends: `left` bounds the bytes and the calls to come.
-- With no room a reader may return nothing and no error, as often as it is called.
pub record IsReader {S : Type 0} (log : S → List ℕ) (left : S → ℕ) (rd : Reader S) : Type 0 where
  pub fits : (s : S) (room : ℕ) → length (rd s room).1 ≤ room
  pub ends : (s : S) (room : ℕ) → 0 < room → (rd s room).2 ≡ more → left (rd s room).0 < left s
  pub bounded : (s : S) (room : ℕ) → length (rd s room).1 + left (rd s room).0 ≤ left s
  pub keeps : (s : S) (room : ℕ) → log (rd s room).0 ≡ log s ++ (rd s room).1

-- what `WriteTo` returns: the writer, the buffer, the count and whether there was an error
abbrev pub Written : Type 0 → Type 0
Written S = S × Buffer × ℕ × Bool

-- what `ReadFrom` returns: the reader, the buffer, the count, and whether it ended by io.EOF
abbrev pub Filled : Type 0 → Type 0
Filled S = S × Buffer × ℕ × Bool

module _ {S : Type 0} where
  module _ (w : Writer S) where
    -- the second part, if the first went well
    unfoldable pub write_rest : S → Buffer → ℕ → Bool → Written S
    write_rest s b n true = (s, b, n, true)
    write_rest s b n false =
        let (s', n', err) = w s (take (len b) b.buf) in
        (s', record b { r = (b.r + n') % u64_mod }, n + n', err)

    -- `WriteTo`
    unfoldable pub write_to : S → Buffer → Written S
    write_to s b =
        let start = read_start b in
        let end = start + len b in
        if len b == 0
        then (s, b, 0, false)
        else if leb end (cap b)
        then (let (s', n, err) = w s (slice b.buf start end) in
            (s', record b { r = (b.r + n) % u64_mod }, n, err))
        else (let (s', n, err) = w s (drop start b.buf) in
            write_rest s' (record b { r = (b.r + n) % u64_mod }) n err)

  module _ (rd : Reader S) where
    -- the bytes that one `Read` may deliver
    abbrev pub room : Buffer → ℕ
    room b = min (write_start b + free b) (cap b) - write_start b

    -- `ReadFrom`, by rounds: `none` is a reader that has not ended in so many, or a growth that fails.
    unfoldable pub read_from : ℕ → S → Buffer → ℕ → Option (Filled S)
    read_from zero s b total = none
    read_from (suc rounds) s b total = do
      b' ← if free b == 0 then grow b 4096 else some b
      let (s', p, e) = rd s (room b')
      let b'' = record b' {
        buf = overwrite_at b'.buf (write_start b') p;
        w = (b'.w + length p) % u64_mod;
      }
      elim e [
        | more ↦ read_from rounds s' b'' (total + length p)
        | eof ↦ some (s', b'', total + length p, true)
        | failed ↦ some (s', b'', total + length p, false)
      ]
