-- ===== src/Ring/Tests.antt =====
-- ring/ring.go: runs of the buffer, and each theorem at an input that meets its hypotheses.
use yakutil.Base.{
  ℕ, ◌+◌, ◌≤◌, ◌<◌, ◌≡◌, refl, true, false, none, some, List, [], ◌∷◌, ◌++◌, arith, length, take,
  take_of_length-le, window, ap, sym, zero, suc,
}
use mathlib.Core.List.{append-nil}
use yakutil.Base.Doubling.{double_while}
use yakutil.Base.Int.{pos, negsuc}
use yakutil.Ring.Buffer.{
  Buffer, new, reset, copy_out, put_bytes, put, grow, write, write_byte, read_byte, unread_byte,
  read, discard,
}
use yakutil.Ring.Segments.{
  Range, ranges, peek, peek_segments, readable_segments, writable_segments, commit_read,
  commit_write, fill,
}
use yakutil.Ring.Stream.{
  Writer, IsWriter, Reader, IsReader, more, eof, write_rest, write_to, read_from,
}
use yakutil.Ring.Inv.{IsValid, contents}
use yakutil.Ring.Reads.{Took, read-take}
use yakutil.Ring.Writes.{Appended, write-append}
use yakutil.Ring.Peeks.{commit_read-drop}
use yakutil.Ring.Commits.{writable_segments-commit, writable_segments-astray}
use yakutil.Ring.Fills.{Received, read_from-append}
use yakutil.Ring.Unread.{rolled_back, unread_byte-commit_read, unread_byte-reset}

program : Unit {0}
unfolding new double_while reset copy_out put_bytes put grow write write_byte read_byte unread_byte
    read discard peek peek_segments readable_segments ranges writable_segments commit_read
    commit_write fill write_rest write_to read_from
program = tt

-- 8 and 6, then 9 round the end of an array of four bytes
abbrev sample : Buffer
sample = record {
  buf = 9 ∷ 7 ∷ 8 ∷ 6 ∷ [];
  r = 2;
  w = 5;
  mask = 3;
  read_prev = 0;
  has_unread = false;
}

-- emptied at offset 6, as `WriteTo` leaves a buffer
abbrev drained : Buffer
drained = record sample { r = 6; w = 6 }

sample-IsValid : IsValid sample
sample-IsValid = record {
  k = 2;
  size = refl;
  small = omega arith;
  masked = refl;
  r_word = omega arith;
  w_word = omega arith;
  bounded = omega arith;
}

drained-IsValid : IsValid drained
drained-IsValid = record {
  k = 2;
  size = refl;
  small = omega arith;
  masked = refl;
  r_word = omega arith;
  w_word = omega arith;
  bounded = omega arith;
}

runs :
    (peek sample (pos 2) ≡ some (8 ∷ 6 ∷ []))
    × (peek sample (pos 9) ≡ some (8 ∷ 6 ∷ 9 ∷ []))
    × (peek_segments sample ≡ (8 ∷ 6 ∷ [], 9 ∷ []))
    × ((read_byte sample).1 ≡ some 8)
    × ((read sample (0 ∷ 0 ∷ [])).1 ≡ some (8 ∷ 6 ∷ [], 2))
    × (commit_read sample (pos 4) ≡ none)
    × (commit_write sample (negsuc 0) ≡ none)
unfolding program
runs = (refl, refl, refl, refl, refl, refl, refl)

write-append_example :
    (b' : Buffer) × (write sample (1 ∷ 2 ∷ []) ≡ some (b', 2))
    × Appended sample (1 ∷ 2 ∷ []) b'
    × (b'.has_unread ≡ false)
    × (unread_byte b' ≡ (b', false))
write-append_example = write-append sample-IsValid (1 ∷ 2 ∷ []) (omega arith)

read-take_example :
    Took sample 2 (read sample (0 ∷ 0 ∷ [])).0
    × ((read sample (0 ∷ 0 ∷ [])).1 ≡ some (8 ∷ 6 ∷ [], 2))
unfolding window
read-take_example = read-take (0 ∷ 0 ∷ []) sample-IsValid

commit_read-drop_example : (b' : Buffer) × (commit_read sample (pos 2) ≡ some b') × Took sample 2 b'
commit_read-drop_example = commit_read-drop sample-IsValid 2 (omega arith)

writable_segments-commit_example :
    (g : Buffer) × (s : Range × Range) × (b' : Buffer) × (writable_segments sample 3 ≡ some (g, s))
    × (commit_write (record g { buf = fill g.buf s (1 ∷ 2 ∷ []) }) (pos 2) ≡ some b')
    × Appended sample (1 ∷ 2 ∷ []) b'
writable_segments-commit_example =
    writable_segments-commit 3 (1 ∷ 2 ∷ []) sample-IsValid (λ e. absurd (omega arith)) (omega arith)
      (omega arith)

writable_segments-astray_example :
    (writable_segments drained 2 ≡ some (drained, ((0, 4), (0, 0))))
    × ((b' : Buffer) × (commit_write
            (record drained { buf = fill drained.buf ((0, 4), (0, 0)) (1 ∷ 2 ∷ []) })
            (pos 2)
          ≡ some b')
        × (contents b' ≡ 8 ∷ 6 ∷ []))
unfolding window
writable_segments-astray_example =
    writable_segments-astray 2 (1 ∷ 2 ∷ []) drained-IsValid refl (omega arith) (omega arith)

-- A writer that accepts everything, and its log.
abbrev sink : Writer (List ℕ)
sink s p = (s ++ p, length p, false)

take_all : (p : List ℕ) → take (length p) p ≡ p
take_all p = take_of_length-le (length p) p (omega arith)

sink-IsWriter : IsWriter (λ s. s) sink
sink-IsWriter = record {
  count = λ s p. omega arith;
  all = λ s p e. refl;
  keeps = λ s p. ap (λ l. s ++ l) (sym (take_all p));
}

-- A reader that delivers a byte at a time and then reports io.EOF; without room it returns nothing
-- and no error. Its state is what it has still to deliver and what it has delivered.
abbrev source : Reader (List ℕ × List ℕ)
source ([], sent) room = (([], sent), [], eof)
source (x ∷ xs, sent) zero = ((x ∷ xs, sent), [], more)
source (x ∷ xs, sent) (suc room) = ((xs, sent ++ (x ∷ [])), x ∷ [], more)

source-IsReader : IsReader (λ s. s.1) (λ s. length s.0) source
source-IsReader = record { fits = fits; ends = ends; bounded = bounded; keeps = keeps }
  where
    fits : (s : List ℕ × List ℕ) (room : ℕ) → length (source s room).1 ≤ room
    fits ([], sent) room = omega arith
    fits (x ∷ xs, sent) zero = omega arith
    fits (x ∷ xs, sent) (suc room) = omega arith

    ends :
        (s : List ℕ × List ℕ) (room : ℕ)
        → 0 < room
        → (source s room).2 ≡ more
        → length (source s room).0.0 < length s.0
    ends ([], sent) room up e = cc
    ends (x ∷ xs, sent) zero up e = absurd (omega arith)
    ends (x ∷ xs, sent) (suc room) up e = omega arith

    bounded :
        (s : List ℕ × List ℕ) (room : ℕ)
        → length (source s room).1 + length (source s room).0.0 ≤ length s.0
    bounded ([], sent) room = omega arith
    bounded (x ∷ xs, sent) zero = omega arith
    bounded (x ∷ xs, sent) (suc room) = omega arith

    keeps : (s : List ℕ × List ℕ) (room : ℕ) → (source s room).0.1 ≡ s.1 ++ (source s room).1
    keeps ([], sent) room = sym (append-nil sent)
    keeps (x ∷ xs, sent) zero = sym (append-nil sent)
    keeps (x ∷ xs, sent) (suc room) = refl

read_from-append_example :
    Received source-IsReader
      (1 ∷ 2 ∷ [], [])
      sample
      0
      (read_from source 3 (1 ∷ 2 ∷ [], []) sample 0)
read_from-append_example =
    read_from-append source-IsReader 3 (1 ∷ 2 ∷ [], []) 0 sample-IsValid (omega arith) (omega arith)

unread_byte-commit_read_example :
    (b' : Buffer) × (commit_read (read_byte sample).0 (pos 1) ≡ some b')
    × (unread_byte b' ≡ (rolled_back sample, true))
unread_byte-commit_read_example = unread_byte-commit_read sample-IsValid 1 (omega arith)

unread_byte-reset_example :
    unread_byte (reset (read_byte sample).0) ≡ (record (rolled_back sample) { w = 3 }, true)
unread_byte-reset_example = unread_byte-reset sample-IsValid (omega arith)
