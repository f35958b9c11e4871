-- ===== src/Ring/Unread.antt =====
-- ring/ring.go: the roll-back point of `ReadByte` outlives `CommitRead` and `Reset`, which do not
-- clear `hasUnread`.
use yakutil.Base.{ℕ, ◌+◌, ◌%◌, ◌<◌, ◌≡◌, true, false, some, arith}
use yakutil.Base.Int.{pos, u64_mod}
use yakutil.Ring.Buffer.{Buffer, len, reset, read_byte, unread_byte}
use yakutil.Ring.Segments.{commit_read}
use yakutil.Ring.Inv.{IsValid}

-- the buffer as it was before the byte was read
abbrev pub rolled_back : Buffer → Buffer
rolled_back b = record b { read_prev = b.r; has_unread = false }

module _ {b : Buffer} (v : IsValid b) where
  -- On a valid buffer of more than `n + 1` bytes, after `ReadByte` and `CommitRead` of `n` bytes, so
  -- that some are left, `UnreadByte` succeeds and brings back all the `n + 1` bytes, and not one.
  pub unread_byte-commit_read :
      (n : ℕ)
      → n + 1 < len b
      → (b' : Buffer) × (commit_read (read_byte b).0 (pos n) ≡ some b')
        × (unread_byte b' ≡ (rolled_back b, true))
  unfolding read_byte unread_byte commit_read
  unread_byte-commit_read n h = (
    record b { r = ((b.r + 1) % u64_mod + n) % u64_mod; read_prev = b.r; has_unread = true },
    ground (arith, v.r_word, v.w_word),
    ground (arith, v.r_word, v.w_word),
  )

  -- After `ReadByte` and `Reset`, which empties the buffer, `UnreadByte` succeeds and the byte is
  -- there again, at the position where it was read.
  pub unread_byte-reset :
      0 < len b
      → unread_byte (reset (read_byte b).0)
        ≡ (record (rolled_back b) { w = (b.r + 1) % u64_mod }, true)
  unfolding read_byte unread_byte reset
  unread_byte-reset h = ground (arith, v.r_word, v.w_word)
