-- ===== src/Ring/Buffer.antt =====
-- ring/ring.go: the state of a `Buffer`, and the operations that write, read and discard bytes.
-- A byte is only moved, so it is any number. `none` of an operation is a panic, or a growth past
-- the largest `int`. Offsets are `uint`s of 64 bits that wrap; an `int` that the source computes
-- from them is below `2 ^ 63` in every valid buffer, so it is a plain number here.
use Prim.Native.Nat.{bit_and}
use yakutil.Base.{
  ℕ, ◌+◌, ◌-◌, ◌%◌, min, Bool, true, false, ◌&&◌, Option, none, some, List, ltb, leb, ◌==◌,
  if◌then◌else◌, ◌>>=◌, length, get_or, set, take, drop, replicate, overwrite, overwrite_at,
}
use yakutil.Base.Int.{ℤ, pos, negsuc, u64_mod, to_uint}
use yakutil.Base.Doubling.{double_while, int_rounds}

pub record Buffer : Type 0 where
  pub buf : List ℕ
  pub r : ℕ
  pub w : ℕ
  pub mask : ℕ
  pub read_prev : ℕ
  pub has_unread : Bool

-- `New`
unfoldable pub new : ℕ → Option Buffer
new cap = do
  sz ← double_while (λ sz. ltb sz cap) int_rounds 64
  some (record {
    buf = replicate sz 0;
    r = 0;
    w = 0;
    mask = sz - 1;
    read_prev = 0;
    has_unread = false;
  })

-- `Len`, a difference that wraps
abbrev pub len : Buffer → ℕ
len b = (b.w + u64_mod - b.r) % u64_mod

-- `Cap` and `Free`
abbrev pub cap : Buffer → ℕ
cap b = length b.buf

abbrev pub free : Buffer → ℕ
free b = cap b - len b

-- `Reset` leaves the roll-back point as it is.
unfoldable pub reset : Buffer → Buffer
reset b = record b { r = 0; w = 0 }

-- `b.r & b.mask` and `b.w & b.mask`
abbrev pub read_start : Buffer → ℕ
read_start b = bit_and b.r b.mask

abbrev pub write_start : Buffer → ℕ
write_start b = bit_and b.w b.mask

-- `b.buf[lo:hi]`
abbrev pub slice : List ℕ → ℕ → ℕ → List ℕ
slice xs lo hi = take (hi - lo) (drop lo xs)

-- The two copies that `grow` and `Read` make: `n` bytes from `start` on, going round, into `dst`.
unfoldable pub copy_out : List ℕ → ℕ → ℕ → List ℕ → List ℕ
copy_out buf start n dst =
    let seg = slice buf start (min (start + n) (length buf)) in
    let first = min (length dst) (length seg) in
    let dst' = overwrite dst seg in
    if ltb first n then overwrite_at dst' first (take (n - first) buf) else dst'

-- `if b.r == b.w { b.r = 0; b.w = 0 }`
abbrev pub normalize : Buffer → Buffer
normalize b = if b.r == b.w then record b { r = 0; w = 0 } else b

-- `grow`
unfoldable pub grow : Buffer → ℕ → Option Buffer
grow b need = if leb need (free b) then some b else do
  new_cap ← double_while (λ c. ltb (c - len b) need) int_rounds (if cap b == 0 then 64 else cap b)
  some (record b {
    buf = copy_out b.buf (read_start b) (len b) (replicate new_cap 0);
    mask = new_cap - 1;
    r = 0;
    w = len b;
  })

-- the two copies of `Write` at index `start`
unfoldable pub put_bytes : List ℕ → ℕ → List ℕ → List ℕ
put_bytes buf start p =
    let first = min (length buf - start) (length p) in
    let buf' = overwrite_at buf start p in
    if ltb first (length p) then overwrite buf' (drop first p) else buf'

-- what `Write` does once there is room
unfoldable pub put : Buffer → List ℕ → Buffer
put b p = record b { buf = put_bytes b.buf (write_start b) p; w = (b.w + length p) % u64_mod }

-- `Write`: the buffer and the count
unfoldable pub write : Buffer → List ℕ → Option (Buffer × ℕ)
write b p = do b' ← grow (record b { has_unread = false }) (length p); some (put b' p, length p)

-- `WriteByte`
unfoldable pub write_byte : Buffer → ℕ → Option Buffer
write_byte b c = do
  b' ← grow (record b { has_unread = false }) 1
  some (record b' { buf = set b'.buf (write_start b') c; w = (b'.w + 1) % u64_mod })

-- `ReadByte`; no byte is io.EOF
unfoldable pub read_byte : Buffer → Buffer × Option ℕ
read_byte b = if b.r == b.w then (record b { has_unread = false }, none) else (
  normalize (record b { read_prev = b.r; r = (b.r + 1) % u64_mod; has_unread = true }),
  some (get_or b.buf (read_start b) 0),
)

-- `UnreadByte`; `false` is io.ErrNoProgress
unfoldable pub unread_byte : Buffer → Buffer × Bool
unread_byte b =
    if b.has_unread
    then (
      if b.r == 0 && b.w == 0
          then record b { has_unread = false; r = b.read_prev; w = (b.read_prev + 1) % u64_mod }
          else record b { has_unread = false; r = b.read_prev },
      true,
    )
    else (b, false)

-- `Read` into `p`: `p` as it is afterwards and the count, or nothing for io.EOF
unfoldable pub read : Buffer → List ℕ → Buffer × Option (List ℕ × ℕ)
read b p =
    if len b == 0
    then (b, none)
    else let n = min (length p) (len b) in
      (
        normalize (record b { has_unread = false; r = (b.r + n) % u64_mod }),
        some (copy_out b.buf (read_start b) n p, n),
      )

-- `Discard`; a negative count moves `r` back.
unfoldable pub discard : Buffer → ℤ → Buffer
discard b (pos n) =
    let m = min n (len b) in
    normalize
      (record b { has_unread = if ltb 0 m then false else b.has_unread; r = (b.r + m) % u64_mod })
discard b (negsuc n) = normalize (record b { r = (b.r + to_uint (negsuc n)) % u64_mod })
