-- ===== src/Arena/Chunks.antt =====
-- arena/arena.go: the arena. A chunk is known by its place in the heap, and a slice by its chunk and
-- its bounds there; the bytes themselves are not kept. Each call of Load, Store and CompareAndSwap
-- is atomic; `take` and `switch` are the two writes that Alloc makes, each by one CompareAndSwap.
use Prim.Native.Nat.{bit_and}
use yakutil.Base.{
  ℕ, zero, suc, ◌+◌, ◌-◌, ◌*◌, Option, none, some, List, [], ◌∷◌, ◌++◌, ltb, leb, ◌==◌,
  if◌then◌else◌, ◌>>=◌, length, get_elem?, set,
}

pub record Chunk : Type 0 where
  pub size : ℕ
  pub off : ℕ

pub record Arena : Type 0 where
  pub heap : List Chunk
  pub cur : ℕ
  pub csz : ℕ
  pub chunks : ℕ
  pub align_waste : ℕ

pub record Snapshot : Type 0 where
  pub chk : ℕ
  pub off : ℕ

-- What Alloc returns: nil, an array of its own, or `buf[start : stop : limit]` of a chunk.
pub data Block : Type 0 where
  nil : Block
  own : ℕ → Block
  slice : (chunk start stop limit : ℕ) → Block

abbrev pub default_chunk : ℕ
default_chunk = 64 * 1024

abbrev pub max_chunk : ℕ
max_chunk = 64 * 1024 * 1024

abbrev pub empty_chunk : ℕ → Chunk
empty_chunk size = record { size = size; off = 0 }

-- `New`; a negative size counts as 0 does
unfoldable pub new : ℕ → Arena
new chunk_size =
    let wanted = if chunk_size == 0 then default_chunk else chunk_size in
    let csz = if ltb max_chunk wanted then max_chunk else wanted in
    record { heap = empty_chunk csz ∷ []; cur = 0; csz = csz; chunks = 1; align_waste = 0 }

-- `(n + 7) &^ 7`
unfoldable pub aligned : ℕ → ℕ
aligned n = n + 7 - bit_and (n + 7) 7

-- the successful CompareAndSwap of the offset of chunk `i`, which was `c`, and what follows
unfoldable pub take : Arena → ℕ → Chunk → ℕ → Arena × Block
take a i c n = (
  record a {
    heap = set a.heap i (record c { off = c.off + aligned n });
    align_waste = a.align_waste + (aligned n - n);
  },
  slice i c.off (c.off + n) (c.off + aligned n),
)

-- the successful CompareAndSwap of the current chunk, and the body of `Reset`
unfoldable pub switch : Arena → Arena
switch a = record a {
  heap = a.heap ++ (empty_chunk a.csz ∷ []);
  cur = length a.heap;
  chunks = a.chunks + 1;
}

-- The rounds of the loop in `Alloc` when nobody comes between; `none` is out of rounds.
unfoldable pub alloc_rounds : ℕ → Arena → ℕ → Option (Arena × Block)
alloc_rounds zero a n = none
alloc_rounds (suc rounds) a n =
    let rest = alloc_rounds rounds (switch a) n in
    get_elem? a.heap a.cur >>= λ c.
    if leb (c.off + aligned n) c.size then some (take a a.cur c n) else rest

-- `Alloc`; a negative size counts as 0 does
unfoldable pub alloc : ℕ → Arena → ℕ → Option (Arena × Block)
alloc rounds a n =
    if n == 0
    then some (a, nil)
    else if ltb a.csz n
    then some (a, own n)
    else alloc_rounds rounds a n

-- `Reset`
abbrev pub reset : Arena → Arena
reset a = switch a

-- `Snap` and `Restore`
unfoldable pub snap : Arena → Option Snapshot
snap a = get_elem? a.heap a.cur >>= λ c. some (record { chk = a.cur; off = c.off })

unfoldable pub restore : Arena → Snapshot → Option Arena
restore a sp = get_elem? a.heap sp.chk >>= λ c.
    some (record a { heap = set a.heap sp.chk (record c { off = sp.off }); cur = sp.chk })

pub record ArenaStats : Type 0 where
  pub chunks : ℕ
  pub align_waste : ℕ
  pub tail_waste : ℕ
  pub chunk_size : ℕ

-- `Stats`, where a tail below 0 counts as 0
unfoldable pub stats : Arena → Option ArenaStats
stats a = get_elem? a.heap a.cur >>= λ c. some (record {
  chunks = a.chunks;
  align_waste = a.align_waste;
  tail_waste = a.csz - c.off;
  chunk_size = a.csz;
})
