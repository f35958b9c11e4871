-- ===== src/Arena/Allocs.antt =====
-- arena/arena.go: when Alloc comes to an end, and with what.
use mathlib.Core.Path.{subst}
use yakutil.Base.{
  ℕ, zero, suc, ◌+◌, ◌%◌, ◌≤◌, ◌<◌, ◌≡◌, ◌⊎◌, inl, inr, refl, sym, ◌∙◌, Option, none, some, arith,
  le→leb, lt→leb, length, set, get_elem?, get_elem?_end, get_elem?-set_self, dec_lt,
}
use yakutil.Base.Bits.{bit_and-mask}
use yakutil.Arena.Chunks.{
  Chunk, Arena, Block, slice, empty_chunk, aligned, take, switch, alloc_rounds, alloc,
}

-- `aligned` is the least multiple of 8 that is not below.
pub aligned-bounds : (n : ℕ) → (n ≤ aligned n) × (aligned n < n + 8) × (aligned n % 8 ≡ 0)
unfolding aligned
aligned-bounds n = rw (bit_and-mask 3 (n + 7)) (omega arith, omega arith, omega arith)

-- The current chunk is in the heap and of the arena's size.
pub record IsValid (a : Arena) : Type 0 where
  pub c : Chunk
  pub current : get_elem? a.heap a.cur ≡ some c
  pub size : c.size ≡ a.csz

pub switch-current :
    (a : Arena) → get_elem? (switch a).heap (switch a).cur ≡ some (empty_chunk a.csz)
unfolding switch
switch-current a = get_elem?_end a.heap (empty_chunk a.csz)

pub switch-IsValid : (a : Arena) → IsValid (switch a)
unfolding switch
switch-IsValid a = record { c = empty_chunk a.csz; current = switch-current a; size = refl }

-- The two ways of a round.
module _ (rounds : ℕ) (a : Arena) (n : ℕ) (c : Chunk)
    (current : get_elem? a.heap a.cur ≡ some c) where
  rounds_fit : c.off + aligned n ≤ c.size → alloc_rounds (suc rounds) a n ≡ some (take a a.cur c n)
  unfolding alloc_rounds
  rounds_fit fits = rw (current, le→leb _ _ fits) refl

  rounds_full :
      c.size < c.off + aligned n → alloc_rounds (suc rounds) a n ≡ alloc_rounds rounds (switch a) n
  unfolding alloc_rounds
  rounds_full over = rw (current, lt→leb _ _ over) refl

rounds-stuck :
    (rounds : ℕ) (a : Arena) (n : ℕ)
    → IsValid a
    → a.csz < aligned n
    → alloc_rounds rounds a n ≡ none
unfolding alloc_rounds switch
rounds-stuck zero a n v over = refl
rounds-stuck (suc rounds) a n v over =
    rounds_full rounds a n v.c v.current (omega (arith, v.size))
    ∙ rounds-stuck rounds (switch a) n (switch-IsValid a) over

-- Beyond the checks of its argument Alloc is the loop.
alloc-rounds :
    (rounds : ℕ) (a : Arena) (n : ℕ)
    → 0 < n
    → n ≤ a.csz
    → alloc rounds a n ≡ alloc_rounds rounds a n
unfolding alloc
alloc-rounds rounds a n some_bytes fits = ground arith

-- Alloc of a size whose multiple of 8 is larger than a chunk, though the size itself is not, never
-- ends: it makes one new chunk after another.
pub alloc-stuck :
    (rounds : ℕ) (a : Arena) (n : ℕ)
    → IsValid a
    → 0 < n
    → n ≤ a.csz
    → a.csz < aligned n
    → alloc rounds a n ≡ none
alloc-stuck rounds a n v some_bytes fits over =
    alloc-rounds rounds a n some_bytes fits ∙ rounds-stuck rounds a n v over

-- The slice that `a` gives for `n` bytes, and the arena afterwards.
pub record Granted (a : Arena) (n : ℕ) (result : Option (Arena × Block)) : Type 0 where
  pub a' : Arena
  pub chunk : ℕ
  pub start : ℕ
  pub done : result ≡ some (a', slice chunk start (start + n) (start + aligned n))
  pub valid : IsValid a'
  pub taken : get_elem? a'.heap chunk ≡ some (record { size = a.csz; off = start + aligned n })
  pub inside : start + aligned n ≤ a.csz
  pub source :
      ((chunk ≡ a.cur) × (get_elem? a.heap chunk ≡ some (record { size = a.csz; off = start })))
      ⊎ ((chunk ≡ length a.heap) × (start ≡ 0))

-- A slice taken from the current chunk of `b`, which is `a` or has a new chunk.
take-Granted :
    (a b : Arena) (n : ℕ) (c : Chunk)
    → get_elem? b.heap b.cur ≡ some c
    → b.csz ≡ a.csz
    → c.size ≡ a.csz
    → c.off + aligned n ≤ a.csz
    → ((b.cur ≡ a.cur) × (get_elem? a.heap b.cur ≡ some (record { size = a.csz; off = c.off })))
      ⊎ ((b.cur ≡ length a.heap) × (c.off ≡ 0))
    → Granted a n (some (take b b.cur c n))
unfolding take
take-Granted a b n c current same size fits source =
    let after : Chunk = record c { off = c.off + aligned n } in
    let now : get_elem? (set b.heap b.cur after) b.cur ≡ some after =
      get_elem?-set_self b.heap b.cur c after current in
    record {
      a' = (take b b.cur c n).0;
      chunk = b.cur;
      start = c.off;
      done = refl;
      valid = record { c = after; current = now; size = size ∙ sym same };
      taken = rw⁻¹ size now;
      inside = fits;
      source = source;
    }

-- Alloc of a size whose multiple of 8 fits into a chunk ends in two rounds at most. It returns a
-- slice of that length and its multiple of 8 as capacity, which starts where the current chunk was
-- used up to, or at the start of a new chunk, and lies in that chunk; the chunk is used up to the
-- end of the slice then.
pub alloc-Granted :
    (rounds : ℕ) (a : Arena) (n : ℕ)
    → IsValid a
    → 0 < n
    → aligned n ≤ a.csz
    → Granted a n (alloc (suc (suc rounds)) a n)
unfolding switch
alloc-Granted rounds a n v some_bytes fits = elim (dec_lt v.c.size (v.c.off + aligned n)) [
  | no room ↦
      subst (Granted a n) (sym (start ∙ rounds_fit (suc rounds) a n v.c v.current (omega arith))) (
        take-Granted a a n v.c v.current refl v.size (omega (arith, v.size))
          (inl (refl, rw⁻¹ v.size v.current)))
  | yes full ↦
      subst (Granted a n)
        (sym (
          start
          ∙ (rounds_full (suc rounds) a n v.c v.current full
              ∙ rounds_fit rounds (switch a) n (empty_chunk a.csz) (switch-current a)
                  (omega arith))))
        (take-Granted a (switch a) n (empty_chunk a.csz) (switch-current a) refl refl (omega arith)
          (inr (refl, refl)))
]
  where
    start : alloc (suc (suc rounds)) a n ≡ alloc_rounds (suc (suc rounds)) a n
    start = alloc-rounds (suc (suc rounds)) a n some_bytes (omega (arith, (aligned-bounds n).0))
