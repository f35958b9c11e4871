-- ===== src/Smap/Fibonacci.antt =====
-- smap/smap.go: the shards of Map64, which the top bits of a product choose.
use mathlib.Core.Path.{fun_ext}
use native.Mathlib.Nat.{mod-eq_of_lt, div-lt_iff_lt-mul, mul-div_left}
use yakutil.Base.{
  ℕ, zero, suc, ◌+◌, ◌-◌, ◌*◌, ◌%◌, ◌/◌, ◌^◌, ◌<◌, ◌≤◌, ◌≡◌, refl, ◌∙◌, ap, none, some, List, [],
  arith, length, length-replicate, replicate, ltb, lt→ltb,
}
use yakutil.Base.Bits.{bit_and-mask, two-pow-pos, two-pow-suc}
use yakutil.Base.Int.{u64_mod}
use yakutil.Base.Doubling.{double_while-Rounded, int_rounds}
use yakutil.Smap.Shards.{Map64, new64, shard64, bits_len, fibonacci, total64}
use yakutil.Smap.Entries.{entries}
use yakutil.Smap.Calls.{Call, perform64, answers, afters, run}
use yakutil.Smap.Steps.{new-IsSharded, view-replicate}
use yakutil.Smap.Runs.{Ran, run-Ran, perform64-Steps}

bits_len-zero : (fuel : ℕ) → bits_len fuel 0 ≡ 0
unfolding bits_len
bits_len-zero zero = refl
bits_len-zero (suc fuel) = refl

-- A number with `k` digits, all ones.
bits_len-ones : (fuel k : ℕ) → k ≤ fuel → bits_len fuel (2 ^ k - 1) ≡ k
unfolding bits_len
bits_len-ones fuel zero h = bits_len-zero fuel
bits_len-ones zero (suc k) h = absurd (omega arith)
bits_len-ones (suc fuel) (suc k) h =
    rw (half, lt→ltb 0 (2 ^ suc k - 1) some_digit) (ap suc (bits_len-ones fuel k (omega arith)))
  where
    half : (2 ^ suc k - 1) / 2 ≡ 2 ^ k - 1
    half = omega (arith, two-pow-suc k, two-pow-pos k)

    some_digit : 0 < 2 ^ suc k - 1
    some_digit = omega (arith, two-pow-suc k, two-pow-pos k)

two-pow-mul : (k d n : ℕ) → k + d ≡ n → 2 ^ k * 2 ^ d ≡ 2 ^ n
two-pow-mul zero d n e = let same : d ≡ n = omega arith in rw same (omega arith)
two-pow-mul (suc k) d zero e = absurd (omega arith)
two-pow-mul (suc k) d (suc n) e =
    grind (arith, two-pow-suc k, two-pow-suc n, two-pow-mul k d n (omega arith))

-- `fibonacci` times its inverse is one, up to multiples of 2^64.
abbrev inverse : ℕ
inverse = 17428512612931826493

unmultiply : (j : ℕ) → j < u64_mod → j * inverse % u64_mod * fibonacci % u64_mod ≡ j
unmultiply j h = omega arith

-- The top `k` bits of the product.
abbrev pub top_bits : ℕ → ℕ → ℕ
top_bits k key = key * fibonacci % u64_mod / 2 ^ (64 - k)

top_bits-lt : (k key : ℕ) → k ≤ 64 → top_bits k key < 2 ^ k
top_bits-lt k key h =
    (div-lt_iff_lt-mul (two-pow-pos (64 - k))).1
      (rw (two-pow-mul k (64 - k) 64 (omega arith)) (omega arith))

-- The map that New64 makes.
abbrev made : (V : Type 0) → ℕ → Map64 V
made V k = record {
  shards = replicate (2 ^ k) [];
  mask = 2 ^ k - 1;
  shift = 64 - bits_len 64 (2 ^ k - 1);
}

shard64-top_bits : (V : Type 0) (k key : ℕ) → k ≤ 62 → shard64 (made V k) key ≡ top_bits k key
unfolding shard64
shard64-top_bits V k key h =
    rw (bits_len-ones 64 k (omega arith), bit_and-mask k (key * fibonacci % u64_mod / 2 ^ (64 - k)))
      (mod-eq_of_lt (top_bits-lt k key (omega arith)))

top_bits-reach : (k i : ℕ) → k ≤ 62 → i < 2 ^ k → (key : ℕ) × (key < u64_mod) × (top_bits k key ≡ i)
top_bits-reach k i h lt = (
  i * 2 ^ (64 - k) * inverse % u64_mod,
  omega arith,
  rw (unmultiply (i * 2 ^ (64 - k)) fits) (mul-div_left i (two-pow-pos (64 - k))),
)
  where
    fits : i * 2 ^ (64 - k) < u64_mod
    fits = grind (arith, two-pow-mul k (64 - k) 64 (omega arith), two-pow-pos (64 - k))

module _ {V : Type 0} where
  new64-made :
      (num : ℕ)
      → num ≤ 2 ^ 62
      → (k : ℕ) × (k ≤ 62) × (new64 {V = V} num ≡ some (made V k)) × (num ≤ 2 ^ k)
  unfolding new64
  new64-made num small =
      let r =
        double_while-Rounded (λ sz. ltb sz num) num int_rounds 2 (λ s le. refl) small (omega arith)
          (omega arith) in
      (r.k, r.fits, rw r.found refl, r.enough)

  -- New64 for up to 2^62 shards gives a map of 2^k shards, for a k, no fewer than those asked for.
  -- The shard of a key is the number that the top k bits of its product with the multiplier make, and
  -- each shard is that of a key of 64 bits.
  pub new64-shard64 :
      (num : ℕ)
      → num ≤ 2 ^ 62
      → (m : Map64 V) × (k : ℕ) × (new64 num ≡ some m)
        × (length m.shards ≡ 2 ^ k)
        × (num ≤ 2 ^ k)
        × ((key : ℕ) → shard64 m key ≡ key * fibonacci % u64_mod / 2 ^ (64 - k))
        × ((i : ℕ) → i < 2 ^ k → (key : ℕ) × (key < u64_mod) × (shard64 m key ≡ i))
  new64-shard64 num small =
      let (k, fits, e, enough) = new64-made num small in
      (
        made V k,
        k,
        e,
        length-replicate (2 ^ k) [],
        enough,
        λ key. shard64-top_bits V k key fits,
        λ i lt.
            let (key, below, hit) = top_bits-reach k i fits lt in
            (key, below, shard64-top_bits V k key fits ∙ hit),
      )

  -- New64 for up to 2^62 shards gives a map on which any calls of Get, Set, Del and GetOrSet, one
  -- after another, return what they return on a function from keys to values that is empty at
  -- first. At the end the shards together hold each key once, with the value of that function, and
  -- Len is the number of these entries.
  pub new64-run :
      (dec : Discrete ℕ) (num : ℕ) (cs : List (Call ℕ V))
      → num ≤ 2 ^ 62
      → (m : Map64 V) × (m' : Map64 V) × (new64 num ≡ some m)
        × (run (perform64 dec) m cs ≡ some (m', answers dec (λ k. none) cs))
        × Ran dec m'.shards (afters dec (λ k. none) cs)
        × (total64 m' ≡ length (entries m'.shards))
  unfolding total64
  new64-run dec num cs small =
      let (k, fits, e, enough) = new64-made num small in
      let (m', ran, end) =
        run-Ran dec (perform64 dec) shard64 Map64.shards (perform64-Steps dec) (made V k)
          (λ k. none) cs
          (new-IsSharded V dec (shard64 (made V k)) (2 ^ k)
            (λ key. rw (shard64-top_bits V k key fits) (top_bits-lt k key (omega arith))))
          (fun_ext (view-replicate dec (2 ^ k))) in
      (made V k, m', e, ran, end, end.counted)
