-- ===== src/Ring/Inv.antt =====
-- ring/ring.go: when a `Buffer` is well formed, the bytes that it holds, and its masked offsets.
use Prim.Native.Nat.{bit_and}
use mathlib.Core.Path.{ap}
use native.Mathlib.Nat.{mod-add-mod, mod-lt}
use yakutil.Base.{
  ℕ, ◌+◌, ◌-◌, ◌%◌, ◌^◌, ◌≤◌, ◌<◌, ◌≡◌, sym, ◌∙◌, List, arith, length, window, length-window,
}
use yakutil.Base.Bits.{bit_and-mask, mod-mod_two-pow, two-pow-pos, two-pow-le}
use yakutil.Base.Int.{u64_mod}
use yakutil.Ring.Buffer.{Buffer, len, cap, read_start, write_start}

-- The capacity is a power of two with its mask, and what is stored fits. Offsets are 64-bit words.
pub record IsValid (b : Buffer) : Type 0 where
  pub k : ℕ
  pub size : cap b ≡ 2 ^ k
  pub small : k ≤ 62
  pub masked : b.mask ≡ 2 ^ k - 1
  pub r_word : b.r < u64_mod
  pub w_word : b.w < u64_mod
  pub bounded : len b ≤ cap b

-- The bytes to be read, oldest first.
abbrev pub contents : Buffer → List ℕ
contents b = window b.buf (read_start b) (len b)

-- An empty buffer stands at the start of its array. `WriteTo` does not see to that.
abbrev pub IsNormal : Buffer → Type 0
IsNormal b = b.r ≡ b.w → read_start b ≡ 0

module _ {b : Buffer} (v : IsValid b) where
  masks : (x : ℕ) → bit_and x b.mask ≡ x % cap b
  masks x = ap (bit_and x) v.masked ∙ (bit_and-mask v.k x ∙ sym (ap (λ n. x % n) v.size))

  word-mod : (x : ℕ) → x % u64_mod % cap b ≡ x % cap b
  word-mod x = rw v.size (mod-mod_two-pow v.k 64 x (omega arith))

  pub cap-pos : 0 < cap b
  cap-pos = omega (arith, two-pow-pos v.k)

  pub cap-le : cap b ≤ 2 ^ 62
  cap-le = omega (arith, two-pow-le v.k 62 v.small)

  pub read_start-lt : read_start b < cap b
  read_start-lt = rw (masks b.r) (mod-lt b.r cap-pos)

  -- The masked offset after `n` more bytes, which wraps as the word does and as the ring does.
  pub advance : (x n : ℕ) → bit_and ((x + n) % u64_mod) b.mask ≡ (bit_and x b.mask + n) % cap b
  advance x n =
      rw (masks ((x + n) % u64_mod), masks x, word-mod (x + n)) (sym (mod-add-mod x (cap b) n))

  -- `w` is `r` and the length, as words.
  pub w-eq : b.w ≡ (b.r + len b) % u64_mod
  w-eq = omega (arith, v.r_word, v.w_word)

  pub write_start-eq : write_start b ≡ (read_start b + len b) % cap b
  write_start-eq = ap (λ x. bit_and x b.mask) w-eq ∙ advance b.r (len b)

  pub write_start-lt : write_start b < cap b
  write_start-lt = rw (masks b.w) (mod-lt b.w cap-pos)

  pub length-contents : length (contents b) ≡ len b
  length-contents =
      length-window b.buf (read_start b) (len b) (omega (arith, read_start-lt)) v.bounded
