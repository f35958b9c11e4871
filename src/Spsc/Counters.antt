-- ===== src/Spsc/Counters.antt =====
-- spsc/ring.go: the counters, which wrap at 2^64, and the slots that they name.
use Prim.Native.Nat.{bit_and}
use native.Mathlib.Nat.{div-add-mod, mul-suc, mul-le-mul_left}
use yakutil.Base.{ℕ, suc, ◌+◌, ◌-◌, ◌/◌, ◌%◌, ◌^◌, ◌≤◌, ◌<◌, ◌≡◌, ◌≢◌, ◌∙◌, arith, dec_lt}
use yakutil.Base.Int.{u64_mod}
use yakutil.Base.Bits.{bit_and-mask, mod-mod_two-pow}

-- The difference of two counters survives the wrap.
pub distance :
    (c p : ℕ) → c ≤ p → p < c + u64_mod → (p % u64_mod + u64_mod - c % u64_mod) % u64_mod ≡ p - c
distance c p h near = omega arith

pub same_counter : (c p : ℕ) → c ≤ p → p < c + u64_mod → c % u64_mod ≡ p % u64_mod → c ≡ p
same_counter c p h near e = omega arith

pub next_counter : (c : ℕ) → (c % u64_mod + 1) % u64_mod ≡ (c + 1) % u64_mod
next_counter c = omega arith

-- Less than a turn apart, two counters name two slots.
pub slots_apart : (n a b : ℕ) → a < b → b < a + n → a % n ≢ b % n
slots_apart n a b less near e = elim (dec_lt (a / n) (b / n)) [
  | yes h ↦ absurd (
      grind (
        arith,
        less,
        near,
        e,
        div-add-mod a n,
        div-add-mod b n,
        mul-suc n (a / n),
        mul-le-mul_left {m = suc (a / n)} {n = b / n} n (omega arith),
      ))
  | no h ↦ absurd (
      omega (
        arith,
        div-add-mod a n,
        div-add-mod b n,
        mul-le-mul_left {m = b / n} {n = a / n} n (omega arith),
      ))
]

-- A slot of a wrapped counter is that of the counter.
pub slot_of : (k c mask : ℕ) → k ≤ 64 → mask ≡ 2 ^ k - 1 → bit_and (c % u64_mod) mask ≡ c % 2 ^ k
slot_of k c mask small is_mask =
    rw is_mask (bit_and-mask k (c % u64_mod) ∙ mod-mod_two-pow k 64 c small)
