-- ===== src/Base/Bits.antt =====
-- `&` with a mask of low bits is the remainder by a power of two, at every width.
use Prim.Native.Nat.{
  ℕ, zero, suc, ◌+◌, ◌-◌, ◌*◌, ◌/◌, ◌%◌, ◌^◌, ◌≤◌, ◌<◌, ◌∣◌, min, bit_and, digits, bit_and-bitwise,
}
use mathlib.Core.Path.{◌≡◌, refl, sym, ap, ◌∙◌}
use native.Mathlib.Nat.{
  pow-le-pow_right, pow-suc, one-le-pow, mod-lt, mod-eq_of_lt, mul-add-mod_self_left, div-add-mod,
  add-zero, dvd_refl, dvd-mul_right_of_dvd, mod-mod_of_dvd,
}
use native.Mathlib.Omega.{arith}

-- `and` of the binary digits, with a bound on their number.
abbrev and_upto : ℕ → ℕ → ℕ → ℕ
and_upto = digits (λ _. 0) min

-- Any bound that covers the first number will do.
and_upto_enough : (n a b : ℕ) → a ≤ n → and_upto n a b ≡ bit_and a b
and_upto_enough n a b h = go n a a b h (omega arith) ∙ back
  where
    go : (n m a b : ℕ) → a ≤ n → a ≤ m → and_upto n a b ≡ and_upto m a b
    go zero zero a b p q = refl
    go zero (suc m) zero b p q = refl
    go zero (suc m) (suc a) b p q = absurd (omega arith)
    go (suc n) zero zero b p q = refl
    go (suc n) zero (suc a) b p q = absurd (omega arith)
    go (suc n) (suc m) zero b p q = refl
    go (suc n) (suc m) (suc a) b p q =
        ap (λ (t : ℕ). t * 2 + min (suc a % 2) (b % 2))
          (go n m (suc a / 2) (b / 2) (omega arith) (omega arith))

    back : and_upto a a b ≡ bit_and a b
    back = omega (arith, bit_and-bitwise a b)

-- The lowest digit, and the rest.
pub bit_and-halves : (a b : ℕ) → bit_and a b ≡ bit_and (a / 2) (b / 2) * 2 + min (a % 2) (b % 2)
bit_and-halves zero b = omega (arith, bit_and-bitwise 0 b, bit_and-bitwise 0 (b / 2))
bit_and-halves (suc a) b =
    omega (arith, bit_and-bitwise (suc a) b, and_upto_enough a (suc a / 2) (b / 2) (omega arith))

pub zero-bit_and : (b : ℕ) → bit_and 0 b ≡ 0
zero-bit_and b = bit_and-bitwise 0 b

zero_mask : (n a : ℕ) → a ≤ n → bit_and a 0 ≡ 0
zero_mask n zero h = refl
zero_mask zero (suc a) h = absurd (omega arith)
zero_mask (suc n) (suc a) h =
    omega (arith, bit_and-halves (suc a) 0, zero_mask n (suc a / 2) (omega arith))

-- A remainder by `2 * p`, from the lowest digit and the remainder of the rest.
halve_mod : (p a : ℕ) → 0 < p → a / 2 % p * 2 + a % 2 ≡ a % (2 * p)
halve_mod p a h = sym (ap (λ (t : ℕ). t % (2 * p)) split ∙ (drop_multiple ∙ mod-eq_of_lt small))
  where
    low : ℕ
    low = a / 2 % p * 2 + a % 2

    split : a ≡ 2 * p * (a / 2 / p) + low
    split = grind (arith, div-add-mod (a / 2) p)

    drop_multiple : (2 * p * (a / 2 / p) + low) % (2 * p) ≡ low % (2 * p)
    drop_multiple = mul-add-mod_self_left (2 * p) (a / 2 / p) low

    small : low < 2 * p
    small = omega (arith, mod-lt (a / 2) h)

pub two-pow-suc : (k : ℕ) → 2 ^ suc k ≡ 2 * 2 ^ k
two-pow-suc k = omega (arith, pow-suc 2 k)

pub two-pow-pos : (k : ℕ) → 0 < 2 ^ k
two-pow-pos k = one-le-pow k 2 (omega arith)

pub two-pow-le : (i j : ℕ) → i ≤ j → 2 ^ i ≤ 2 ^ j
two-pow-le i j h = pow-le-pow_right (omega arith) h

-- `a & (2^k - 1)` is `a % 2^k`.
pub bit_and-mask : (k a : ℕ) → bit_and a (2 ^ k - 1) ≡ a % 2 ^ k
bit_and-mask zero a = omega (arith, zero_mask a a (omega arith))
bit_and-mask (suc k) a = rw (two-pow-suc k) (
    omega (
      arith,
      two-pow-pos k,
      bit_and-halves a (2 * 2 ^ k - 1),
      halve_mod (2 ^ k) a (two-pow-pos k),
      ap (λ (t : ℕ). bit_and (a / 2) t) mask,
      bit_and-mask k (a / 2),
    ))
  where
    mask : (2 * 2 ^ k - 1) / 2 ≡ 2 ^ k - 1
    mask = omega (arith, two-pow-pos k)

two-pow-dvd_add : (k d n : ℕ) → k + d ≡ n → 2 ^ k ∣ 2 ^ n
two-pow-dvd_add k zero n e = rw (← e, add-zero) (dvd_refl (2 ^ k))
two-pow-dvd_add k (suc d) zero e = absurd (omega arith)
two-pow-dvd_add k (suc d) (suc n) e =
    rw (pow-suc 2 n) (dvd-mul_right_of_dvd (2 ^ k) (two-pow-dvd_add k d n (omega arith)) 2)

-- A smaller power of two divides a larger one, so a wrap at the larger does not show below it.
pub mod-mod_two-pow : (k n x : ℕ) → k ≤ n → x % 2 ^ n % 2 ^ k ≡ x % 2 ^ k
mod-mod_two-pow k n x h = mod-mod_of_dvd (2 ^ k) x (two-pow-dvd_add k (n - k) n (omega arith))
