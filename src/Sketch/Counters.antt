-- ===== src/Sketch/Counters.antt =====
-- sketch/sketch.go: the table of counters with NewSized, Add, Count, Merge and Reset. The hash of hash/maphash, the
-- same for bytes and for a string, is a parameter; `none` is a panic. NewFromError, on floating
-- point numbers, is left out.
use Prim.Native.Nat.{bit_xor}
use yakutil.Base.{
  ℕ, zero, suc, ◌+◌, ◌-◌, ◌*◌, ◌/◌, ◌%◌, ◌^◌, Bool, true, false, ◌&&◌, Option, none, some, List, [],
  ◌∷◌, ltb, ◌==◌, ◌>>=◌, if◌then◌else◌, get_elem?, set, replicate, map,
}
use yakutil.Base.Int.{ℤ, pos, negsuc, u64_mod}

infixl 65 ◌+ℤ◌
abbrev pub ◌+ℤ◌ : ℤ → ℤ → ℤ
pos a +ℤ pos b = pos (a + b)
pos a +ℤ negsuc b = if ltb b a then pos (a - suc b) else negsuc (b - a)
negsuc a +ℤ pos b = if ltb a b then pos (b - suc a) else negsuc (a - b)
negsuc a +ℤ negsuc b = negsuc (suc (a + b))

-- `a < b`
abbrev pub less_int : ℤ → ℤ → Bool
less_int (pos a) (pos b) = ltb a b
less_int (pos a) (negsuc b) = false
less_int (negsuc a) (pos b) = true
less_int (negsuc a) (negsuc b) = ltb b a

-- `CMS`
pub record Cms : Type 0 where
  pub w : ℕ
  pub d : ℕ
  pub table : List (List ℤ)
  pub seeds : List ℕ
  pub total : ℤ

-- the seeds of `d` rows from row `i` on
unfoldable pub seeds_from : ℕ → ℕ → List ℕ
seeds_from zero i = []
seeds_from (suc d) i =
    ((i * 0x9E3779B97F4A7C15 + 0xBF58476D1CE4E5B9) % u64_mod) ∷ seeds_from d (suc i)

unfoldable pub or_default : ℕ → ℕ → ℕ
or_default n default = if n == 0 then default else n

-- `NewSized`; a size below 1 counts as the default
unfoldable pub new_sized : ℕ → ℕ → Cms
new_sized w d =
    let w' = or_default w 2048 in
    let d' = or_default d 4 in
    record {
      w = w';
      d = d';
      table = replicate d' (replicate w' (pos 0));
      seeds = seeds_from d' 0;
      total = pos 0;
    }

-- `hashIdx`, with the seed of row `i`
unfoldable pub hash_idx : ℕ → ℕ → ℕ → ℕ → ℕ
hash_idx w h i seed = (h % 2 ^ 32 + (i + 1) * bit_xor (h / 2 ^ 32) seed) % u64_mod % w

-- the loop of `Add` over the rows from row `i` on
unfoldable pub add_rows : ℕ → ℕ → ℤ → ℕ → List (List ℤ) → List ℕ → Option (List (List ℤ))
add_rows w h count i [] seeds = some []
add_rows w h count i (row ∷ rows) [] = none
add_rows w h count i (row ∷ rows) (seed ∷ seeds) = get_elem? row (hash_idx w h i seed) >>= λ x.
    add_rows w h count (suc i) rows seeds >>= λ rest.
    some (set row (hash_idx w h i seed) (x +ℤ count) ∷ rest)

-- the loop of `Count`, with the least so far
unfoldable pub least_row : ℕ → ℕ → ℕ → ℤ → List (List ℤ) → List ℕ → Option ℤ
least_row w h i least [] seeds = some least
least_row w h i least (row ∷ rows) [] = none
least_row w h i least (row ∷ rows) (seed ∷ seeds) = get_elem? row (hash_idx w h i seed) >>= λ x.
    least_row w h (suc i) (if less_int x least then x else least) rows seeds

-- `math.MaxInt64`
abbrev pub max_int64 : ℕ
max_int64 = 2 ^ 63 - 1

abbrev pub or_zero : ℤ → ℤ
or_zero (pos n) = pos n
or_zero (negsuc n) = pos 0

module _ {K : Type 0} (sum64_map : K → ℕ) where
  -- `Add`; `AddStr` is that of one
  unfoldable pub add : Cms → K → ℤ → Option Cms
  add c key count = add_rows c.w (sum64_map key) count 0 c.table c.seeds >>= λ t.
      some (record c { table = t; total = c.total +ℤ count })

  -- `Count` and `CountStr`
  unfoldable pub count : Cms → K → Option ℤ
  count c key =
      least_row c.w (sum64_map key) 0 (pos max_int64) c.table c.seeds >>= λ m. some (or_zero m)

-- the loops of `Merge`, over the columns of two rows and over the rows
unfoldable pub merge_row : List ℤ → List ℤ → List ℤ
merge_row (x ∷ a) (y ∷ b) = (x +ℤ y) ∷ merge_row a b
merge_row a b = a

unfoldable pub merge_rows : List (List ℤ) → List (List ℤ) → List (List ℤ)
merge_rows (a ∷ rows) (b ∷ others) = merge_row a b ∷ merge_rows rows others
merge_rows rows others = rows

-- `Merge`
unfoldable pub merge : Cms → Cms → Option Cms
merge c other =
    if (c.w == other.w) && (c.d == other.d)
    then some (record c { table = merge_rows c.table other.table; total = c.total +ℤ other.total })
    else none

-- `Reset`
unfoldable pub reset : Cms → Cms
reset c = record c { table = map (map (λ x. pos 0)) c.table; total = pos 0 }
