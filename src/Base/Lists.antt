-- ===== src/Base/Lists.antt =====
-- Lists measured and indexed by native numbers, under the library's names. Each reading lemma is in
-- `if` form, so that an equation of lists follows from `List-ext` and arithmetic.
use Prim.Native.Nat.{ℕ, zero, suc, ◌+◌, ◌-◌, ◌≤◌, ◌<◌, min}
use mathlib.Core.Path.{◌≡◌, refl, sym, ap, ap₂, ◌∙◌}
use mathlib.Core.List.{List, [], ◌∷◌, ◌++◌}
use mathlib.Core.Option.{Option, none, some}
use native.Mathlib.Nat.{suc-min-suc, zero-add, suc-add}
use native.Mathlib.Omega.{arith}
use yakutil.Base.Tests.{ltb, ◌==◌, if◌then◌else◌}

module _ {ℓ} {A : Type ℓ} where
  abbrev pub length : List A → ℕ
  length [] = 0
  length (x ∷ xs) = suc (length xs)

  abbrev pub get_elem? : List A → ℕ → Option A
  get_elem? [] i = none
  get_elem? (x ∷ xs) zero = some x
  get_elem? (x ∷ xs) (suc i) = get_elem? xs i

  abbrev pub get_or : List A → ℕ → A → A
  get_or [] i d = d
  get_or (x ∷ xs) zero d = x
  get_or (x ∷ xs) (suc i) d = get_or xs i d

  abbrev pub set : List A → ℕ → A → List A
  set [] i v = []
  set (x ∷ xs) zero v = v ∷ xs
  set (x ∷ xs) (suc i) v = x ∷ set xs i v

  abbrev pub take : ℕ → List A → List A
  take zero xs = []
  take (suc n) [] = []
  take (suc n) (x ∷ xs) = x ∷ take n xs

  abbrev pub drop : ℕ → List A → List A
  drop zero xs = xs
  drop (suc n) [] = []
  drop (suc n) (x ∷ xs) = drop n xs

  abbrev pub replicate : ℕ → A → List A
  replicate zero a = []
  replicate (suc n) a = a ∷ replicate n a

  -- Go's `copy(dst, src)`: `dst` overwritten from its start, as far as both reach.
  abbrev pub overwrite : List A → List A → List A
  overwrite [] src = []
  overwrite (d ∷ dst) [] = d ∷ dst
  overwrite (d ∷ dst) (s ∷ src) = s ∷ overwrite dst src

  -- `copy(dst[i:], src)`
  abbrev pub overwrite_at : List A → ℕ → List A → List A
  overwrite_at dst zero src = overwrite dst src
  overwrite_at [] (suc i) src = []
  overwrite_at (d ∷ dst) (suc i) src = d ∷ overwrite_at dst i src

  pub take-nil : (n : ℕ) → take n [] ≡ []
  take-nil zero = refl
  take-nil (suc n) = refl

  pub drop-nil : (n : ℕ) → drop n [] ≡ []
  drop-nil zero = refl
  drop-nil (suc n) = refl

  pub length-append : (xs ys : List A) → length (xs ++ ys) ≡ length xs + length ys
  length-append [] ys = omega arith
  length-append (x ∷ xs) ys = omega (arith, length-append xs ys)

  pub take-append_left : (xs ys : List A) → take (length xs) (xs ++ ys) ≡ xs
  take-append_left [] ys = refl
  take-append_left (x ∷ xs) ys = ap (λ t. x ∷ t) (take-append_left xs ys)

  pub take-take_of_le : (n m : ℕ) (xs : List A) → n ≤ m → take n (take m xs) ≡ take n xs
  take-take_of_le zero m xs h = refl
  take-take_of_le (suc n) zero xs h = absurd (omega arith)
  take-take_of_le (suc n) (suc m) [] h = refl
  take-take_of_le (suc n) (suc m) (x ∷ xs) h =
      ap (λ t. x ∷ t) (take-take_of_le n m xs (omega arith))

  pub take-add : (n m : ℕ) (xs : List A) → take (n + m) xs ≡ take n xs ++ take m (drop n xs)
  take-add zero m xs = rw (zero-add m) refl
  take-add (suc n) m [] = take-nil (suc n + m) ∙ sym (take-nil m)
  take-add (suc n) m (x ∷ xs) = rw (suc-add n m) (ap (λ t. x ∷ t) (take-add n m xs))

  pub drop-add : (n m : ℕ) (xs : List A) → drop (n + m) xs ≡ drop m (drop n xs)
  drop-add zero m xs = rw (zero-add m) refl
  drop-add (suc n) m [] = drop-nil (suc n + m) ∙ sym (drop-nil m)
  drop-add (suc n) m (x ∷ xs) = rw (suc-add n m) (drop-add n m xs)

  pub take-min : (n k : ℕ) (xs : List A) → k ≡ length xs → take (min n k) xs ≡ take n xs
  take-min zero k xs e = let none_left : min 0 k ≡ 0 = omega arith in rw none_left refl
  take-min (suc n) zero [] e = let none_left : min (suc n) 0 ≡ 0 = omega arith in rw none_left refl
  take-min (suc n) zero (x ∷ xs) e = absurd (omega arith)
  take-min (suc n) (suc k) [] e = absurd (omega arith)
  take-min (suc n) (suc k) (x ∷ xs) e =
      rw (suc-min-suc n k) (ap (λ t. x ∷ t) (take-min n k xs (omega arith)))

  pub take_of_length-le : (n : ℕ) (xs : List A) → length xs ≤ n → take n xs ≡ xs
  take_of_length-le zero [] h = refl
  take_of_length-le zero (x ∷ xs) h = absurd (omega arith)
  take_of_length-le (suc n) [] h = refl
  take_of_length-le (suc n) (x ∷ xs) h = ap (λ t. x ∷ t) (take_of_length-le n xs (omega arith))

  pub length-set : (xs : List A) (i : ℕ) (v : A) → length (set xs i v) ≡ length xs
  length-set [] i v = refl
  length-set (x ∷ xs) zero v = refl
  length-set (x ∷ xs) (suc i) v = ap suc (length-set xs i v)

  pub length-take : (n : ℕ) (xs : List A) → length (take n xs) ≡ min n (length xs)
  length-take zero xs = omega arith
  length-take (suc n) [] = omega arith
  length-take (suc n) (x ∷ xs) = omega (arith, length-take n xs)

  pub length-drop : (n : ℕ) (xs : List A) → length (drop n xs) ≡ length xs - n
  length-drop zero xs = omega arith
  length-drop (suc n) [] = omega arith
  length-drop (suc n) (x ∷ xs) = omega (arith, length-drop n xs)

  pub length-replicate : (n : ℕ) (a : A) → length (replicate n a) ≡ n
  length-replicate zero a = refl
  length-replicate (suc n) a = ap suc (length-replicate n a)

  pub length-overwrite : (dst src : List A) → length (overwrite dst src) ≡ length dst
  length-overwrite [] src = refl
  length-overwrite (d ∷ dst) [] = refl
  length-overwrite (d ∷ dst) (s ∷ src) = ap suc (length-overwrite dst src)

  pub length-overwrite_at :
      (dst : List A) (i : ℕ) (src : List A) → length (overwrite_at dst i src) ≡ length dst
  length-overwrite_at dst zero src = length-overwrite dst src
  length-overwrite_at [] (suc i) src = refl
  length-overwrite_at (d ∷ dst) (suc i) src = ap suc (length-overwrite_at dst i src)

  pub get_or-set :
      (xs : List A) (i : ℕ) (v : A) (j : ℕ) (d : A)
      → i < length xs
      → get_or (set xs i v) j d ≡ (if i == j then v else get_or xs j d)
  get_or-set [] i v j d h = absurd (omega arith)
  get_or-set (x ∷ xs) zero v zero d h = ground arith
  get_or-set (x ∷ xs) zero v (suc j) d h = ground arith
  get_or-set (x ∷ xs) (suc i) v zero d h = ground arith
  get_or-set (x ∷ xs) (suc i) v (suc j) d h = ground (arith, get_or-set xs i v j d)

  pub get_or-append :
      (xs ys : List A) (i : ℕ) (d : A)
      → get_or (xs ++ ys) i d
        ≡ (if ltb i (length xs) then get_or xs i d else get_or ys (i - length xs) d)
  get_or-append [] ys i d = ground arith
  get_or-append (x ∷ xs) ys zero d = ground arith
  get_or-append (x ∷ xs) ys (suc i) d = ground (arith, get_or-append xs ys i d)

  pub get_or-take :
      (n : ℕ) (xs : List A) (i : ℕ) (d : A)
      → get_or (take n xs) i d ≡ (if ltb i n then get_or xs i d else d)
  get_or-take zero xs i d = ground arith
  get_or-take (suc n) [] i d = ground arith
  get_or-take (suc n) (x ∷ xs) zero d = ground arith
  get_or-take (suc n) (x ∷ xs) (suc i) d = ground (arith, get_or-take n xs i d)

  pub get_or-drop :
      (n : ℕ) (xs : List A) (i : ℕ) (d : A) → get_or (drop n xs) i d ≡ get_or xs (n + i) d
  get_or-drop zero xs i d = ap (λ k. get_or xs k d) (omega arith)
  get_or-drop (suc n) [] i d = refl
  get_or-drop (suc n) (x ∷ xs) i d = ground (arith, get_or-drop n xs i d)

  pub get_or-overwrite :
      (dst src : List A) (i : ℕ) (d : A)
      → i < length dst
      → get_or (overwrite dst src) i d
        ≡ (if ltb i (length src) then get_or src i d else get_or dst i d)
  get_or-overwrite [] src i d h = absurd (omega arith)
  get_or-overwrite (x ∷ dst) [] i d h = ground arith
  get_or-overwrite (x ∷ dst) (s ∷ src) zero d h = ground arith
  get_or-overwrite (x ∷ dst) (s ∷ src) (suc i) d h = ground (arith, get_or-overwrite dst src i d)

  pub get_or-overwrite_at :
      (dst : List A) (n : ℕ) (src : List A) (i : ℕ) (d : A)
      → i < length dst
      → get_or (overwrite_at dst n src) i d ≡ (
          if ltb i n
          then get_or dst i d
          else if ltb (i - n) (length src)
          then get_or src (i - n) d
          else get_or dst i d)
  get_or-overwrite_at dst zero src i d h = ground (arith, get_or-overwrite dst src i d)
  get_or-overwrite_at [] (suc n) src i d h = absurd (omega arith)
  get_or-overwrite_at (x ∷ dst) (suc n) src zero d h = ground arith
  get_or-overwrite_at (x ∷ dst) (suc n) src (suc i) d h =
      ground (arith, get_or-overwrite_at dst n src i d)

  pub overwrite-nil : (xs : List A) → overwrite xs [] ≡ xs
  overwrite-nil [] = refl
  overwrite-nil (x ∷ xs) = refl

  pub overwrite_at-nil : (xs : List A) (i : ℕ) → overwrite_at xs i [] ≡ xs
  overwrite_at-nil xs zero = overwrite-nil xs
  overwrite_at-nil [] (suc i) = refl
  overwrite_at-nil (x ∷ xs) (suc i) = ap (λ t. x ∷ t) (overwrite_at-nil xs i)

  pub overwrite_at-one : (xs : List A) (i : ℕ) (v : A) → overwrite_at xs i (v ∷ []) ≡ set xs i v
  overwrite_at-one [] zero v = refl
  overwrite_at-one (x ∷ xs) zero v = ap (λ t. v ∷ t) (overwrite-nil xs)
  overwrite_at-one [] (suc i) v = refl
  overwrite_at-one (x ∷ xs) (suc i) v = ap (λ t. x ∷ t) (overwrite_at-one xs i v)

  pub get_or_past : (xs : List A) (i : ℕ) (d : A) → length xs ≤ i → get_or xs i d ≡ d
  get_or_past [] i d h = refl
  get_or_past (x ∷ xs) zero d h = absurd (omega arith)
  get_or_past (x ∷ xs) (suc i) d h = get_or_past xs i d (omega arith)

  pub get_elem?-get_or :
      (xs : List A) (i : ℕ) (d : A)
      → get_elem? xs i ≡ (if ltb i (length xs) then some (get_or xs i d) else none)
  get_elem?-get_or [] i d = ground arith
  get_elem?-get_or (x ∷ xs) zero d = ground arith
  get_elem?-get_or (x ∷ xs) (suc i) d = ground (arith, get_elem?-get_or xs i d)

  -- Two lists of one length that read alike at every index are equal.
  pub List-ext :
      (d : A) (xs ys : List A)
      → length xs ≡ length ys
      → ((i : ℕ) → i < length xs → get_or xs i d ≡ get_or ys i d)
      → xs ≡ ys
  List-ext d [] [] e h = refl
  List-ext d [] (y ∷ ys) e h = absurd (omega arith)
  List-ext d (x ∷ xs) [] e h = absurd (omega arith)
  List-ext d (x ∷ xs) (y ∷ ys) e h =
      ap₂ ◌∷◌ (h 0 (omega arith)) (List-ext d xs ys (omega arith) (λ i lt. h (suc i) (omega arith)))
