-- ===== src/Base/Window.antt =====
-- The `n` elements of a list from index `s` on, going round at its end. A ring of bytes and a ring
-- of slots both hold such a window.
use Prim.Native.Nat.{ℕ, ◌+◌, ◌-◌, ◌%◌, ◌≤◌, ◌<◌}
use mathlib.Core.Path.{◌≡◌, refl, sym, ap, ◌∙◌}
use mathlib.Core.List.{List, [], ◌++◌, append_assoc}
use mathlib.Core.Logic.{inl, inr}
use native.Mathlib.Nat.{mod-eq_of_lt, mod-eq-sub-mod, mod-add-mod}
use native.Mathlib.Decide.{dec_lt}
use native.Mathlib.Omega.{arith}
use yakutil.Base.Tests.{ltb, lt→ltb, if◌then◌else◌, Bool-cases}
use yakutil.Base.Lists.{
  length, get_or, take, drop, take-append_left, length-append, length-take, length-drop,
  get_or-append, get_or-take, get_or-drop, List-ext,
}

-- One way round at most.
pub rotate :
    (s n c : ℕ) → s < c → n ≤ c → (s + n) % c ≡ (if ltb (s + n) c then s + n else s + n - c)
rotate s n c hs hn = elim (dec_lt (s + n) c) [
  | yes p ↦ ground (arith, mod-eq_of_lt p)
  | no p ↦ elim (dec_lt (s + n - c) c) [
    | yes q ↦ ground (arith, mod-eq-sub-mod {n = s + n} {m = c} (omega arith), mod-eq_of_lt q)
    | no q ↦ absurd (omega arith)
  ]
]

module _ {ℓ} {A : Type ℓ} where
  unfoldable pub window : List A → ℕ → ℕ → List A
  window buf s n = take n (drop s (buf ++ buf))

  pub window-zero : (buf : List A) (s : ℕ) → window buf s 0 ≡ []
  unfolding window
  window-zero buf s = refl

  pub window-append_left : (xs ys : List A) → window (xs ++ ys) 0 (length xs) ≡ xs
  unfolding window
  window-append_left xs ys =
      rw (append_assoc xs ys (xs ++ ys)) (take-append_left xs (ys ++ (xs ++ ys)))

  pub length-window :
      (buf : List A) (s n : ℕ) → s ≤ length buf → n ≤ length buf → length (window buf s n) ≡ n
  unfolding window
  length-window buf s n hs hn = omega (
    arith,
    length-take n (drop s (buf ++ buf)),
    length-drop s (buf ++ buf),
    length-append buf buf,
  )

  pub get_or-window :
      (buf : List A) (s n i : ℕ) (d : A)
      → get_or (window buf s n) i d ≡ (
          if ltb i n
          then if ltb (s + i) (length buf)
            then get_or buf (s + i) d
            else get_or buf (s + i - length buf) d
          else d)
  unfolding window
  get_or-window buf s n i d = ground (
    arith,
    get_or-take n (drop s (buf ++ buf)) i d,
    get_or-drop s (buf ++ buf) i d,
    get_or-append buf buf (s + i) d,
  )

  -- The same as one index, reduced.
  pub get_or-window_mod :
      (buf : List A) (s n i : ℕ) (d : A)
      → s < length buf
      → n ≤ length buf
      → i < n
      → get_or (window buf s n) i d ≡ get_or buf ((s + i) % length buf) d
  get_or-window_mod buf s n i d hs hn lt =
      rw (get_or-window buf s n i d, lt→ltb i n lt, rotate s i (length buf) hs (omega arith))
        (elim (Bool-cases (ltb (s + i) (length buf))) [ inl e ↦ rw e | inr e ↦ rw e ])

  -- The first elements of a window are a shorter window.
  pub take-window :
      (d : A) (buf : List A) (s n m : ℕ)
      → s < length buf
      → n ≤ length buf
      → m ≤ n
      → take m (window buf s n) ≡ window buf s m
  take-window d buf s n m hs hn hm =
      List-ext d _ _
        (omega (
          arith,
          length-take m (window buf s n),
          length-window buf s n (omega arith) hn,
          length-window buf s m (omega arith) (omega arith),
        ))
        (λ i lt. ground (
          arith,
          get_or-take m (window buf s n) i d,
          get_or-window buf s n i d,
          get_or-window buf s m i d,
        ))

  -- The rest is the window that begins after them.
  pub drop-window :
      (d : A) (buf : List A) (s n m : ℕ)
      → s < length buf
      → n ≤ length buf
      → m ≤ n
      → drop m (window buf s n) ≡ window buf ((s + m) % length buf) (n - m)
  drop-window d buf s n m hs hn hm =
      List-ext d _ _
        (omega (
          arith,
          length-drop m (window buf s n),
          length-window buf s n (omega arith) hn,
          length-window buf ((s + m) % length buf) (n - m) (omega arith) (omega arith),
        ))
        (λ i lt.
          let lt' : i < n - m = omega (arith, long) in
          get_or-drop m (window buf s n) i d
          ∙ get_or-window_mod buf s n (m + i) d hs hn (omega arith)
          ∙ ap (λ k. get_or buf k d) (same i)
          ∙ sym (
              get_or-window_mod buf ((s + m) % length buf) (n - m) i d (omega arith) (omega arith)
                lt'))
    where
      long : length (drop m (window buf s n)) ≡ n - m
      long = omega (arith, length-drop m (window buf s n), length-window buf s n (omega arith) hn)

      same : (i : ℕ) → (s + (m + i)) % length buf ≡ ((s + m) % length buf + i) % length buf
      same i = rw mod-add-mod (ap (λ k. k % length buf) (omega arith))
