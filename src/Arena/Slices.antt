-- ===== src/Arena/Slices.antt =====
-- arena/arena.go: the slices that goroutines get which call Alloc, Reset and Snap at the same time.
use yakutil.Base.{
  ℕ, ◌+◌, ◌≤◌, ◌≡◌, ◌≢◌, ◌⊎◌, inl, inr, refl, sym, ◌∙◌, some, List, [], ◌∷◌, ◌++◌, arith, set,
  get_elem?, get_elem?-set_self, get_elem?_front, ap, get_elem?-set_ne, ℕ_discrete,
}
use yakutil.Arena.Chunks.{Chunk, Arena, Block, nil, own, slice, empty_chunk, aligned, take, switch}
use yakutil.Arena.Allocs.{aligned-bounds}

-- One write of some goroutine, with the blocks handed out. A goroutine may be late: the chunk that it
-- takes from need not be the current one, but is as it has just read it.
pub data Step : Arena × List Block → Arena × List Block → Type 0 where
  taken :
      (a : Arena) (given : List Block) (i : ℕ) (c : Chunk) (n : ℕ)
      → get_elem? a.heap i ≡ some c
      → c.off + aligned n ≤ c.size
      → Step (a, given) ((take a i c n).0, (take a i c n).1 ∷ given)
  switched : (a : Arena) (given : List Block) → Step (a, given) (switch a, given)

pub data Steps : Arena × List Block → Arena × List Block → Type 0 where
  done : (s : Arena × List Block) → Steps s s
  then : (s t u : Arena × List Block) → Steps s t → Step t u → Steps s u

-- A slice lies in what its chunk has been used for, and in the chunk.
abbrev pub InUse : List Chunk → Block → Type 0
InUse heap nil = Unit {0}
InUse heap (own n) = Unit {0}
InUse heap (slice i start stop limit) =
    (c : Chunk) × (get_elem? heap i ≡ some c)
    × (start ≤ stop)
    × (stop ≤ limit)
    × (limit ≤ c.off)
    × (limit ≤ c.size)

-- Two slices share no byte, not even of their capacities.
abbrev pub Apart : Block → Block → Type 0
Apart (slice i start stop limit) (slice j start' stop' limit') =
    (i ≢ j) ⊎ (limit ≤ start') ⊎ (limit' ≤ start)
Apart _ _ = Unit {0}

abbrev pub EachInUse : List Chunk → List Block → Type 0
EachInUse heap [] = Unit {0}
EachInUse heap (b ∷ l) = InUse heap b × EachInUse heap l

abbrev pub ApartFrom : Block → List Block → Type 0
ApartFrom b [] = Unit {0}
ApartFrom b (b' ∷ l) = Apart b b' × ApartFrom b l

abbrev pub AllApart : List Block → Type 0
AllApart [] = Unit {0}
AllApart (b ∷ l) = ApartFrom b l × AllApart l

-- A new slice starts where its chunk was used up to, past all others of the chunk.
fresh-Apart :
    (heap : List Chunk) (i : ℕ) (c : Chunk) (stop limit : ℕ) (given : List Block)
    → get_elem? heap i ≡ some c
    → EachInUse heap given
    → ApartFrom (slice i c.off stop limit) given
fresh-Apart heap i c stop limit [] at used = tt
fresh-Apart heap i c stop limit (nil ∷ l) at (u, used) =
    (tt, fresh-Apart heap i c stop limit l at used)
fresh-Apart heap i c stop limit (own n ∷ l) at (u, used) =
    (tt, fresh-Apart heap i c stop limit l at used)
fresh-Apart heap i c stop limit (slice j start' stop' limit' ∷ l) at (u, used) = (
  elim (ℕ_discrete i j) [
    | yes same ↦
        let (c', at', _, _, low, _) = u in
        let one : some c' ≡ some c = sym at' ∙ (ap (get_elem? heap) (sym same) ∙ at) in
        let one_chunk : c' ≡ c = cc in inr (inr (rw⁻¹ one_chunk low))
    | no other ↦ inl other
  ],
  fresh-Apart heap i c stop limit l at used,
)

-- Chunks are only added to, and used up further.
abbrev pub Extends : List Chunk → List Chunk → Type 0
Extends heap heap' =
    (i : ℕ) (c : Chunk)
    → get_elem? heap i ≡ some c
    → (c' : Chunk) × (get_elem? heap' i ≡ some c') × (c.off ≤ c'.off) × (c'.size ≡ c.size)

extended-InUse :
    (heap heap' : List Chunk) (b : Block) → Extends heap heap' → InUse heap b → InUse heap' b
extended-InUse heap heap' nil more u = tt
extended-InUse heap heap' (own n) more u = tt
extended-InUse heap heap' (slice i start stop limit) more (c, at, ordered, room, used, inside) =
    let (c', at', low, same) = more i c at in (c', at', ordered, room, omega arith, omega arith)

extended-EachInUse :
    (heap heap' : List Chunk) (l : List Block)
    → Extends heap heap'
    → EachInUse heap l
    → EachInUse heap' l
extended-EachInUse heap heap' [] more used = tt
extended-EachInUse heap heap' (b ∷ l) more (u, used) =
    (extended-InUse heap heap' b more u, extended-EachInUse heap heap' l more used)

set-Extends :
    (heap : List Chunk) (i : ℕ) (c c' : Chunk)
    → get_elem? heap i ≡ some c
    → c.off ≤ c'.off
    → c'.size ≡ c.size
    → Extends heap (set heap i c')
set-Extends heap i c c' at low same j d at_j = elim (ℕ_discrete i j) [
  | yes here ↦
      let two : some c ≡ some d = sym at ∙ (ap (get_elem? heap) here ∙ at_j) in
      let one_chunk : c ≡ d = cc in
      (c', rw⁻¹ here (get_elem?-set_self heap i c c' at), rw⁻¹ one_chunk low, rw⁻¹ one_chunk same)
  | no other ↦ (d, get_elem?-set_ne heap i j c' other ∙ at_j, omega arith, refl)
]

front-Extends : (heap more : List Chunk) → Extends heap (heap ++ more)
front-Extends heap more i c at = (c, get_elem?_front heap more i c at, omega arith, refl)

abbrev pub Kept : Arena × List Block → Type 0
Kept (a, given) = EachInUse a.heap given × AllApart given

Step-Kept : (s t : Arena × List Block) → Step s t → Kept s → Kept t
unfolding take switch
Step-Kept _ _ (taken a given i c n at fits) (used, apart) =
    let after : Chunk = record c { off = c.off + aligned n } in
    (
      (
        (
          after,
          get_elem?-set_self a.heap i c after at,
          omega arith,
          omega (arith, (aligned-bounds n).0),
          omega arith,
          fits,
        ),
        extended-EachInUse a.heap (set a.heap i after) given
            (set-Extends a.heap i c after at (omega arith) refl) used,
      ),
      (fresh-Apart a.heap i c (c.off + n) (c.off + aligned n) given at used, apart),
    )
Step-Kept _ _ (switched a given) (used, apart) = (
  extended-EachInUse a.heap (a.heap ++ (empty_chunk a.csz ∷ [])) given
      (front-Extends a.heap (empty_chunk a.csz ∷ [])) used,
  apart,
)

-- However the calls of several goroutines come between each other, no two slices that Alloc has
-- handed out share a byte, capacities included, and each lies in its chunk, in the part that is
-- marked as used, if that is so at the start. Restore is not among the calls.
pub Steps-Kept : (s t : Arena × List Block) → Steps s t → Kept s → Kept t
Steps-Kept _ _ (done s) kept = kept
Steps-Kept _ _ (then s t u before step) kept = Step-Kept t u step (Steps-Kept s t before kept)

Step-Extends : (s t : Arena × List Block) → Step s t → Extends s.0.heap t.0.heap
unfolding take switch
Step-Extends _ _ (taken a given i c n at fits) =
    let after : Chunk = record c { off = c.off + aligned n } in
    set-Extends a.heap i c after at (omega arith) refl
Step-Extends _ _ (switched a given) = front-Extends a.heap (empty_chunk a.csz ∷ [])

pub Steps-Extends : (s t : Arena × List Block) → Steps s t → Extends s.0.heap t.0.heap
Steps-Extends _ _ (done s) i c at = (c, at, omega arith, refl)
Steps-Extends _ _ (then s t u before step) i c at =
    let (c', at', low', same') = Steps-Extends s t before i c at in
    let (c'', at'', low'', same'') = Step-Extends t u step i c' at' in
    (c'', at'', omega arith, same'' ∙ same')
