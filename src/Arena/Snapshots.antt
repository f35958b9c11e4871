-- ===== src/Arena/Snapshots.antt =====
-- arena/arena.go: going back to a snapshot.
use yakutil.Base.{◌≡◌, refl, sym, ap, ◌∙◌, some, List, get_elem?, get_elem?-set_self, set}
use yakutil.Arena.Chunks.{Chunk, Arena, Snapshot, Block, snap, restore}
use yakutil.Arena.Allocs.{IsValid}
use yakutil.Arena.Slices.{Steps, Steps-Extends}

snap-current :
    (a : Arena) (c : Chunk)
    → get_elem? a.heap a.cur ≡ some c
    → snap a ≡ some (record { chk = a.cur; off = c.off })
unfolding snap
snap-current a c current = rw current refl

-- Whatever calls of Alloc and Reset come after Snap, Restore goes back to the place of the snapshot:
-- it succeeds, the next Snap gives the same snapshot, and the current chunk is as it was.
pub restore-snap :
    (s t : Arena × List Block) (sp : Snapshot)
    → IsValid s.0
    → snap s.0 ≡ some sp
    → Steps s t
    → (a : Arena) × (restore t.0 sp ≡ some a)
      × (snap a ≡ some sp)
      × (get_elem? a.heap a.cur ≡ get_elem? s.0.heap s.0.cur)
unfolding restore
restore-snap s t sp v taken steps =
    let (c, at, low, same) = Steps-Extends s t steps s.0.cur v.c v.current in
    let back : Chunk = record c { off = v.c.off } in
    let place : Snapshot = record { chk = s.0.cur; off = v.c.off } in
    let same_snap : some place ≡ some sp = sym (snap-current s.0 v.c v.current) ∙ taken in
    let same_place : place ≡ sp = cc in
    let a : Arena = record t.0 { heap = set t.0.heap s.0.cur back; cur = s.0.cur } in
    let now : get_elem? a.heap a.cur ≡ some back = get_elem?-set_self t.0.heap s.0.cur c back at in
    let was : back ≡ v.c = rw same refl in
    (
      a,
      rw (← same_place, at) refl,
      snap-current a back now ∙ same_snap,
      now ∙ (ap some was ∙ sym v.current),
    )
