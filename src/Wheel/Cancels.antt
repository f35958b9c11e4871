-- ===== src/Wheel/Cancels.antt =====
-- wheel/wheel.go: what Cancel does to the timers.
use mathlib.Core.Path.{subst}
use yakutil.Base.{
  ℕ, suc, ◌≡◌, refl, sym, ◌∙◌, Bool, true, false, inl, inr, List, [], ◌∷◌, ◌++◌, map, arith, ◌==◌,
  if◌then◌else◌, Bool-cases, length,
}
use yakutil.Wheel.Slots.{Entry, Wheel, has, delete, remove_entry, cancel}
use yakutil.Wheel.Waits.{Timer, distance, timer, timers}
use yakutil.Wheel.Ticks.{IsValid, pending}

has-delete : (id : ℕ) (l : List ℕ) → has id (delete id l) ≡ false
unfolding has delete
has-delete id [] = refl
has-delete id (i ∷ l) = ground (arith, has-delete id l)

module _ {T : Type 0} where
  -- The timers but those with an id.
  abbrev pub without : ℕ → List (Timer T) → List (Timer T)
  without id [] = []
  without id (y ∷ l) = let rest = without id l in if y.id == id then rest else y ∷ rest

  without-append :
      (id : ℕ) (l m : List (Timer T)) → without id (l ++ m) ≡ without id l ++ without id m
  without-append id [] m = refl
  without-append id (y ∷ l) m = ground (arith, without-append id l m)

  remove_slot :
      (id size d : ℕ) (l : List (Entry T))
      → map (timer size d) (remove_entry id l) ≡ without id (map (timer size d) l)
  unfolding remove_entry
  remove_slot id size d [] = refl
  remove_slot id size d (e ∷ l) = ground (arith, remove_slot id size d l)

  remove_slots :
      (id size cur p : ℕ) (l : List (List (Entry T)))
      → timers size cur p (map (remove_entry id) l) ≡ without id (timers size cur p l)
  remove_slots id size cur p [] = refl
  remove_slots id size cur p (slot ∷ l) =
      rw
        (
          without-append id (map (timer size (distance size cur p)) slot)
              (timers size cur (suc p) l),
          remove_slot id size (distance size cur p) slot,
          remove_slots id size cur (suc p) l,
        )
        refl

  length-slots : (id : ℕ) (l : List (List (Entry T))) → length (map (remove_entry id) l) ≡ length l
  length-slots id [] = refl
  length-slots id (slot ∷ l) = omega (arith, length-slots id l)

  -- What a call of Cancel leaves.
  pub record Cancelled (w : Wheel T) (id : ℕ) (result : Wheel T × Bool) : Type 0 where
    pub valid : IsValid result.0
    pub known : result.1 ≡ has id w.index
    pub timers_left :
        pending result.0 ≡ (if has id w.index then without id (pending w) else pending w)
    pub gone : has id (result.0).index ≡ false

  -- Cancel on a valid wheel reports whether the id is in the index. If it is, the timer with that id
  -- is gone and all others run on as they did; if not, nothing is changed. Either way the wheel
  -- stays valid, and the id is not in the index afterwards.
  pub cancel-Cancelled : (w : Wheel T) (id : ℕ) → IsValid w → Cancelled w id (cancel w id)
  unfolding cancel
  cancel-Cancelled w id v = elim (Bool-cases (has id w.index)) [
    | inl there ↦ subst (Cancelled w id) (sym (found there)) (record {
      valid = record {
        k = v.k;
        size = length-slots id w.slots ∙ v.size;
        masked = v.masked;
        in_range = rw (length-slots id w.slots) v.in_range;
      };
      known = sym there;
      timers_left =
          rw (there, length-slots id w.slots) (remove_slots id (length w.slots) w.cur 0 w.slots);
      gone = has-delete id w.index;
    })
    | inr absent ↦
        subst (Cancelled w id) (sym (missing absent))
          (record { valid = v; known = sym absent; timers_left = rw absent refl; gone = absent })
  ]
    where
      found :
          has id w.index ≡ true
          → cancel w id
            ≡ (record w { index = delete id w.index; slots = map (remove_entry id) w.slots }, true)
      found there = rw (cancel, there) refl

      missing : has id w.index ≡ false → cancel w id ≡ (w, false)
      missing absent = rw (cancel, absent) refl
