-- ===== src/Common/Hits/Tests.antt =====
-- Runs and instances for the slots of src/common/chaos_hits.h and `chaos_policy_fire`.
use macstab_chaos_testing_li.Prelude.{
  ◌%◌, ℕ, zero, suc, ◌+◌, ◌*◌, ◌^◌, ◌≤◌, ◌≡◌, ◌≢◌, refl, true, false, none, some, List, [], ◌∷◌,
  arith, Bytes, codes, get_elem?, bytes_eq,
}
use macstab_chaos_testing_li.Common.Policy.Word.{Policy, no_policy}
use macstab_chaos_testing_li.Common.Hits.Slot.{
  Slot, slot_current, may_claim, fire, fire_times, fire_times_lem,
}
use macstab_chaos_testing_li.Common.Hits.Threads.{
  idle, looping, loaded, fired, System, at, bump, Step, check, load, cas_win, Reach, here, next,
}
use macstab_chaos_testing_li.Common.Hits.Threads.Safety.{Fresh, fires-le-first}
use macstab_chaos_testing_li.Common.Hits.Pool.{Ruled, find_kept, assign, release}
use macstab_chaos_testing_li.Common.Hits.Pool.Round.{Continues}
use macstab_chaos_testing_li.Common.Hits.Pool.Reload.{
  IsActive, assign-new_rules, assign_isolates, reload_keeps, reload_outdates,
}

abbrev once : Policy
once = record no_policy { first = 1 }

abbrev fresh_slot : Slot
fresh_slot = record {
  count = 0;
  claimed = 7 * 2 ^ 32;
  state = 0;
  report = true;
  generation = 7;
  used = true;
}

fire_times_lem_example : (fire_times 5 once fresh_slot 7).0 ≡ 1
fire_times_lem_example = fire_times_lem 5 once fresh_slot (omega arith) refl

-- Two threads load the claim word before either claims; one of them wins.
abbrev s0 : System
s0 = record { slot = fresh_slot; pc = λ i. idle; fires = λ g. 0 }

abbrev s1 : System
s1 = record s0 { pc = at s0.pc 0 (looping 7) }

abbrev s2 : System
s2 = record s1 { pc = at s1.pc 1 (looping 7) }

abbrev s3 : System
s3 = record s2 { pc = at s2.pc 0 (loaded 7 (7 * 2 ^ 32)) }

abbrev s4 : System
s4 = record s3 { pc = at s3.pc 1 (loaded 7 (7 * 2 ^ 32)) }

abbrev s5 : System
s5 = record s4 {
  slot = record fresh_slot { claimed = 7 * 2 ^ 32 + 1 };
  pc = at s4.pc 1 fired;
  fires = bump s4.fires 7;
}

abbrev policies : ℕ → Policy
policies g = once

step1 : Step policies s0 s1
unfolding slot_current
step1 = check 0 7 refl refl (omega arith) refl refl

step2 : Step policies s1 s2
unfolding slot_current
step2 = check 1 7 refl refl (omega arith) refl refl

step3 : Step policies s2 s3
step3 = load 0 7 refl refl

step4 : Step policies s3 s4
step4 = load 1 7 refl refl

step5 : Step policies s4 s5
unfolding may_claim
step5 = cas_win 1 7 (7 * 2 ^ 32) refl refl refl refl

race : Reach policies s0 s5
race = next (next (next (next (next here step1) step2) step3) step4) step5

s0-Fresh : Fresh policies s0
s0-Fresh = (omega arith, refl, (λ i. refl), (λ g. refl))

fires-le-first_example : s5.fires 7 ≤ 1
fires-le-first_example = fires-le-first policies s0-Fresh race 7

-- A pool of four slots, of which the rules `a` and `b` hold the first two.
abbrev used_slot : ℕ → Slot
used_slot n = record {
  count = n;
  claimed = 0;
  state = 0;
  report = true;
  generation = 0;
  used = true;
}

abbrev spare : Slot
spare = record { count = 9; claimed = 5; state = 2; report = false; generation = 0; used = false }

abbrev pool : List Slot
pool = used_slot 3 ∷ used_slot 4 ∷ spare ∷ spare ∷ []

abbrev active : List Ruled
active = (some 0, codes "a") ∷ (some 1, codes "b") ∷ []

active-IsActive : IsActive pool active
active-IsActive = record { in_use = in_use; one_text = one_text }
  where
    in_use :
        (a i : ℕ) (u : Bytes)
        → get_elem? active a ≡ some (some i, u)
        → (s : Slot) × (get_elem? pool i ≡ some s) × (s.used ≡ true)
    in_use zero i u h = (used_slot 3, ground arith, refl)
    in_use (suc zero) i u h = (used_slot 4, ground arith, refl)
    in_use (suc (suc n)) i u h = absurd (cc)

    one_text :
        (a b i : ℕ) (u v : Bytes)
        → get_elem? active a ≡ some (some i, u)
        → get_elem? active b ≡ some (some i, v)
        → u ≡ v
    one_text zero zero i u v h k = ground arith
    one_text zero (suc zero) i u v h k = ground arith
    one_text (suc zero) zero i u v h k = ground arith
    one_text (suc zero) (suc zero) i u v h k = ground arith
    one_text zero (suc (suc b)) i u v h k = absurd (cc)
    one_text (suc zero) (suc (suc b)) i u v h k = absurd (cc)
    one_text (suc (suc a)) b i u v h k = absurd (cc)

-- `b` stays, `a` leaves, and two equal new rules come.
abbrev texts : List Bytes
texts = codes "c" ∷ codes "b" ∷ codes "c" ∷ []

assigned : (assign pool active texts).0 ≡ some 2 ∷ some 1 ∷ some 3 ∷ []
unfolding assign bytes_eq
assigned = refl

new_c : find_kept active (codes "c") ≡ none
unfolding find_kept bytes_eq
new_c = refl

old_b : find_kept active (codes "b") ≡ some 1
unfolding find_kept bytes_eq
old_b = refl

assign-new_rules_example : ◌≢◌ {A = ℕ} 2 3
unfolding assign bytes_eq
assign-new_rules_example =
    assign-new_rules pool active texts active-IsActive 0 2 2 3 (codes "c") (codes "c") (omega arith)
      refl refl new_c new_c refl refl

assign_isolates_example : ◌≢◌ {A = ℕ} 2 1
unfolding assign bytes_eq
assign_isolates_example =
    assign_isolates pool active texts active-IsActive 0 1 2 1 (codes "c") (codes "b") refl refl
      (ground arith) refl refl

reload_keeps_example :
    (get_elem? (assign pool active texts).0 1 ≡ some (some 1))
    × ((s' : Slot) × (get_elem?
            (release (assign pool active texts).1 (assign pool active texts).0)
            1
          ≡ some s')
        × Continues (used_slot 4) s')
reload_keeps_example =
    reload_keeps pool active texts active-IsActive 1 1 (codes "b") (used_slot 4) refl old_b refl

no_position : (k : ℕ) → get_elem? (assign pool active texts).0 k ≢ some (some 0)
unfolding assign bytes_eq
no_position zero = ground arith
no_position (suc zero) = ground arith
no_position (suc (suc zero)) = ground arith
no_position (suc (suc (suc k))) = ground arith

reload_outdates_example :
    (s' : Slot) × (get_elem? (release (assign pool active texts).1 (assign pool active texts).0) 0
      ≡ some s')
    × (s'.used ≡ false)
    × (s'.generation ≡ (0 + 1) % 2 ^ 64)
    × (fire once (some s') 0 ≡ (false, some s'))
reload_outdates_example =
    reload_outdates pool active texts active-IsActive 0 (used_slot 3) once refl refl (omega arith)
      no_position
