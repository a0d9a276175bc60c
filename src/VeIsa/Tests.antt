-- ===== src/VeIsa/Tests.antt =====
-- Tests of the locks, and their theorems at concrete inputs.
use is_a_chain.Prelude.{
  ◌+◌, ◌≡◌, refl, List, [], ◌∷◌, arith, add_u64, add_u128, saturating_mul, err,
}
use is_a_chain.VeIsa.{
  VeIsaSystem, VeIsaLock, new, lock, extend_lock, increase_amount, withdraw, calculate_voting_power,
  get_voting_power, get_total_voting_power, Call, locks_up, extends, increases, withdraws, act, run,
  lock_not_expired,
}
use is_a_chain.VeIsa.Locks.{held, taken_of, paid_of, locked_isa_conserved}

abbrev calls : List Call
calls =
    locks_up 1 1000 100 0
    ∷ locks_up 2 600 50 10
    ∷ locks_up 2 600 50 10
    ∷ increases 2 40
    ∷ extends 1 150 50
    ∷ withdraws 1 149
    ∷ withdraws 2 60
    ∷ []

abbrev after : VeIsaSystem
after = run (new 10 100 1) calls

-- A second lock of the same owner and an early withdrawal are refused.
locks :
    (after.total_locked ≡ 1000)
    × (paid_of (new 10 100 1) calls ≡ 640)
    × ((withdraw 1 149 after).0 ≡ err lock_not_expired)
    × (get_total_voting_power 100 after ≡ 500)
unfolding act lock extend_lock increase_amount withdraw calculate_voting_power get_voting_power
    saturating_mul add_u128 add_u64
locks = (refl, refl, refl, refl)

locked_isa_conserved_example :
    let s = new 10 100 1 in
    ((run s calls).total_locked ≡ held (run s calls))
    × ((run s calls).total_locked + paid_of s calls ≡ taken_of s calls)
unfolding act lock extend_lock increase_amount withdraw calculate_voting_power saturating_mul
    add_u128 add_u64
locked_isa_conserved_example = locked_isa_conserved 10 100 1 calls (omega arith)

abbrev one : VeIsaLock
one = record {
  owner = 1;
  amount = 1000;
  lock_start = 0;
  lock_end = 100;
  voting_power = 1000;
  last_calculated = 0;
}

-- An extension takes off the decayed power, not what was added: 500 stay when no lock is left.
stale :
    (run
      (new 10 100 1)
      (locks_up 1 1000 100 0 ∷ extends 1 150 50 ∷ withdraws 1 150 ∷ [])).total_voting_power
    ≡ 500
unfolding act lock extend_lock withdraw calculate_voting_power saturating_mul add_u128 add_u64
stale = refl
