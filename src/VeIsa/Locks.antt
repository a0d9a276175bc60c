-- ===== src/VeIsa/Locks.antt =====
-- The locked amounts of core/blockchain/src/veisa/system.rs over histories of calls.
use is_a_chain.Prelude.{
  saturating_sub, add_u64, ℕ, ◌+◌, ◌<◌, ◌≡◌, List, [], ◌∷◌, inl, inr, refl, ok, err, get, add_u128,
  u128_mod, total, total-insert, total-remove, at_or_zero-le-total, Option-cases, arith,
}
use is_a_chain.VeIsa.{
  VeIsaLock, VeIsaSystem, lock, extend_lock, increase_amount, withdraw, calculate_voting_power,
  Call, locks_up, extends, increases, withdraws, act, run, new,
}

abbrev amount_of : VeIsaLock → ℕ
amount_of l = l.amount

-- What a call takes in, if it succeeds, and what it pays out.
abbrev pub taken_in : Call → VeIsaSystem → ℕ
taken_in (locks_up owner amount duration height) s = elim (lock owner amount duration height s).0 [
  | ok _ ↦ amount
  | err _ ↦ 0
]
taken_in (increases owner additional) s = elim (increase_amount owner additional s).0 [
  | ok _ ↦ additional
  | err _ ↦ 0
]
taken_in _ s = 0

abbrev pub paid_out : Call → VeIsaSystem → ℕ
paid_out (withdraws owner current_height) s = elim (withdraw owner current_height s).0 [
  | ok amount ↦ amount
  | err _ ↦ 0
]
paid_out _ s = 0

-- The locks hold what the system counts as locked.
abbrev pub held : VeIsaSystem → ℕ
held s = total amount_of s.locks

abbrev IsCounted : VeIsaSystem → Type 0
IsCounted s = s.total_locked ≡ held s

-- After a call the count is right, and what the locks hold has changed by what was taken and paid.
abbrev pub Booked : Call → VeIsaSystem → Type 0
Booked c s = IsCounted (act c s).1 × (held (act c s).1 + paid_out c s ≡ held s + taken_in c s)

lock-Booked :
    (owner amount duration height : ℕ) (s : VeIsaSystem)
    → IsCounted s
    → held s + taken_in (locks_up owner amount duration height) s < u128_mod
    → Booked (locks_up owner amount duration height) s
unfolding act lock add_u128
lock-Booked owner amount duration height s counted fits =
    let l : VeIsaLock = record {
      owner = owner;
      amount = amount;
      lock_start = height;
      lock_end = add_u64 height duration;
      voting_power = calculate_voting_power amount duration s.max_lock_duration;
      last_calculated = height;
    } in
    elim (Option-cases (get owner s.locks)) [
      | inl missing ↦ ground (arith, total-insert amount_of owner l s.locks)
      | inr (old, found) ↦ ground arith
    ]

extend_lock-Booked :
    (owner new_end height : ℕ) (s : VeIsaSystem)
    → IsCounted s
    → Booked (extends owner new_end height) s
unfolding act extend_lock
extend_lock-Booked owner new_end height s counted = elim (Option-cases (get owner s.locks)) [
  | inl missing ↦ ground arith
  | inr (old, found) ↦
      let power =
        calculate_voting_power old.amount (saturating_sub new_end height) s.max_lock_duration in
      let l : VeIsaLock = record old {
        lock_end = new_end;
        voting_power = power;
        last_calculated = height;
      } in
      ground (arith, total-insert amount_of owner l s.locks)
]

increase_amount-Booked :
    (owner additional : ℕ) (s : VeIsaSystem)
    → IsCounted s
    → held s + taken_in (increases owner additional) s < u128_mod
    → Booked (increases owner additional) s
unfolding act increase_amount add_u128
increase_amount-Booked owner additional s counted fits = elim (Option-cases (get owner s.locks)) [
  | inl missing ↦ ground arith
  | inr (old, found) ↦
      let remaining = saturating_sub old.lock_end old.last_calculated in
      let amount = add_u128 old.amount additional in
      let power = calculate_voting_power amount remaining s.max_lock_duration in
      let l : VeIsaLock = record old { amount = amount; voting_power = power } in
      ground
        (arith, total-insert amount_of owner l s.locks, at_or_zero-le-total amount_of owner s.locks)
]

withdraw-Booked :
    (owner current_height : ℕ) (s : VeIsaSystem)
    → IsCounted s
    → Booked (withdraws owner current_height) s
unfolding act withdraw
withdraw-Booked owner current_height s counted = elim (Option-cases (get owner s.locks)) [
  | inl missing ↦ ground arith
  | inr (old, found) ↦ ground (arith, total-remove amount_of owner s.locks)
]

act-Booked :
    (c : Call) (s : VeIsaSystem) → IsCounted s → held s + taken_in c s < u128_mod → Booked c s
act-Booked (locks_up owner amount duration height) s counted fits =
    lock-Booked owner amount duration height s counted fits
act-Booked (extends owner new_end height) s counted fits =
    extend_lock-Booked owner new_end height s counted
act-Booked (increases owner additional) s counted fits =
    increase_amount-Booked owner additional s counted fits
act-Booked (withdraws owner current_height) s counted fits =
    withdraw-Booked owner current_height s counted

abbrev pub taken_of : VeIsaSystem → List Call → ℕ
taken_of s [] = 0
taken_of s (c ∷ cs) = taken_in c s + taken_of (act c s).1 cs

abbrev pub paid_of : VeIsaSystem → List Call → ℕ
paid_of s [] = 0
paid_of s (c ∷ cs) = paid_out c s + paid_of (act c s).1 cs

run-Booked :
    (s : VeIsaSystem) (cs : List Call)
    → IsCounted s
    → held s + taken_of s cs < u128_mod
    → IsCounted (run s cs) × (held (run s cs) + paid_of s cs ≡ held s + taken_of s cs)
run-Booked s [] counted fits = (counted, refl)
run-Booked s (c ∷ cs) counted fits =
    let first = act-Booked c s counted (omega arith) in
    let rest = run-Booked (act c s).1 cs first.0 (omega (arith, first.1)) in
    (rest.0, omega (arith, first.1, rest.1))

-- After any calls the total locked is what the locks hold, and that with what was withdrawn is what
-- was locked up, where all that was locked up is less than 2 ^ 128.
pub locked_isa_conserved :
    (min_lock max_lock min_amount : ℕ) (calls : List Call)
    → taken_of (new min_lock max_lock min_amount) calls < u128_mod
    → let s = new min_lock max_lock min_amount in
      ((run s calls).total_locked ≡ held (run s calls))
      × ((run s calls).total_locked + paid_of s calls ≡ taken_of s calls)
locked_isa_conserved min_lock max_lock min_amount calls fits =
    let books = run-Booked (new min_lock max_lock min_amount) calls refl (omega arith) in
    (books.0, omega (arith, books.0, books.1))
