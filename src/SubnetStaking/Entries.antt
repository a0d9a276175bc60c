-- ===== src/SubnetStaking/Entries.antt =====
-- What a write of one stake of core/blockchain/src/subnet_staking/manager.rs does to the books.
use is_a_chain.Prelude.{
  add_u128, subst, ℕ, ◌≡◌, ◌+◌, ◌-◌, ◌≤◌, ◌<◌, ◌==◌, inl, inr, [], ◌∷◌, sum_of, if◌then◌else◌,
  Bool-cases, Option-cases, HashMap, get, insert, get-insert, total, total-insert, at_or_zero,
  at_or_zero-le-total, u128_mod, add_u128-eq, arith, some,
}
use is_a_chain.Subnet.{SubnetId, discriminant, model, tools, compute, storage, agent, market}
use is_a_chain.SubnetStaking.{lowered, raised, key, SubnetStake, Books}

abbrev pub active : SubnetStake → ℕ
active e = e.amount

abbrev pub queued : SubnetStake → ℕ
queued e = sum_of (λ u. u.amount) e.unbonding

-- The active stake of an entry, if it is in the subnet.
abbrev pub active_in : (subnet : ℕ) → SubnetStake → ℕ
active_in subnet e = if discriminant e.subnet_id == subnet then e.amount else 0

discriminant_bound : (s : SubnetId) → discriminant s < 6
discriminant_bound model = omega arith
discriminant_bound tools = omega arith
discriminant_bound compute = omega arith
discriminant_bound storage = omega arith
discriminant_bound agent = omega arith
discriminant_bound market = omega arith

-- A key determines the subnet.
key_lem : (s s' : SubnetId) (p p' : ℕ) → key s p ≡ key s' p' → discriminant s ≡ discriminant s'
key_lem s s' p p' e = omega (arith, discriminant_bound s, discriminant_bound s')

pub record IsBooked (b : Books) : Type 0 where
  pub keyed :
      (s : SubnetId) (p : ℕ) (e : SubnetStake)
      → get (key s p) b.manager.stakes ≡ some e
      → discriminant e.subnet_id ≡ discriminant s
  pub totals :
      (s : ℕ)
      → at_or_zero (λ n. n) s b.manager.total_by_subnet ≡ total (active_in s) b.manager.stakes
  pub funds :
      total active b.manager.stakes + total queued b.manager.stakes + b.paid_out ≡ b.taken_in

total-le : (s : ℕ) (d : HashMap SubnetStake) → total (active_in s) d ≤ total active d
total-le s [] = omega arith
total-le s (e ∷ d) = ground (arith, total-le s d)

-- What the entry under a key adds to the total of a subnet.
active_in-key :
    (b : Books) (s : SubnetId) (p t : ℕ)
    → IsBooked b
    → at_or_zero (active_in t) (key s p) b.manager.stakes
      ≡ (if discriminant s == t then at_or_zero active (key s p) b.manager.stakes else 0)
active_in-key b s p t x = elim (Option-cases (get (key s p) b.manager.stakes)) [
  | inl missing ↦ ground arith
  | inr (e, found) ↦ let typed = x.keyed s p e found in rw (← typed) (ground arith)
]

-- A call that writes one entry, and the total of its subnet by as much as its active stake.
pub entry-IsBooked :
    (b b' : Books) (s : SubnetId) (p : ℕ) (e : SubnetStake)
    → IsBooked b
    → discriminant e.subnet_id ≡ discriminant s
    → b'.manager.stakes ≡ insert (key s p) e b.manager.stakes
    → ((t : ℕ)
        → at_or_zero (λ n. n) t b'.manager.total_by_subnet
            + (if discriminant s == t then at_or_zero active (key s p) b.manager.stakes else 0)
          ≡ at_or_zero (λ n. n) t b.manager.total_by_subnet
            + (if discriminant s == t then e.amount else 0))
    → e.amount + queued e + b'.paid_out + b.taken_in
      ≡ at_or_zero active (key s p) b.manager.stakes
        + at_or_zero queued (key s p) b.manager.stakes
        + b'.taken_in
        + b.paid_out
    → IsBooked b'
entry-IsBooked b b' s p e x typed written moved funds =
    let d = b.manager.stakes in
    let k = key s p in
    record {
      keyed = λ s' p' e' found. elim (Bool-cases (key s' p' == k)) [
        | inl hit ↦
            let same : e ≡ e' = ground (arith, written, get-insert (key s' p') k e d) in
            let typed' : discriminant e'.subnet_id ≡ discriminant s =
              subst (λ y. discriminant y.subnet_id ≡ discriminant s) same typed in
            let subnet = key_lem s' s p' p (ground arith) in omega (arith, typed', subnet)
        | inr miss ↦ x.keyed s' p' e' (ground (arith, written, get-insert (key s' p') k e d))
      ];
      totals = λ t. rw written (
          ground (
            arith,
            moved t,
            x.totals t,
            total-insert (active_in t) k e d,
            active_in-key b s p t x,
          ));
      funds =
          rw written
            (ground (arith, funds, x.funds, total-insert active k e d, total-insert queued k e d));
    }

pub at_or_zero-raised :
    (s t amount : ℕ) (totals : HashMap ℕ)
    → at_or_zero (λ n. n) s totals + amount < u128_mod
    → at_or_zero (λ n. n) t (raised s amount totals)
      ≡ at_or_zero (λ n. n) t totals + (if s == t then amount else 0)
at_or_zero-raised s t amount totals fits =
    let total = at_or_zero (λ n. n) s totals in
    ground (arith, get-insert t s (add_u128 total amount) totals, add_u128-eq total amount fits)

pub at_or_zero-lowered :
    (s t amount : ℕ) (totals : HashMap ℕ)
    → amount ≤ at_or_zero (λ n. n) s totals
    → at_or_zero (λ n. n) t (lowered s amount totals) + (if s == t then amount else 0)
      ≡ at_or_zero (λ n. n) t totals
at_or_zero-lowered s t amount totals h = elim (Option-cases (get s totals)) [
  | inl missing ↦ ground arith
  | inr (total, found) ↦ ground (arith, get-insert t s (total - amount) totals)
]

-- The total of a subnet has room for what is taken in, and is at least what an entry holds.
pub total_bounds :
    (b : Books) (s : SubnetId) (p : ℕ)
    → IsBooked b
    → (at_or_zero (λ n. n) (discriminant s) b.manager.total_by_subnet ≤ b.taken_in)
      × (at_or_zero active (key s p) b.manager.stakes
          ≤ at_or_zero (λ n. n) (discriminant s) b.manager.total_by_subnet)
total_bounds b s p x =
    let d = b.manager.stakes in
    let t = discriminant s in
    (
      ground (arith, x.totals t, total-le t d, x.funds),
      ground (
        arith,
        x.totals t,
        active_in-key b s p t x,
        at_or_zero-le-total (active_in t) (key s p) d,
      ),
    )
