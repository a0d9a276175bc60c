-- ===== src/World/Abstract.antt =====
-- The world state of core/blockchain/src/state.rs as a function from addresses to accounts.
use is_a_chain.Prelude.{
  ℕ, ◌≡◌, refl, sym, ◌∙◌, inl, inr, List, [], ◌∷◌, ap, arith, AllValues, Option, Option-cases, none,
  some, ◌==◌, if◌then◌else◌, get, get-insert, IsMap, insert-IsMap, map,
}
use mathlib.Core.Path.{fun_ext}
use is_a_chain.Account.{Account}
use is_a_chain.Chain.{merkle_root}
use is_a_chain.World.{
  WorldState, get_account, account_or_new, Call, sets, updates, creates, step, run,
  compute_state_root, sort, leaf_hash, VisitOrder,
}
use is_a_chain.World.Root.{sort_unique}
use is_a_chain.World.Visits.{IsPlain, IsVisit, AllValues-sort, leaves_lem}

-- What the world state promises: a function that a call changes at one address.
abbrev pub Accounts : Type 0
Accounts = ℕ → Option Account

abbrev pub view : WorldState → Accounts
view s address = get_account address s

abbrev pub update : Accounts → ℕ → Option Account → Accounts
update f address acc asked = if asked == address then acc else f asked

abbrev pub spec_step : Accounts → Call → Accounts
spec_step f (sets address acc) = update f address (some acc)
spec_step f (updates address write) = elim (f address) [
  | none ↦ f
  | some acc ↦ update f address (some (write acc))
]
spec_step f (creates address write) = update f address (some (write (account_or_new (f address))))

abbrev pub spec_run : Accounts → List Call → Accounts
spec_run f [] = f
spec_run f (c ∷ cs) = spec_run (spec_step f c) cs

view-step : (s : WorldState) (c : Call) (k : ℕ) → view (step s c) k ≡ spec_step (view s) c k
unfolding step
view-step s (sets address acc) k = ground (arith, get-insert k address acc s.accounts)
view-step s (updates address write) k = elim (Option-cases (get address s.accounts)) [
  | inl missing ↦ ground arith
  | inr (acc, found) ↦ ground (arith, get-insert k address (write acc) s.accounts)
]
view-step s (creates address write) k =
    let acc = write (account_or_new (get address s.accounts)) in
    ground (arith, get-insert k address acc s.accounts)

step-IsMap : (s : WorldState) (c : Call) → IsMap s.accounts → IsMap (step s c).accounts
unfolding step
step-IsMap s (sets address acc) u = insert-IsMap address acc s.accounts u
step-IsMap s (updates address write) u = elim (Option-cases (get address s.accounts)) [
  | inl missing ↦ ground (arith, u)
  | inr (acc, found) ↦ ground (arith, u, insert-IsMap address (write acc) s.accounts u)
]
step-IsMap s (creates address write) u =
    insert-IsMap address (write (account_or_new (get address s.accounts))) s.accounts u

run-IsMap : (s : WorldState) (cs : List Call) → IsMap s.accounts → IsMap (run s cs).accounts
unfolding run
run-IsMap s [] u = u
run-IsMap s (c ∷ cs) u = run-IsMap (step s c) cs (step-IsMap s c u)

-- Any history of calls refines the same history on the function from addresses to accounts.
pub view-run : (s : WorldState) (cs : List Call) → view (run s cs) ≡ spec_run (view s) cs
unfolding run
view-run s [] = refl
view-run s (c ∷ cs) = view-run (step s c) cs ∙ ap (λ f. spec_run f cs) (fun_ext (view-step s c))

-- The state root depends only on which account is at which address, as long as no account has two
-- delegations: from world states without repeated addresses, two histories of calls that leave the
-- same account at every address, none with more than one delegation, give the same root, in
-- whatever order the addresses were written and whatever the orders in which the two nodes iterate
-- the maps of delegations.
pub root_of_history :
    (hash_data : List ℕ → ℕ) (serialize : Account → List ℕ) (o p : VisitOrder) (s t : WorldState)
    (cs ds : List Call)
    → IsVisit o
    → IsVisit p
    → IsMap s.accounts
    → IsMap t.accounts
    → spec_run (view s) cs ≡ spec_run (view t) ds
    → AllValues IsPlain (run s cs).accounts
    → (compute_state_root hash_data serialize o (run s cs)).0
      ≡ (compute_state_root hash_data serialize p (run t ds)).0
unfolding compute_state_root
root_of_history hash_data serialize o p s t cs ds vo vp us ut same plain =
    let whole = view-run s cs ∙ same ∙ sym (view-run t ds) in
    let sorted =
      sort_unique (run s cs).accounts (run t ds).accounts (run-IsMap s cs us) (run-IsMap t ds ut)
        (λ k. ap (λ (f : Accounts). f k) whole) in
    let leaves =
      leaves_lem hash_data serialize o p vo vp (sort (run s cs).accounts)
        (AllValues-sort (run s cs).accounts plain) in
    ap (merkle_root hash_data) (leaves ∙ ap (map (leaf_hash hash_data serialize p)) sorted)
