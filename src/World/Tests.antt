-- ===== src/World/Tests.antt =====
-- Tests of the world state, and its theorems at concrete inputs.
use mathlib.Core.Path.{fun_ext}
use is_a_chain.Prelude.{
  AllValues, map, some, none, ◌==◌, false, be_bytes, ℕ, ◌+◌, ◌*◌, ◌≡◌, refl, arith, List, [], ◌∷◌,
  contains, true,
}
use is_a_chain.Account.{Account, Delegation, new_external}
use is_a_chain.Chain.{merkle_root}
use is_a_chain.World.{
  VisitOrder, sort, insert_sorted, leaf_hash, account_hash, Call, sets, updates, creates, new,
  get_balance, step, run, compute_state_root, set_account, get_account_mut, get_or_create_account,
  account_count,
}
use is_a_chain.World.Visits.{IsVisit, IsPlain}
use is_a_chain.World.Abstract.{view, spec_run, view-run, root_of_history}

abbrev hash_data : List ℕ → ℕ
hash_data [] = 0
hash_data (b ∷ bs) = b + 2 * hash_data bs

-- A form that tells the order of the delegations.
abbrev serialize : Account → List ℕ
serialize acc =
    acc.balance
    ∷ (elim acc.staking_info [ none ↦ [] | some info ↦ map (λ entry. entry.0) info.delegations ])

abbrev forth : VisitOrder
forth address d = d

-- The first two the other way round.
abbrev back : VisitOrder
back address [] = []
back address (e ∷ []) = e ∷ []
back address (e ∷ e' ∷ d) = e' ∷ e ∷ d

abbrev pay : ℕ → Account → Account
pay amount acc = record acc { balance = acc.balance + amount }

abbrev forwards : List Call
forwards = sets 4 (new_external 100) ∷ sets 5 (new_external 200) ∷ updates 9 (pay 7) ∷ []

abbrev backwards : List Call
backwards = creates 5 (pay 150) ∷ sets 4 (new_external 100) ∷ updates 5 (pay 50) ∷ []

run-backwards :
    let s = run new backwards in
    (get_balance 5 s ≡ 200)
    × (account_count s ≡ 2)
    × (contains s.dirty 4 ≡ true)
    × (get_balance 9 s ≡ 0)
unfolding run step set_account get_account_mut get_or_create_account
run-backwards = (refl, refl, refl, refl)

clean_after_root : (compute_state_root hash_data serialize forth (run new backwards)).1.dirty ≡ []
unfolding compute_state_root
clean_after_root = refl

abbrev delegation : Delegation
delegation = record { amount = 5; delegated_at = 1; rewards = 0; last_reward_height = 1 }

abbrev delegator : Account
delegator = record (new_external 100) {
  staking_info = some record {
    validator = none;
    delegations = (3, delegation) ∷ (4, delegation) ∷ [];
    total_staked = 10;
    pending_rewards = 0;
    unbonding = [];
  };
}

-- One account with two delegations has another root if they are visited the other way round.
root_depends_on_order :
    let s = set_account 4 delegator new in
    ((compute_state_root hash_data serialize forth s).0
      == (compute_state_root hash_data serialize back s).0)
    ≡ false
unfolding compute_state_root set_account sort insert_sorted leaf_hash account_hash be_bytes
    merkle_root
root_depends_on_order = refl

no_delegations :
    AllValues IsPlain
      (run new (sets 4 (new_external 100) ∷ sets 5 (new_external 200) ∷ [])).accounts
unfolding run step set_account
no_delegations = (tt, (tt, tt))

forth-IsVisit : IsVisit forth
forth-IsVisit address d h = (refl, λ k. refl)

back-IsVisit : IsVisit back
back-IsVisit address [] h = (refl, λ k. refl)
back-IsVisit address (e ∷ []) h = (refl, λ k. refl)
back-IsVisit address (e ∷ e' ∷ d) h = (refl, λ k. ground arith)

view-run_example : view (run new forwards) ≡ spec_run (view new) forwards
view-run_example = view-run new forwards

root_of_history_example :
    (compute_state_root hash_data serialize forth
      (run new (sets 4 (new_external 100) ∷ sets 5 (new_external 200) ∷ []))).0
    ≡ (compute_state_root hash_data serialize back
        (run new (sets 5 (new_external 200) ∷ sets 4 (new_external 100) ∷ []))).0
root_of_history_example =
    root_of_history hash_data serialize forth back new new
      (sets 4 (new_external 100) ∷ sets 5 (new_external 200) ∷ [])
      (sets 5 (new_external 200) ∷ sets 4 (new_external 100) ∷ []) forth-IsVisit back-IsVisit tt tt
      (fun_ext (λ k. ground arith)) no_delegations
