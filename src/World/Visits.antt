-- ===== src/World/Visits.antt =====
-- The hash of an account of core/blockchain/src/account/account.rs and the order in which the map of
-- its delegations is visited.
use is_a_chain.Prelude.{
  ℕ, ◌≡◌, refl, sym, ◌∙◌, inl, inr, List, [], ◌∷◌, ap, arith, length, leb, if_elim, AllValues,
  be_bytes, ◌++◌, ◌≤◌, HashMap, Option-cases, none, some, get, IsMap, map,
}
use is_a_chain.Account.{Account, Delegation}
use is_a_chain.World.{sort, insert_sorted, leaf_hash, account_hash, visited, VisitOrder}

-- An account with no two delegations: there is one order of visiting them.
abbrev pub IsPlain : Account → Type 0
IsPlain acc = elim acc.staking_info [ none ↦ Unit | some info ↦ length info.delegations ≤ 1 ]

-- Iterating a map visits the entry of every key once.
abbrev pub IsVisit : VisitOrder → Type 0
IsVisit order =
    (address : ℕ) (d : HashMap Delegation)
    → IsMap d
    → (length (order address d) ≡ length d) × ((k : ℕ) → get k (order address d) ≡ get k d)

short_map_unique :
    (xs ys : HashMap Delegation)
    → length ys ≤ 1
    → length xs ≡ length ys
    → ((k : ℕ) → get k xs ≡ get k ys)
    → xs ≡ ys
short_map_unique [] [] short long h = refl
short_map_unique [] (y ∷ ys) short long h = ground arith
short_map_unique (x ∷ xs) [] short long h = ground arith
short_map_unique (x ∷ []) (y ∷ []) short long h =
    let key : x.0 ≡ y.0 = ground (arith, h y.0) in
    let value : x.1 ≡ y.1 = ground (arith, h y.0) in ground arith
short_map_unique (x ∷ x' ∷ xs) (y ∷ []) short long h = ground arith
short_map_unique xs (y ∷ y' ∷ ys) short long h = ground arith

short-IsMap : (d : HashMap Delegation) → length d ≤ 1 → IsMap d
short-IsMap [] short = tt
short-IsMap (e ∷ []) short = (refl, tt)
short-IsMap (e ∷ e' ∷ d) short = ground arith

visited-IsPlain :
    (order : VisitOrder) (address : ℕ) (acc : Account)
    → IsVisit order
    → IsPlain acc
    → visited (order address) acc ≡ acc
visited-IsPlain order address acc visits plain = elim (Option-cases acc.staking_info) [
  | inl absent ↦ ground arith
  | inr (info, there) ↦
      let short : length info.delegations ≤ 1 = ground arith in
      let (long, same) = visits address info.delegations (short-IsMap info.delegations short) in
      let kept =
        short_map_unique (order address info.delegations) info.delegations short long same in
      ground (arith, kept)
]

AllValues-insert_sorted :
    (address : ℕ) (acc : Account) (d : HashMap Account)
    → IsPlain acc
    → AllValues IsPlain d
    → AllValues IsPlain (insert_sorted (address, acc) d)
unfolding insert_sorted
AllValues-insert_sorted address acc [] p h = (p, tt)
AllValues-insert_sorted address acc (x ∷ xs) p h =
    if_elim (AllValues IsPlain) (leb address x.0) (λ _. (p, h))
      λ _. (h.0, AllValues-insert_sorted address acc xs p h.1)

pub AllValues-sort : (d : HashMap Account) → AllValues IsPlain d → AllValues IsPlain (sort d)
unfolding sort
AllValues-sort [] h = tt
AllValues-sort ((address, acc) ∷ d) h =
    AllValues-insert_sorted address acc (sort d) h.0 (AllValues-sort d h.1)

module _ (hash_data : List ℕ → ℕ) (serialize : Account → List ℕ) (o p : VisitOrder) (vo : IsVisit o)
    (vp : IsVisit p) where
  leaf_hash-order :
      (address : ℕ) (acc : Account)
      → IsPlain acc
      → leaf_hash hash_data serialize o (address, acc)
        ≡ leaf_hash hash_data serialize p (address, acc)
  unfolding leaf_hash account_hash
  leaf_hash-order address acc plain =
      let same =
        visited-IsPlain o address acc vo plain ∙ sym (visited-IsPlain p address acc vp plain) in
      ap (λ seen. hash_data (be_bytes 20 address ++ be_bytes 32 (hash_data (serialize seen)))) same

  pub leaves_lem :
      (d : HashMap Account)
      → AllValues IsPlain d
      → map (leaf_hash hash_data serialize o) d ≡ map (leaf_hash hash_data serialize p) d
  leaves_lem [] h = refl
  leaves_lem ((address, acc) ∷ d) h =
      ground (arith, leaf_hash-order address acc h.0, leaves_lem d h.1)
