-- ===== src/World/Root.antt =====
-- The state root of core/blockchain/src/state.rs does not depend on the order of the map.
use is_a_chain.Prelude.{
  ◌∙◌, ℕ, ◌<◌, ◌≡◌, refl, sym, inl, inr, true, false, [], ◌∷◌, arith, none, some, leb, ◌==◌,
  if◌then◌else◌, Bool-cases, HashMap, get, contains_key, IsMap,
}
use is_a_chain.Account.{Account}
use is_a_chain.World.{insert_sorted, sort}

abbrev Above : ℕ → HashMap Account → Type 0
Above k [] = Unit
Above k ((j, _) ∷ d) = (k < j) × Above k d

-- The keys rise strictly.
abbrev IsAscending : HashMap Account → Type 0
IsAscending [] = Unit
IsAscending ((k, _) ∷ d) = Above k d × IsAscending d

get-Above : (k j : ℕ) (d : HashMap Account) → Above j d → leb k j ≡ true → get k d ≡ none
get-Above k j [] h le = refl
get-Above k j ((i, v) ∷ d) h le = ground (arith, get-Above k j d h.1 le)

Above-trans : (k j : ℕ) (d : HashMap Account) → k < j → Above j d → Above k d
Above-trans k j [] lt h = tt
Above-trans k j ((i, v) ∷ d) lt h = (omega (arith, h.0), Above-trans k j d lt h.1)

get-insert_sorted :
    (k j : ℕ) (acc : Account) (d : HashMap Account)
    → get k (insert_sorted (j, acc) d) ≡ (if k == j then some acc else get k d)
unfolding insert_sorted
get-insert_sorted k j acc [] = ground arith
get-insert_sorted k j acc ((i, v) ∷ d) = ground (arith, get-insert_sorted k j acc d)

Above-insert_sorted :
    (k j : ℕ) (acc : Account) (d : HashMap Account)
    → k < j
    → Above k d
    → Above k (insert_sorted (j, acc) d)
unfolding insert_sorted
Above-insert_sorted k j acc [] lt h = (lt, tt)
Above-insert_sorted k j acc ((i, v) ∷ d) lt h =
    ground (arith, h, Above-insert_sorted k j acc d lt h.1)

insert_sorted-IsAscending :
    (j : ℕ) (acc : Account) (d : HashMap Account)
    → contains_key j d ≡ false
    → IsAscending d
    → IsAscending (insert_sorted (j, acc) d)
unfolding insert_sorted
insert_sorted-IsAscending j acc [] new h = (tt, tt)
insert_sorted-IsAscending j acc ((i, v) ∷ d) new h = elim (Bool-cases (leb j i)) [
  | inl le ↦ let lt : j < i = ground arith in rw le ((lt, Above-trans j i d lt h.0), h)
  | inr gt ↦
      let lt : i < j = ground arith in
      let missing : contains_key j d ≡ false = ground arith in
      rw gt (Above-insert_sorted i j acc d lt h.0, insert_sorted-IsAscending j acc d missing h.1)
]

get-sort : (k : ℕ) (d : HashMap Account) → get k (sort d) ≡ get k d
unfolding sort
get-sort k [] = refl
get-sort k ((j, acc) ∷ d) = ground (arith, get-insert_sorted k j acc (sort d), get-sort k d)

sort-IsAscending : (d : HashMap Account) → IsMap d → IsAscending (sort d)
unfolding sort
sort-IsAscending [] u = tt
sort-IsAscending ((j, acc) ∷ d) u =
    insert_sorted-IsAscending j acc (sort d) (ground (arith, get-sort j d, u.0))
      (sort-IsAscending d u.1)

-- A strictly rising list is determined by what it maps its keys to.
ascending_unique :
    (xs ys : HashMap Account)
    → IsAscending xs
    → IsAscending ys
    → ((k : ℕ) → get k xs ≡ get k ys)
    → xs ≡ ys
ascending_unique [] [] hx hy h = refl
ascending_unique [] ((j, v) ∷ ys) hx hy h = ground (arith, h j)
ascending_unique ((j, v) ∷ xs) [] hx hy h = ground (arith, h j)
ascending_unique ((i, u) ∷ xs) ((j, v) ∷ ys) hx hy h =
    let same_key : i ≡ j = ground (arith, h i, h j, get-Above i j ys hy.0, get-Above j i xs hx.0) in
    let same_value : u ≡ v = ground (arith, h i) in
    let rest =
      ascending_unique xs ys hx.1 hy.1
        λ k. ground (arith, h k, get-Above k i xs hx.0, get-Above k j ys hy.0) in
    ground arith

pub sort_unique :
    (d e : HashMap Account) → IsMap d → IsMap e → ((k : ℕ) → get k d ≡ get k e) → sort d ≡ sort e
sort_unique d e ud ue h =
    ascending_unique (sort d) (sort e) (sort-IsAscending d ud) (sort-IsAscending e ue)
      λ k. get-sort k d ∙ h k ∙ sym (get-sort k e)
