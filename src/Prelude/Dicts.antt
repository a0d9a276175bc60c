-- ===== src/Prelude/Dicts.antt =====
-- A `HashMap` whose keys are addresses or hashes, as an association list. A write replaces the
-- entry of its key, so a map built by `insert` lists no key twice. Iteration follows the list.
use Prim.Native.Nat.{ℕ, ◌+◌, ◌≤◌, suc}
use mathlib.Core.Path.{◌≡◌, refl, subst}
use mathlib.Core.Logic.{◌≢◌, inl, inr}
use mathlib.Core.Bool.{Bool, false}
use mathlib.Core.Option.{Option, none, some}
use mathlib.Core.List.{List, [], ◌∷◌, ◌++◌}
use native.Mathlib.Omega.{arith}
use is_a_chain.Prelude.Tests.{◌==◌, if◌then◌else◌, is_some, Bool-cases, Option-cases}
use is_a_chain.Prelude.Lists.{length, count, count-append}

abbrev pub HashMap {ℓ} : Type ℓ → Type ℓ
HashMap A = List (ℕ × A)

module _ {ℓ} {A : Type ℓ} where
  abbrev pub get : (key : ℕ) → HashMap A → Option A
  get key [] = none
  get key ((name, value) ∷ rest) = if name == key then some value else get key rest

  abbrev pub contains_key : (key : ℕ) → HashMap A → Bool
  contains_key key entries = is_some (get key entries)

  abbrev pub insert : (key : ℕ) → A → HashMap A → HashMap A
  insert key value [] = (key, value) ∷ []
  insert key value ((name, old) ∷ rest) =
      if name == key then (name, value) ∷ rest else (name, old) ∷ insert key value rest

  abbrev pub remove : (key : ℕ) → HashMap A → HashMap A
  remove key [] = []
  remove key ((name, old) ∷ rest) = if name == key then rest else (name, old) ∷ remove key rest

  pub get-insert :
      (asked key : ℕ) (value : A) (m : HashMap A)
      → get asked (insert key value m) ≡ (if asked == key then some value else get asked m)
  get-insert asked key value [] = ground arith
  get-insert asked key value (entry ∷ rest) = ground (arith, get-insert asked key value rest)

  pub get-insert_self :
      (key : ℕ) (value : A) (m : HashMap A) → get key (insert key value m) ≡ some value
  get-insert_self key value m = ground (arith, get-insert key key value m)

  pub get-insert_ne :
      (asked key : ℕ) (value : A) (m : HashMap A)
      → asked ≢ key
      → get asked (insert key value m) ≡ get asked m
  get-insert_ne asked key value m different = ground (arith, get-insert asked key value m)

  pub get-remove_ne :
      (asked key : ℕ) (m : HashMap A) → asked ≢ key → get asked (remove key m) ≡ get asked m
  get-remove_ne asked key [] different = refl
  get-remove_ne asked key (entry ∷ rest) different =
      ground (arith, get-remove_ne asked key rest different)

  -- A number read off every entry, added up.
  abbrev pub total : (A → ℕ) → HashMap A → ℕ
  total f [] = 0
  total f ((_, v) ∷ d) = f v + total f d

  -- The number read off the entry of `k`; 0 if there is none.
  abbrev pub at_or_zero : (A → ℕ) → ℕ → HashMap A → ℕ
  at_or_zero f k d = elim (get k d) [ none ↦ 0 | some v ↦ f v ]

  pub total-insert :
      (f : A → ℕ) (k : ℕ) (v : A) (d : HashMap A)
      → total f (insert k v d) + at_or_zero f k d ≡ total f d + f v
  total-insert f k v [] = omega arith
  total-insert f k v (e ∷ d) = ground (arith, total-insert f k v d)

  pub total-remove :
      (f : A → ℕ) (k : ℕ) (d : HashMap A) → total f (remove k d) + at_or_zero f k d ≡ total f d
  total-remove f k [] = omega arith
  total-remove f k (e ∷ d) = ground (arith, total-remove f k d)

  pub at_or_zero-le-total : (f : A → ℕ) (k : ℕ) (d : HashMap A) → at_or_zero f k d ≤ total f d
  at_or_zero-le-total f k [] = omega arith
  at_or_zero-le-total f k (e ∷ d) = ground (arith, at_or_zero-le-total f k d)

  pub length-insert :
      (k : ℕ) (v : A) (d : HashMap A)
      → length (insert k v d) ≡ (if contains_key k d then length d else suc (length d))
  length-insert k v [] = refl
  length-insert k v (e ∷ d) = ground (arith, length-insert k v d)

  pub length-remove :
      (k : ℕ) (d : HashMap A)
      → (if contains_key k d then suc (length (remove k d)) else length (remove k d)) ≡ length d
  length-remove k [] = refl
  length-remove k (e ∷ d) = ground (arith, length-remove k d)

  -- No key is listed twice.
  abbrev pub IsMap : HashMap A → Type 0
  IsMap [] = Unit
  IsMap ((k, _) ∷ d) = (contains_key k d ≡ false) × IsMap d

-- A property of every value.
module _ {ℓ κ} {V : Type ℓ} (P : V → Type κ) where
  abbrev pub AllValues : HashMap V → Type κ
  AllValues [] = Unit
  AllValues ((_, v) ∷ d) = P v × AllValues d

  pub AllValues-insert :
      (k : ℕ) (v : V) (d : HashMap V) → AllValues d → P v → AllValues (insert k v d)
  AllValues-insert k v [] h p = (p, tt)
  AllValues-insert k v ((j, w) ∷ d) h p = elim (Bool-cases (j == k)) [
    | inl e ↦ rw e (p, h.1)
    | inr e ↦ rw e (h.0, AllValues-insert k v d h.1 p)
  ]

  pub AllValues-get : (k : ℕ) (v : V) (d : HashMap V) → AllValues d → get k d ≡ some v → P v
  AllValues-get k v [] h e = cc
  AllValues-get k v ((j, w) ∷ d) h e = elim (Bool-cases (j == k)) [
    | inl hit ↦ let same : w ≡ v = ground arith in subst P same h.0
    | inr miss ↦ AllValues-get k v d h.1 (ground arith)
  ]

-- `entry(key).or_default().push(item)`
abbrev pub push_item : ℕ → ℕ → HashMap (List ℕ) → HashMap (List ℕ)
push_item key item index =
    insert key (elim (get key index) [ none ↦ item ∷ [] | some items ↦ items ++ item ∷ [] ]) index

-- The items of `index` under a key.
abbrev pub listed : ℕ → HashMap (List ℕ) → List ℕ
listed key index = elim (get key index) [ none ↦ [] | some items ↦ items ]

-- How often an item is listed after a push.
pub listed-push_item :
    (s key item : ℕ) (d : HashMap (List ℕ)) (h : ℕ)
    → count h (listed s (push_item key item d))
      ≡ count h (listed s d) + (if s == key then (if item == h then 1 else 0) else 0)
listed-push_item s key item d h = elim (Option-cases (get key d)) [
  | inl missing ↦ ground (arith, get-insert s key (item ∷ []) d)
  | inr (items, found) ↦
      ground (arith, get-insert s key (items ++ item ∷ []) d, count-append h items (item ∷ []))
]

module _ {ℓ} {V : Type ℓ} where
  -- `values()`
  abbrev pub values : HashMap V → List V
  values [] = []
  values ((_, v) ∷ d) = v ∷ values d

  pub insert-IsMap : (k : ℕ) (v : V) (d : HashMap V) → IsMap d → IsMap (insert k v d)
  insert-IsMap k v [] h = (refl, tt)
  insert-IsMap k v (e ∷ d) h = ground (arith, insert-IsMap k v d h.1, get-insert e.0 k v d)

  pub remove-IsMap : (k : ℕ) (d : HashMap V) → IsMap d → IsMap (remove k d)
  remove-IsMap k [] h = tt
  remove-IsMap k (e ∷ d) h = ground (arith, remove-IsMap k d h.1, get-remove_ne e.0 k d)

  pub get-remove :
      (j k : ℕ) (d : HashMap V) → IsMap d → get j (remove k d) ≡ (if j == k then none else get j d)
  get-remove j k [] h = ground arith
  get-remove j k (e ∷ d) h = ground (arith, get-remove j k d h.1)
