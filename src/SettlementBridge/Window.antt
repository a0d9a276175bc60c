-- ===== src/SettlementBridge/Window.antt =====
-- The identifiers that core/blockchain/src/settlement_bridge/bridge.rs remembers, their set and their
-- order.
use text.Mathlib.TextEquality.{path_by_compare}
use text.Mathlib.TextPositions.{compare_refl}
use Prim.Native.Nat.{Ordering}
use Prim.Native.String.{compare}
use is_a_chain.Prelude.{
  ℕ, ◌≡◌, ◌+◌, ◌<◌, ◌≤◌, suc, refl, ap, subst, sym, ◌∙◌, true, false, not, inl, inr, Bool-cases,
  String, List, [], ◌∷◌, ◌++◌, length, retain, if◌then◌else◌, ltb, arith, same_text, length-append,
}
use is_a_chain.SettlementBridge.{SettlementBridge, evict, contains_text}

same_text-eq : (s t : String) → same_text s t ≡ true → s ≡ t
same_text-eq s t h = path_by_compare s t (ordering (compare s t) h)
  where
    ordering :
        (o : Ordering)
        → (elim o [ Ordering.lt ↦ false | Ordering.eq ↦ true | Ordering.gt ↦ false ]) ≡ true
        → o ≡ Ordering.eq
    ordering Ordering.lt h = cc
    ordering Ordering.eq h = refl
    ordering Ordering.gt h = cc

same_text_refl : (s : String) → same_text s s ≡ true
same_text_refl s = rw (same_text, compare_refl s) refl

-- No text is listed twice.
unfoldable pub Distinct : List String → Type 0
Distinct [] = Unit
Distinct (s ∷ ss) = (contains_text ss s ≡ false) × Distinct ss

contains-same :
    (s t : String) (ss : List String)
    → same_text s t ≡ true
    → contains_text ss s ≡ contains_text ss t
contains-same s t ss h = ap (contains_text ss) (same_text-eq s t h)

contains-retain :
    (t oldest : String) (ss : List String)
    → same_text t oldest ≡ false
    → contains_text ss t ≡ true
    → contains_text (retain (λ s. not (same_text s oldest)) ss) t ≡ true
contains-retain t oldest [] other there = cc
contains-retain t oldest (s ∷ ss) other there = elim (Bool-cases (same_text s t)) [
  | inl this ↦
      let same : same_text s oldest ≡ same_text t oldest =
        ap (λ u. same_text u oldest) (same_text-eq s t this) in
      ground (arith, same)
  | inr miss ↦ ground (arith, contains-retain t oldest ss other (ground arith))
]

contains-append :
    (t u : String) (ss : List String)
    → contains_text (ss ++ u ∷ []) t ≡ (if contains_text ss t then true else same_text u t)
contains-append t u [] = ground arith
contains-append t u (s ∷ ss) = ground (arith, contains-append t u ss)

other_lem :
    (u s : String) (ss : List String) → contains_text (s ∷ ss) u ≡ false → same_text u s ≡ false
other_lem u s ss h = elim (Bool-cases (same_text u s)) [
  | inl same ↦
      let back : same_text s u ≡ true =
        subst (λ x. same_text s x ≡ true) (sym (same_text-eq u s same)) (same_text_refl s) in
      ground (arith, back)
  | inr miss ↦ miss
]

Distinct-append :
    (u : String) (ss : List String)
    → Distinct ss
    → contains_text ss u ≡ false
    → Distinct (ss ++ u ∷ [])
unfolding Distinct
Distinct-append u [] d new_one = (refl, tt)
Distinct-append u (s ∷ ss) d new_one =
    let other = other_lem u s ss new_one in
    (ground (arith, contains-append s u ss, d.0, other), Distinct-append u ss d.1 (ground arith))

-- The number of identifiers that are kept, their set and their order.
abbrev pub Window : Type 0
Window = ℕ × List String × List String

abbrev pub window_of : SettlementBridge → Window
window_of b = (b.config.dedup_window, b.processed_events, b.dedup_order)

-- What is in the order is in the set, and is there once.
abbrev pub IsWindow : Window → Type 0
IsWindow (limit, seen, order) =
    Distinct order × ((t : String) → contains_text order t ≡ true → contains_text seen t ≡ true)

evict-IsWindow :
    (limit : ℕ) (seen order : List String)
    → IsWindow (limit, seen, order)
    → let kept = evict limit seen order in IsWindow (limit, kept.0, kept.1)
unfolding Distinct
evict-IsWindow limit seen [] w = w
evict-IsWindow limit seen (x ∷ xs) w = elim (Bool-cases (ltb limit (suc (length xs)))) [
  | inr short ↦ rw short w
  | inl long ↦ rw long (
      evict-IsWindow limit (retain (λ s. not (same_text s x)) seen) xs (
        w.0.1,
        λ t there.
            let other : same_text t x ≡ false = elim (Bool-cases (same_text t x)) [
              | inl same ↦ let both = contains-same t x xs same in ground (arith, w.0.0)
              | inr miss ↦ miss
            ] in
            contains-retain t x seen other (w.1 t (ground arith)),
      ))
]

-- An identifier with fewer than `limit` behind it is not evicted.
evict-keeps :
    (limit : ℕ) (seen pre : List String) (id : String) (later : List String)
    → suc (length later) ≤ limit
    → (pre' : List String) × ((evict limit seen (pre ++ id ∷ later)).1 ≡ pre' ++ id ∷ later)
evict-keeps limit seen [] id later h = ([], ground arith)
evict-keeps limit seen (x ∷ xs) id later h =
    elim (Bool-cases (ltb limit (suc (length (xs ++ id ∷ later))))) [
      | inr short ↦ (x ∷ xs, rw short refl)
      | inl long ↦
          let (pre', kept) =
            evict-keeps limit (retain (λ s. not (same_text s x)) seen) xs id later h in
          (pre', rw long kept)
    ]

-- The window after an identifier was let in.
abbrev pub admitted : String → Window → Window
admitted id (limit, seen, order) =
    let kept = evict limit (id ∷ seen) (order ++ id ∷ []) in (limit, kept.0, kept.1)

pub admitted-IsWindow :
    (id : String) (w : Window)
    → contains_text w.1 id ≡ false
    → IsWindow w
    → IsWindow (admitted id w)
admitted-IsWindow id (limit, seen, order) unseen x =
    let new_one : contains_text order id ≡ false = elim (Bool-cases (contains_text order id)) [
      | inl there ↦ let both = x.1 id there in ground arith
      | inr absent ↦ absent
    ] in
    evict-IsWindow limit (id ∷ seen) (order ++ id ∷ []) (
      Distinct-append id order x.0 new_one,
      λ t there. ground (arith, contains-append t id order, x.1 t),
    )

-- The identifier is in the order, and `n` more may come before it is evicted.
abbrev pub IsRecent : String → ℕ → Window → Type 0
IsRecent id n (limit, seen, order) =
    IsWindow (limit, seen, order)
    × ((pre : List String) × (later : List String) × (order ≡ pre ++ id ∷ later)
        × (length later + n < limit))

append_assoc :
    (pre later : List String) (id t : String)
    → (pre ++ id ∷ later) ++ t ∷ [] ≡ pre ++ id ∷ (later ++ t ∷ [])
append_assoc [] later id t = refl
append_assoc (x ∷ xs) later id t = ap (λ ts. x ∷ ts) (append_assoc xs later id t)

pub admitted-IsRecent :
    (id t : String) (n : ℕ) (w : Window)
    → contains_text w.1 t ≡ false
    → IsRecent id (suc n) w
    → IsRecent id n (admitted t w)
admitted-IsRecent id t n (limit, seen, order) unseen (x, (pre, later, split, room)) =
    let longer = length-append later (t ∷ []) in
    let (pre', kept) =
      evict-keeps limit (t ∷ seen) pre id (later ++ t ∷ []) (omega (arith, longer, room)) in
    let whole : order ++ t ∷ [] ≡ pre ++ id ∷ (later ++ t ∷ []) =
      ap (λ ts. ts ++ t ∷ []) split ∙ append_assoc pre later id t in
    (
      admitted-IsWindow t (limit, seen, order) unseen x,
      (
        pre',
        later ++ t ∷ [],
        ap (λ ts. (evict limit (t ∷ seen) ts).1) whole ∙ kept,
        omega (arith, longer, room),
      ),
    )

pub first-IsRecent :
    (id : String) (n : ℕ) (w : Window)
    → contains_text w.1 id ≡ false
    → IsWindow w
    → n < w.0
    → IsRecent id n (admitted id w)
first-IsRecent id n (limit, seen, order) unseen x room =
    let (pre', kept) = evict-keeps limit (id ∷ seen) order id [] (omega (arith, room)) in
    (admitted-IsWindow id (limit, seen, order) unseen x, (pre', [], kept, omega (arith, room)))

pub contains-middle :
    (id : String) (pre later : List String) → contains_text (pre ++ id ∷ later) id ≡ true
contains-middle id [] later = ground (arith, same_text_refl id)
contains-middle id (x ∷ xs) later = ground (arith, contains-middle id xs later)
