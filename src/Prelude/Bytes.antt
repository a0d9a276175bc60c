-- ===== src/Prelude/Bytes.antt =====
-- Numbers as byte strings. An address or a hash is the number that its bytes spell, the first
-- byte the most significant; `to_le_bytes` puts the least significant first.
use Prim.Native.Nat.{ℕ, zero, suc, ◌+◌, ◌*◌, ◌/◌, ◌%◌, ◌<◌, ◌^◌}
use mathlib.Core.Path.{◌≡◌, sym, refl, ap, ◌∙◌}
use mathlib.Core.List.{List, [], ◌∷◌, ◌++◌, tail}
use native.Mathlib.Omega.{arith}
use native.Mathlib.Nat.{pow-suc}
use is_a_chain.Prelude.Lists.{length, length-append}

unfoldable pub be_bytes : ℕ → ℕ → List ℕ
be_bytes zero n = []
be_bytes (suc k) n = be_bytes k (n / 256) ++ (n % 256) ∷ []

unfoldable pub le_bytes : ℕ → ℕ → List ℕ
le_bytes zero n = []
le_bytes (suc k) n = (n % 256) ∷ le_bytes k (n / 256)

be_value : ℕ → List ℕ → ℕ
be_value acc [] = acc
be_value acc (d ∷ ds) = be_value (acc * 256 + d) ds

le_value : List ℕ → ℕ
le_value [] = 0
le_value (d ∷ ds) = d + 256 * le_value ds

be_value-snoc : (acc d : ℕ) (ds : List ℕ) → be_value acc (ds ++ d ∷ []) ≡ be_value acc ds * 256 + d
unfolding be_value
be_value-snoc acc d [] = refl
be_value-snoc acc d (x ∷ ds) = be_value-snoc (acc * 256 + x) d ds

div-lt_pow : (k n : ℕ) → n < 256 ^ suc k → n / 256 < 256 ^ k
div-lt_pow k n h = omega (arith, pow-suc 256 k)

be_value-be_bytes : (k n : ℕ) → n < 256 ^ k → be_value 0 (be_bytes k n) ≡ n
unfolding be_bytes be_value
be_value-be_bytes zero n h = omega arith
be_value-be_bytes (suc k) n h = omega (
  arith,
  be_value-snoc 0 (n % 256) (be_bytes k (n / 256)),
  be_value-be_bytes k (n / 256) (div-lt_pow k n h),
)

le_value-le_bytes : (k n : ℕ) → n < 256 ^ k → le_value (le_bytes k n) ≡ n
unfolding le_bytes le_value
le_value-le_bytes zero n h = omega arith
le_value-le_bytes (suc k) n h = omega (arith, le_value-le_bytes k (n / 256) (div-lt_pow k n h))

pub length-be_bytes : (k n : ℕ) → length (be_bytes k n) ≡ k
unfolding be_bytes
length-be_bytes zero n = refl
length-be_bytes (suc k) n =
    omega
      (arith, length-append (be_bytes k (n / 256)) ((n % 256) ∷ []), length-be_bytes k (n / 256))

pub be_bytes-injective :
    (k m n : ℕ) → m < 256 ^ k → n < 256 ^ k → be_bytes k m ≡ be_bytes k n → m ≡ n
be_bytes-injective k m n hm hn e =
    sym (be_value-be_bytes k m hm) ∙ ap (be_value 0) e ∙ be_value-be_bytes k n hn

pub le_bytes-injective :
    (k m n : ℕ) → m < 256 ^ k → n < 256 ^ k → le_bytes k m ≡ le_bytes k n → m ≡ n
le_bytes-injective k m n hm hn e =
    sym (le_value-le_bytes k m hm) ∙ ap le_value e ∙ le_value-le_bytes k n hn

-- Two concatenations agree part by part where the first parts have one length.
pub append-injective {ℓ} :
    {A : Type ℓ} (xs ys xs' ys' : List A)
    → length xs ≡ length xs'
    → xs ++ ys ≡ xs' ++ ys'
    → (xs ≡ xs') × (ys ≡ ys')
append-injective [] ys [] ys' h e = (refl, e)
append-injective [] ys (x' ∷ xs') ys' h e = absurd (omega arith)
append-injective (x ∷ xs) ys [] ys' h e = absurd (omega arith)
append-injective (x ∷ xs) ys (x' ∷ xs') ys' h e =
    let (p, q) = append-injective xs ys xs' ys' (omega arith) (ap tail e) in (ground arith, q)
