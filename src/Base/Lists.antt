-- ===== src/Base/Lists.antt =====
-- Lists measured by native numbers, with the searches of the iterators and of `HashSet`.
use Prim.Native.Nat.{ℕ, suc, ◌+◌}
use mathlib.Core.Path.{◌≡◌, refl}
use mathlib.Core.Bool.{Bool, true, false, not, ◌||◌, ◌&&◌}
use mathlib.Core.Option.{Option, none, some}
use mathlib.Core.List.{List, [], ◌∷◌, ◌++◌}
use native.Mathlib.Omega.{arith}
use jmapsyncd.Base.Equality.{Eq, ◌==◌}
use jmapsyncd.Base.Tests.{if◌then◌else◌, ltb}

module _ {ℓ} {A : Type ℓ} where
  abbrev pub length : List A → ℕ
  length [] = 0
  length (x ∷ xs) = suc (length xs)

  pub length-append : (xs ys : List A) → length (xs ++ ys) ≡ length xs + length ys
  length-append [] ys = omega arith
  length-append (x ∷ xs) ys = omega (arith, length-append xs ys)

  unfoldable pub any : (A → Bool) → List A → Bool
  any p [] = false
  any p (x ∷ xs) = p x || any p xs

  unfoldable pub all : (A → Bool) → List A → Bool
  all p [] = true
  all p (x ∷ xs) = p x && all p xs

  unfoldable pub keep : (A → Bool) → List A → List A
  keep p [] = []
  keep p (x ∷ xs) = let rest = keep p xs in if p x then x ∷ rest else rest

  unfoldable pub filter_map {κ} : {B : Type κ} → (A → Option B) → List A → List B
  filter_map f [] = []
  filter_map f (x ∷ xs) =
      let rest = filter_map f xs in elim (f x) [ none ↦ rest | some y ↦ y ∷ rest ]

  -- A predicate by recursion, which computes to a tuple.
  abbrev pub All {κ} : (A → Type κ) → List A → Type κ
  All P [] = Unit
  All P (x ∷ xs) = P x × All P xs

  pub All-append {κ} : (P : A → Type κ) (xs ys : List A) → All P xs → All P ys → All P (xs ++ ys)
  All-append P [] ys h k = k
  All-append P (x ∷ xs) ys h k = (h.0, All-append P xs ys h.1 k)

module _ {ℓ} {A : Type ℓ} ⦃e : Eq A⦄ where
  unfoldable pub contains : List A → A → Bool
  contains [] a = false
  contains (x ∷ xs) a = x == a || contains xs a

  unfoldable pub starts_with : List A → List A → Bool
  starts_with xs [] = true
  starts_with [] (p ∷ ps) = false
  starts_with (x ∷ xs) (p ∷ ps) = x == p && starts_with xs ps

  pub contains-append :
      (xs ys : List A) (a : A) → contains (xs ++ ys) a ≡ (contains xs a || contains ys a)
  unfolding contains
  contains-append [] ys a = refl
  contains-append (x ∷ xs) ys a = ground (arith, contains-append xs ys a)

  pub contains-keep :
      (p : A → Bool) (xs : List A) (a : A) → contains (keep p xs) a ≡ (contains xs a && p a)
  unfolding contains keep
  contains-keep p [] a = refl
  contains-keep p (x ∷ xs) a = ground (arith, contains-keep p xs a)

  -- How often a value occurs.
  unfoldable pub count : A → List A → ℕ
  count a [] = 0
  count a (x ∷ xs) = let rest = count a xs in if x == a then suc rest else rest

  pub count-append : (a : A) (xs ys : List A) → count a (xs ++ ys) ≡ count a xs + count a ys
  unfolding count
  count-append a [] ys = omega arith
  count-append a (x ∷ xs) ys = ground (arith, count-append a xs ys)

  pub count-keep :
      (a : A) (p : A → Bool) (xs : List A)
      → count a (keep p xs) + count a (keep (λ x. not (p x)) xs) ≡ count a xs
  unfolding count keep
  count-keep a p [] = refl
  count-keep a p (x ∷ xs) = ground (arith, count-keep a p xs)

  pub contains-count : (xs : List A) (a : A) → contains xs a ≡ ltb 0 (count a xs)
  unfolding contains count
  contains-count [] a = refl
  contains-count (x ∷ xs) a = ground (arith, contains-count xs a)

module _ {ℓ} {A : Type ℓ} where
  pub length-keep :
      (p : A → Bool) (xs : List A)
      → length (keep p xs) + length (keep (λ x. not (p x)) xs) ≡ length xs
  unfolding keep
  length-keep p [] = omega arith
  length-keep p (x ∷ xs) = ground (arith, length-keep p xs)
