-- ===== src/Base/Ascending.antt =====
-- Sorted vectors of characters without repetition: `Vec::dedup`, and the fact that such a vector
-- is known by its members.
use Prim.Native.Nat.{compare}
use jmapsyncd.Base.{
  ℕ, ◌<◌, ◌≡◌, ◌≢◌, refl, arith, false, ◌||◌, List, [], ◌∷◌, ◌==◌, nat_eq, contains, All,
  if◌then◌else◌,
}
use jmapsyncd.Base.Order.{compare-IsPreorder, gt}
use jmapsyncd.Base.Sort.{IsSorted, sort_by, sort_by-IsSorted, contains-sort_by}

-- The scan of `dedup`: `x` is the last element kept.
dedup_after : ℕ → List ℕ → List ℕ
dedup_after x [] = x ∷ []
dedup_after x (y ∷ ys) =
    let same = dedup_after x ys in
    let other = dedup_after y ys in if x == y then same else x ∷ other

unfoldable pub dedup : List ℕ → List ℕ
unfolding dedup_after
dedup [] = []
dedup (x ∷ xs) = dedup_after x xs

-- `sort` on characters.
unfoldable pub sort : List ℕ → List ℕ
unfolding sort_by
sort = sort_by compare

abbrev pub IsAscending : List ℕ → Type 0
IsAscending [] = Unit
IsAscending (x ∷ xs) = All (λ y. x < y) xs × IsAscending xs

not-contains-All : (x a : ℕ) (xs : List ℕ) → All (λ y. x < y) xs → a < x → contains xs a ≡ false
unfolding contains
not-contains-All x a [] h k = refl
not-contains-All x a (y ∷ ys) h k = ground (arith, not-contains-All x a ys h.1 k)

not-contains_self : (x : ℕ) (xs : List ℕ) → All (λ y. x < y) xs → contains xs x ≡ false
unfolding contains
not-contains_self x [] h = refl
not-contains_self x (y ∷ ys) h = ground (arith, not-contains_self x ys h.1)

heads_eq :
    (x y : ℕ) (xs ys : List ℕ)
    → IsAscending (x ∷ xs)
    → IsAscending (y ∷ ys)
    → contains (x ∷ xs) x ≡ contains (y ∷ ys) x
    → contains (x ∷ xs) y ≡ contains (y ∷ ys) y
    → x ≡ y
unfolding contains
heads_eq x y xs ys h k e f =
    ground (arith, not-contains-All x y xs h.0, not-contains-All y x ys k.0)

tails_eq :
    (x a : ℕ) (xs ys : List ℕ)
    → All (λ z. x < z) xs
    → All (λ z. x < z) ys
    → contains (x ∷ xs) a ≡ contains (x ∷ ys) a
    → contains xs a ≡ contains ys a
unfolding contains
tails_eq x a xs ys h k e = ground (arith, not-contains_self x xs h, not-contains_self x ys k)

-- Two ascending lists with the same members are one list.
pub contains_ext :
    (xs ys : List ℕ)
    → IsAscending xs
    → IsAscending ys
    → ((a : ℕ) → contains xs a ≡ contains ys a)
    → xs ≡ ys
unfolding contains
contains_ext [] [] s t h = refl
contains_ext [] (y ∷ ys) s t h = ground (arith, h y)
contains_ext (x ∷ xs) [] s t h = ground (arith, h x)
contains_ext (x ∷ xs) (y ∷ ys) s t h =
    let e = heads_eq x y xs ys s t (h x) (h y) in
    cc (e, contains_ext xs ys s.1 t.1 (λ a. tails_eq x a xs ys s.0 (rw e t.0) (rw (← e) at (h a))))

contains-dedup_after :
    (x : ℕ) (xs : List ℕ) (a : ℕ) → contains (dedup_after x xs) a ≡ (x == a || contains xs a)
unfolding contains dedup_after
contains-dedup_after x [] a = refl
contains-dedup_after x (y ∷ ys) a =
    ground (arith, contains-dedup_after x ys a, contains-dedup_after y ys a)

pub contains-dedup : (xs : List ℕ) (a : ℕ) → contains (dedup xs) a ≡ contains xs a
unfolding contains dedup
contains-dedup [] a = refl
contains-dedup (x ∷ xs) a = contains-dedup_after x xs a

All-dedup_after :
    (z x : ℕ) (xs : List ℕ) → z < x → All (λ y. z < y) xs → All (λ y. z < y) (dedup_after x xs)
unfolding dedup_after
All-dedup_after z x [] h a = (h, tt)
All-dedup_after z x (y ∷ ys) h a =
    ground (arith, All-dedup_after z x ys h a.1, All-dedup_after z y ys a.0 a.1)

All-lt_of_le :
    (x y : ℕ) (xs : List ℕ) → x < y → All (λ z. compare y z ≢ gt) xs → All (λ z. x < z) xs
All-lt_of_le x y [] h a = tt
All-lt_of_le x y (z ∷ zs) h a = (ground arith, All-lt_of_le x y zs h a.1)

dedup_after-IsAscending :
    (x : ℕ) (xs : List ℕ) → IsSorted compare (x ∷ xs) → IsAscending (dedup_after x xs)
unfolding dedup_after
dedup_after-IsAscending x [] s = (tt, tt)
dedup_after-IsAscending x (y ∷ ys) s = ground (
  arith,
  dedup_after-IsAscending x ys (s.0.1, s.1.1),
  dedup_after-IsAscending y ys s.1,
  All-dedup_after x y ys,
  All-lt_of_le x y ys,
)

dedup-IsAscending : (xs : List ℕ) → IsSorted compare xs → IsAscending (dedup xs)
unfolding dedup
dedup-IsAscending [] s = tt
dedup-IsAscending (x ∷ xs) s = dedup_after-IsAscending x xs s

pub dedup-sort-IsAscending : (xs : List ℕ) → IsAscending (dedup (sort xs))
unfolding sort
dedup-sort-IsAscending xs =
    dedup-IsAscending (sort_by compare xs) (sort_by-IsSorted compare compare-IsPreorder xs)

pub contains-sort : (xs : List ℕ) (a : ℕ) → contains (sort xs) a ≡ contains xs a
unfolding sort
contains-sort xs a = contains-sort_by compare xs a
