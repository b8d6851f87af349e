-- ===== src/Base/Sort.antt =====
-- The stable sort of the standard library, by insertion from the right, and `dedup`.
use Prim.Native.Nat.{Ordering}
use mathlib.Core.Path.{subst}
use mathlib.Core.List.{head?}
use mathlib.Core.Option.{some-injective}
use jmapsyncd.Base.{
  ◌≡◌, ◌≢◌, ◌⊎◌, inl, inr, refl, ap, arith, some, List, [], ◌∷◌, ◌++◌, Bool, ◌||◌, any, Eq, ◌==◌,
  contains, All, All-append,
}
use jmapsyncd.Base.Order.{Cmp, IsPreorder, le_trans_cmp, lt, eq, gt}

gt-cases : (o : Ordering) → (o ≢ gt) ⊎ (o ≡ gt)
gt-cases lt = inl (λ h. cc)
gt-cases eq = inl (λ h. cc)
gt-cases gt = inr refl

module _ {ℓ} {A : Type ℓ} (cmp : Cmp A) where
  insert_by : A → List A → List A
  insert_by x [] = x ∷ []
  insert_by x (y ∷ ys) = elim (cmp x y) [
    | lt ↦ x ∷ y ∷ ys
    | eq ↦ x ∷ y ∷ ys
    | gt ↦ y ∷ insert_by x ys
  ]

  -- `sort_by`
  unfoldable pub sort_by : List A → List A
  unfolding insert_by
  sort_by [] = []
  sort_by (x ∷ xs) = insert_by x (sort_by xs)

  abbrev pub IsSorted : List A → Type 0
  IsSorted [] = Unit
  IsSorted (x ∷ xs) = All (λ y. cmp x y ≢ gt) xs × IsSorted xs

  -- `r` is the first of the least elements of the list.
  pub record IsFirstLeast (r : A) (l : List A) : Type ℓ where
    pub before : List A
    pub after : List A
    pub splits : l ≡ before ++ (r ∷ after)
    pub less_before : All (λ c. cmp r c ≡ lt) before
    pub le_after : All (λ c. cmp r c ≢ gt) after

  All-insert_by {κ} : (P : A → Type κ) (x : A) (l : List A) → P x → All P l → All P (insert_by x l)
  unfolding insert_by
  All-insert_by P x [] h k = (h, tt)
  All-insert_by P x (y ∷ ys) h k = ground (arith, All-insert_by P x ys h k.1)

  pub All-sort_by {κ} : (P : A → Type κ) (l : List A) → All P l → All P (sort_by l)
  unfolding sort_by
  All-sort_by P [] h = tt
  All-sort_by P (x ∷ xs) h = All-insert_by P x (sort_by xs) h.0 (All-sort_by P xs h.1)

  any-insert_by : (p : A → Bool) (x : A) (l : List A) → any p (insert_by x l) ≡ (p x || any p l)
  unfolding insert_by any
  any-insert_by p x [] = refl
  any-insert_by p x (y ∷ ys) = ground (arith, any-insert_by p x ys)

  pub any-sort_by : (p : A → Bool) (l : List A) → any p (sort_by l) ≡ any p l
  unfolding sort_by any
  any-sort_by p [] = refl
  any-sort_by p (x ∷ xs) = ground (arith, any-insert_by p x (sort_by xs), any-sort_by p xs)

  insert_by_head :
      (x r y : A) (ys : List A) → cmp x y ≢ gt → head? (insert_by x (y ∷ ys)) ≡ some r → x ≡ r
  unfolding insert_by
  insert_by_head x r y ys le h = ground arith

  insert_by_head' :
      (x r y : A) (ys : List A) → cmp x y ≡ gt → head? (insert_by x (y ∷ ys)) ≡ some r → y ≡ r
  unfolding insert_by
  insert_by_head' x r y ys above h = ground arith

  insert_by-ne-nil : (x : A) (l : List A) → insert_by x l ≢ []
  unfolding insert_by
  insert_by-ne-nil x [] = λ h. cc
  insert_by-ne-nil x (y ∷ ys) = ground arith

  module _ (p : IsPreorder cmp) where
    All-le_trans :
        (x y : A) (l : List A)
        → cmp x y ≢ gt
        → All (λ c. cmp y c ≢ gt) l
        → All (λ c. cmp x c ≢ gt) l
    All-le_trans x y [] h a = tt
    All-le_trans x y (c ∷ l) h a = (le_trans_cmp p x y c h a.0, All-le_trans x y l h a.1)

    insert_by-IsSorted : (x : A) (l : List A) → IsSorted l → IsSorted (insert_by x l)
    unfolding insert_by
    insert_by-IsSorted x [] s = (tt, tt)
    insert_by-IsSorted x (y ∷ ys) s = ground (
      arith,
      p.cmp_swap x y,
      All-le_trans x y ys,
      All-insert_by (λ c. cmp y c ≢ gt) x ys,
      insert_by-IsSorted x ys s.1,
    )

    pub sort_by-IsSorted : (l : List A) → IsSorted (sort_by l)
    unfolding sort_by
    sort_by-IsSorted [] = tt
    sort_by-IsSorted (x ∷ xs) = insert_by-IsSorted x (sort_by xs) (sort_by-IsSorted xs)

    IsFirstLeast-cons :
        (x r : A) (xs : List A) → cmp x r ≡ gt → IsFirstLeast r xs → IsFirstLeast r (x ∷ xs)
    IsFirstLeast-cons x r xs h f = record {
      before = x ∷ f.before;
      after = f.after;
      splits = ap (◌∷◌ x) f.splits;
      less_before = (ground (arith, p.cmp_swap x r), f.less_before);
      le_after = f.le_after;
    }

    All-lt_to_le : (r : A) (l : List A) → All (λ c. cmp r c ≡ lt) l → All (λ c. cmp r c ≢ gt) l
    All-lt_to_le r [] a = tt
    All-lt_to_le r (c ∷ l) a = (ground arith, All-lt_to_le r l a.1)

    IsFirstLeast-here :
        (x r : A) (xs : List A) → cmp x r ≢ gt → IsFirstLeast r xs → IsFirstLeast x (x ∷ xs)
    IsFirstLeast-here x r xs h f = record {
      before = [];
      after = xs;
      splits = refl;
      less_before = tt;
      le_after = rw f.splits (
          All-append (λ c. cmp x c ≢ gt) f.before (r ∷ f.after)
            (All-le_trans x r f.before h (All-lt_to_le r f.before f.less_before))
            (h, All-le_trans x r f.after h f.le_after));
    }

    insert_by-IsFirstLeast :
        (x : A) (xs ys : List A)
        → ((r : A) → head? ys ≡ some r → IsFirstLeast r xs)
        → (ys ≡ [] → xs ≡ [])
        → (r : A) → head? (insert_by x ys) ≡ some r
        → IsFirstLeast r (x ∷ xs)
    unfolding insert_by
    insert_by-IsFirstLeast x xs [] ih empty r h = record {
      before = [];
      after = [];
      splits = cc (empty refl, some-injective x r h);
      less_before = tt;
      le_after = tt;
    }
    insert_by-IsFirstLeast x xs (y ∷ ys) ih empty r h = elim (gt-cases (cmp x y)) [
      | inl le ↦
          subst (λ z. IsFirstLeast z (x ∷ xs)) (insert_by_head x r y ys le h)
            (IsFirstLeast-here x y xs le (ih y refl))
      | inr above ↦
          subst (λ z. IsFirstLeast z (x ∷ xs)) (insert_by_head' x r y ys above h)
            (IsFirstLeast-cons x y xs above (ih y refl))
    ]

    pub sort_by-nil : (l : List A) → sort_by l ≡ [] → l ≡ []
    unfolding sort_by
    sort_by-nil [] h = refl
    sort_by-nil (x ∷ xs) h = absurd (insert_by-ne-nil x (sort_by xs) h)

    -- The head of the sorted list is the first of the least elements: the sort is stable.
    pub sort_by-IsFirstLeast : (l : List A) (r : A) → head? (sort_by l) ≡ some r → IsFirstLeast r l
    unfolding sort_by
    sort_by-IsFirstLeast [] r h = cc
    sort_by-IsFirstLeast (x ∷ xs) r h =
        insert_by-IsFirstLeast x xs (sort_by xs) (sort_by-IsFirstLeast xs) (sort_by-nil xs) r h

    pub IsFirstLeast-All : (r : A) (l : List A) → IsFirstLeast r l → All (λ c. cmp r c ≢ gt) l
    IsFirstLeast-All r l f = rw f.splits (
        All-append (λ c. cmp r c ≢ gt) f.before (r ∷ f.after)
          (All-lt_to_le r f.before f.less_before) (ground (arith, p.cmp_swap r r), f.le_after))

    pub sort_by-total : (l : List A) → l ≢ [] → (r : A) × (head? (sort_by l) ≡ some r)
    sort_by-total l h = go (sort_by l) refl
      where
        go : (s : List A) → sort_by l ≡ s → (r : A) × (head? s ≡ some r)
        go [] e = absurd (h (sort_by-nil l e))
        go (x ∷ s) e = (x, refl)

module _ {ℓ} {A : Type ℓ} ⦃e : Eq A⦄ (cmp : Cmp A) where
  contains-insert_by :
      (x : A) (xs : List A) (a : A) → contains (insert_by cmp x xs) a ≡ (x == a || contains xs a)
  unfolding contains insert_by
  contains-insert_by x [] a = refl
  contains-insert_by x (y ∷ ys) a = ground (arith, contains-insert_by x ys a)

  pub contains-sort_by : (xs : List A) (a : A) → contains (sort_by cmp xs) a ≡ contains xs a
  unfolding contains sort_by
  contains-sort_by [] a = refl
  contains-sort_by (x ∷ xs) a =
      ground (arith, contains-insert_by x (sort_by cmp xs) a, contains-sort_by xs a)
