-- ===== src/Base/BTreeMap.antt =====
-- `BTreeMap`: its entries in the order of their keys.
use jmapsyncd.Base.{◌≡◌, ◌≢◌, refl, arith, Option, none, some, List, [], ◌∷◌}
use jmapsyncd.Base.Order.{Ord, lt, eq, gt}

abbrev pub BTreeMap {ℓ κ} : Type ℓ → Type κ → Type (ℓ ⊔ κ)
BTreeMap K V = List (K × V)

module _ {ℓ κ} {K : Type ℓ} {V : Type κ} ⦃o : Ord K⦄ where
  unfoldable pub get : K → BTreeMap K V → Option V
  get k [] = none
  get k ((j, w) ∷ m) = elim (o.cmp k j) [ lt ↦ none | eq ↦ some w | gt ↦ get k m ]

  unfoldable pub insert : K → V → BTreeMap K V → BTreeMap K V
  insert k v [] = (k, v) ∷ []
  insert k v ((j, w) ∷ m) = elim (o.cmp k j) [
    | lt ↦ (k, v) ∷ (j, w) ∷ m
    | eq ↦ (k, v) ∷ m
    | gt ↦ (j, w) ∷ insert k v m
  ]

  unfoldable pub remove : K → BTreeMap K V → BTreeMap K V
  remove k [] = []
  remove k ((j, w) ∷ m) = elim (o.cmp k j) [ lt ↦ (j, w) ∷ m | eq ↦ m | gt ↦ (j, w) ∷ remove k m ]

  -- Every key of the map is greater than `k`.
  abbrev pub Above : K → BTreeMap K V → Type 0
  Above k [] = Unit
  Above k ((j, _) ∷ m) = (o.cmp k j ≡ lt) × Above k m

  abbrev pub IsSorted : BTreeMap K V → Type 0
  IsSorted [] = Unit
  IsSorted ((k, _) ∷ m) = Above k m × IsSorted m

  Above-trans : (j k : K) (m : BTreeMap K V) → o.cmp j k ≡ lt → Above k m → Above j m
  Above-trans j k [] h a = tt
  Above-trans j k ((i, _) ∷ m) h a = (o.lt_trans j k i h a.0, Above-trans j k m h a.1)

  pub get-Above : (k : K) (m : BTreeMap K V) → Above k m → get k m ≡ none
  unfolding get
  get-Above k [] a = refl
  get-Above k ((j, _) ∷ m) a = ground arith

  -- Below a bound that lies under all keys there is nothing.
  pub get-Above-below : (j i : K) (m : BTreeMap K V) → Above i m → o.cmp j i ≡ lt → get j m ≡ none
  get-Above-below j i m a h = get-Above j m (Above-trans j i m h a)

  pub get-insert_self : (k : K) (v : V) (m : BTreeMap K V) → get k (insert k v m) ≡ some v
  unfolding get insert
  get-insert_self k v [] = ground (arith, o.cmp_refl k)
  get-insert_self k v ((j, w) ∷ m) = ground (arith, o.cmp_refl k, get-insert_self k v m)

  pub get-insert_ne : (j k : K) (v : V) (m : BTreeMap K V) → j ≢ k → get j (insert k v m) ≡ get j m
  unfolding get insert
  get-insert_ne j k v [] h = ground (arith, o.eq_of_cmp j k)
  get-insert_ne j k v ((i, w) ∷ m) h = ground (
    arith,
    o.eq_of_cmp j k,
    o.eq_of_cmp k i,
    o.lt_trans j k i,
    o.cmp_swap j k,
    o.cmp_swap k i,
    o.cmp_swap j i,
    o.lt_trans k j i,
    get-insert_ne j k v m h,
  )

  pub get-remove_self : (k : K) (m : BTreeMap K V) → IsSorted m → get k (remove k m) ≡ none
  unfolding get remove
  get-remove_self k [] s = refl
  get-remove_self k ((j, w) ∷ m) s =
      ground (arith, o.eq_of_cmp k j, get-Above j m s.0, get-remove_self k m s.1)

  pub get-remove_ne :
      (j k : K) (m : BTreeMap K V) → IsSorted m → j ≢ k → get j (remove k m) ≡ get j m
  unfolding get remove
  get-remove_ne j k [] s h = refl
  get-remove_ne j k ((i, w) ∷ m) s h = ground (
    arith,
    o.eq_of_cmp j i,
    o.eq_of_cmp k i,
    o.cmp_refl k,
    get-Above-below j i m s.0,
    get-remove_ne j k m s.1 h,
  )

  Above-insert :
      (j k : K) (v : V) (m : BTreeMap K V) → o.cmp j k ≡ lt → Above j m → Above j (insert k v m)
  unfolding insert
  Above-insert j k v [] h a = (h, tt)
  Above-insert j k v ((i, w) ∷ m) h a = ground (arith, Above-insert j k v m h a.1)

  pub insert-IsSorted : (k : K) (v : V) (m : BTreeMap K V) → IsSorted m → IsSorted (insert k v m)
  unfolding insert
  insert-IsSorted k v [] s = (tt, tt)
  insert-IsSorted k v ((i, w) ∷ m) s = ground (
    arith,
    o.eq_of_cmp k i,
    o.cmp_swap k i,
    Above-trans k i m,
    Above-insert i k v m,
    insert-IsSorted k v m s.1,
  )

  Above-remove : (j k : K) (m : BTreeMap K V) → Above j m → Above j (remove k m)
  unfolding remove
  Above-remove j k [] a = tt
  Above-remove j k ((i, w) ∷ m) a = ground (arith, Above-remove j k m a.1)

  pub remove-IsSorted : (k : K) (m : BTreeMap K V) → IsSorted m → IsSorted (remove k m)
  unfolding remove
  remove-IsSorted k [] s = tt
  remove-IsSorted k ((i, w) ∷ m) s = ground (arith, Above-remove i k m s.0, remove-IsSorted k m s.1)

  heads_eq :
      (j k : K) (v w : V) (m n : BTreeMap K V)
      → ((i : K) → get i ((j, v) ∷ m) ≡ get i ((k, w) ∷ n))
      → (j ≡ k) × (v ≡ w)
  unfolding get
  heads_eq j k v w m n h =
      ground (arith, h j, h k, o.cmp_swap j k, o.cmp_refl j, o.cmp_refl k, o.eq_of_cmp j k)

  tails_eq :
      (j : K) (v : V) (m n : BTreeMap K V)
      → Above j m
      → Above j n
      → (i : K) → get i ((j, v) ∷ m) ≡ get i ((j, v) ∷ n)
      → get i m ≡ get i n
  unfolding get
  tails_eq j v m n a b i h = ground (
    arith,
    o.eq_of_cmp i j,
    get-Above j m a,
    get-Above j n b,
    get-Above-below i j m a,
    get-Above-below i j n b,
  )

  cons_ext :
      (j k : K) (v w : V) (m n : BTreeMap K V)
      → j ≡ k
      → v ≡ w
      → m ≡ n
      → ◌≡◌ {A = BTreeMap K V} ((j, v) ∷ m) ((k, w) ∷ n)
  cons_ext j k v w m n p q r = cc

  -- Two ordered maps that answer alike are one list.
  pub get_ext :
      (m n : BTreeMap K V) → IsSorted m → IsSorted n → ((k : K) → get k m ≡ get k n) → m ≡ n
  unfolding get
  get_ext [] [] s t h = refl
  get_ext [] ((k, v) ∷ n) s t h = ground (arith, h k, o.cmp_refl k)
  get_ext ((k, v) ∷ m) [] s t h = ground (arith, h k, o.cmp_refl k)
  get_ext ((j, v) ∷ m) ((k, w) ∷ n) s t h =
      let e = heads_eq j k v w m n h in
      cons_ext j k v w m n e.0 e.1 (
        get_ext m n s.1 t.1 (λ i. tails_eq j v m n s.0 (rw e.0 t.0) i (rw (← e.0, ← e.1) at (h i))))
