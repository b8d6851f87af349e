-- ===== src/Base/Table/Laws.antt =====
-- Appending a row, rewriting one and leaving some out, against the constraints of a table.
use jmapsyncd.Base.{
  ◌≡◌, refl, inl, inr, arith, Bool, true, false, ◌||◌, Option, none, some, List, [], ◌∷◌, ◌++◌,
  Text, ◌==◌, text_eq, keep, All, Bool-cases,
}
use jmapsyncd.Base.Table.{same_key, find, clashes, Distinct, others, replace, has}

module _ {ℓ} {A : Type ℓ} where
  clashes-append :
      (key : A → Option Text) (x y : A) (l : List A)
      → clashes key x l ≡ false
      → same_key (key x) (key y) ≡ false
      → clashes key x (l ++ (y ∷ [])) ≡ false
  unfolding clashes
  clashes-append key x y [] h k = ground arith
  clashes-append key x y (z ∷ l) h k = ground (arith, clashes-append key x y l)

  pub Distinct-append :
      (key : A → Option Text) (x : A) (l : List A)
      → Distinct key l
      → clashes key x l ≡ false
      → Distinct key (l ++ (x ∷ []))
  unfolding clashes
  Distinct-append key x [] d h = (refl, tt)
  Distinct-append key x (y ∷ l) d h =
      ground (arith, Distinct-append key x l d.1, clashes-append key y x l d.0)

  clashes-keep :
      (key : A → Option Text) (x : A) (p : A → Bool) (l : List A)
      → clashes key x l ≡ false
      → clashes key x (keep p l) ≡ false
  unfolding clashes keep
  clashes-keep key x p [] h = h
  clashes-keep key x p (y ∷ l) h = ground (arith, clashes-keep key x p l)

  pub Distinct-keep :
      (key : A → Option Text) (p : A → Bool) (l : List A) → Distinct key l → Distinct key (keep p l)
  unfolding keep
  Distinct-keep key p [] d = tt
  Distinct-keep key p (y ∷ l) d =
      ground (arith, Distinct-keep key p l d.1, clashes-keep key y p l d.0)

  pub All-keep {κ} : (P : A → Type κ) (p : A → Bool) (l : List A) → All P l → All P (keep p l)
  unfolding keep
  All-keep P p [] h = tt
  All-keep P p (y ∷ l) h = ground (arith, All-keep P p l h.1)

  has-clashes :
      (id : A → Text) (x : A) (l : List A)
      → clashes (λ y. some (id y)) x l ≡ false
      → has id l (id x) ≡ false
  unfolding clashes has
  has-clashes id x [] h = refl
  has-clashes id x (y ∷ l) h = ground (arith, has-clashes id x l)

  -- `PRIMARY KEY` fails exactly when the id is there.
  pub clashes-has :
      (id : A → Text) (x : A) (l : List A)
      → has id l (id x) ≡ false
      → clashes (λ y. some (id y)) x l ≡ false
  unfolding clashes has
  clashes-has id x [] h = refl
  clashes-has id x (y ∷ l) h = ground (arith, clashes-has id x l)

  replace_absent :
      (id : A → Text) (i : Text) (new : A) (l : List A)
      → has id l i ≡ false
      → replace id i new l ≡ l
  unfolding replace has
  replace_absent id i new [] h = refl
  replace_absent id i new (x ∷ l) h = ground (arith, replace_absent id i new l)

  others_absent : (id : A → Text) (i : Text) (l : List A) → has id l i ≡ false → others id i l ≡ l
  unfolding others has
  others_absent id i [] h = refl
  others_absent id i (x ∷ l) h = ground (arith, others_absent id i l)

  clashes-replace :
      (key : A → Option Text) (id : A → Text) (i : Text) (x new : A) (l : List A)
      → clashes key x l ≡ false
      → same_key (key x) (key new) ≡ false
      → clashes key x (replace id i new l) ≡ false
  unfolding clashes replace
  clashes-replace key id i x new [] h k = refl
  clashes-replace key id i x new (y ∷ l) h k = ground (arith, clashes-replace key id i x new l)

  has_gone :
      (id : A → Text) (i : Text) (x : A) (l : List A)
      → (id x == i) ≡ true
      → has id l (id x) ≡ false
      → has id l i ≡ false
  has_gone id i x l e h = ground arith

  clashes_hit :
      (key : A → Option Text) (id : A → Text) (new : A) (i : Text) (x : A) (l : List A)
      → (id x == i) ≡ true
      → has id l i ≡ false
      → clashes key new (others id i (x ∷ l)) ≡ false
      → clashes key new l ≡ false
  unfolding others
  clashes_hit key id new i x l e gone h = ground (arith, others_absent id i l gone)

  clashes_miss :
      (key : A → Option Text) (id : A → Text) (new : A) (i : Text) (x : A) (l : List A)
      → (id x == i) ≡ false
      → clashes key new (others id i (x ∷ l)) ≡ false
      → (same_key (key x) (key new) ≡ false) × (clashes key new (others id i l) ≡ false)
  unfolding others clashes
  clashes_miss key id new i x l e h = ground arith

  pub Distinct-replace :
      (key : A → Option Text) (id : A → Text) (new : A) (i : Text) (l : List A)
      → Distinct (λ y. some (id y)) l
      → Distinct key l
      → clashes key new (others id i l) ≡ false
      → Distinct key (replace id i new l)
  unfolding replace
  Distinct-replace key id new i [] ids d h = tt
  Distinct-replace key id new i (x ∷ l) ids d h = elim (Bool-cases (id x == i)) [
    | inl e ↦
        let gone = has_gone id i x l e (has-clashes id x l ids.0) in
        rw (e, replace_absent id i new l gone) (clashes_hit key id new i x l e gone h, d.1)
    | inr e ↦
        let m = clashes_miss key id new i x l e h in
        rw e
          (clashes-replace key id i x new l d.0 m.0, Distinct-replace key id new i l ids.1 d.1 m.1)
  ]

  pub has-replace :
      (id : A → Text) (i j : Text) (new : A) (l : List A)
      → id new ≡ i
      → has id (replace id i new l) j ≡ has id l j
  unfolding replace has
  has-replace id i j new [] h = refl
  has-replace id i j new (x ∷ l) h = ground (arith, has-replace id i j new l h)

  pub clashes-others :
      (id : A → Text) (i : Text) (new : A) (l : List A)
      → id new ≡ i
      → clashes (λ y. some (id y)) new (others id i l) ≡ false
  unfolding others clashes
  clashes-others id i new [] h = refl
  clashes-others id i new (x ∷ l) h = ground (arith, clashes-others id i new l h)

  pub has-append :
      (id : A → Text) (l m : List A) (j : Text) → has id (l ++ m) j ≡ (has id l j || has id m j)
  unfolding has
  has-append id [] m j = refl
  has-append id (x ∷ l) m j = ground (arith, has-append id l m j)

  pub find-append :
      (p : A → Bool) (l m : List A)
      → find p (l ++ m) ≡ elim (find p l) [ some x ↦ some x | none ↦ find p m ]
  unfolding find
  find-append p [] m = refl
  find-append p (x ∷ l) m = ground (arith, find-append p l m)
