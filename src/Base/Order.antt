-- ===== src/Base/Order.antt =====
-- The trait `Ord` with its laws, for the keys of ordered maps and for sorting.
use Prim.Native.Nat.{compare, Ordering}
use jmapsyncd.Base.{ℕ, [], ◌∷◌, ◌≡◌, ◌≢◌, refl, sym, ap, arith, Text}
pub use Prim.Native.Nat.Ordering.{lt, eq, gt}

abbrev pub Cmp {ℓ} : Type ℓ → Type ℓ
Cmp K = K → K → Ordering

abbrev pub swap : Ordering → Ordering
swap lt = gt
swap eq = eq
swap gt = lt

-- `Ordering::then`
abbrev pub then_cmp : Ordering → Ordering → Ordering
then_cmp lt second = lt
then_cmp eq second = second
then_cmp gt second = gt

-- What sorting needs of a comparison: it is total and transitive.
pub record IsPreorder {ℓ} {K : Type ℓ} (cmp : Cmp K) : Type ℓ where
  pub cmp_swap : (a b : K) → cmp b a ≡ swap (cmp a b)
  pub eq_trans : (a b c : K) → cmp a b ≡ eq → cmp b c ≡ cmp a c
  pub lt_trans : (a b c : K) → cmp a b ≡ lt → cmp b c ≡ lt → cmp a c ≡ lt

-- A lawful `Ord`: besides, only equal values compare as equal.
pub record Ord {ℓ} (K : Type ℓ) : Type ℓ where
  pub cmp : Cmp K
  pub preorder : IsPreorder cmp
  pub open preorder use *
  pub cmp_refl : (a : K) → cmp a a ≡ eq
  pub eq_of_cmp : (a b : K) → cmp a b ≡ eq → a ≡ b

module _ {ℓ} {K : Type ℓ} {cmp : Cmp K} (p : IsPreorder cmp) where
  -- `≤` is transitive, from the three laws.
  pub le_trans_cmp : (a b c : K) → cmp a b ≢ gt → cmp b c ≢ gt → cmp a c ≢ gt
  le_trans_cmp a b c h k = ground (
    arith,
    p.eq_trans a b c,
    p.lt_trans a b c,
    p.eq_trans c b a,
    p.cmp_swap a b,
    p.cmp_swap b c,
    p.cmp_swap a c,
  )

module _ {ℓ κ} {K : Type ℓ} {A : Type κ} {cmp : Cmp K} (f : A → K) (p : IsPreorder cmp) where
  -- Comparing by a key.
  pub by_key-IsPreorder : IsPreorder (λ a b. cmp (f a) (f b))
  by_key-IsPreorder = record {
    cmp_swap = λ a b. p.cmp_swap (f a) (f b);
    eq_trans = λ a b c. p.eq_trans (f a) (f b) (f c);
    lt_trans = λ a b c. p.lt_trans (f a) (f b) (f c);
  }

module _ {ℓ} {K : Type ℓ} {cmp cmp' : Cmp K} (p : IsPreorder cmp) (q : IsPreorder cmp') where
  -- Comparing by one order, and by another where the first ties.
  pub then-IsPreorder : IsPreorder (λ a b. then_cmp (cmp a b) (cmp' a b))
  then-IsPreorder = record {
    cmp_swap = λ a b. ground (arith, p.cmp_swap a b, q.cmp_swap a b);
    eq_trans = λ a b c. ground (arith, p.eq_trans a b c, q.eq_trans a b c);
    lt_trans = λ a b c. ground (
      arith,
      p.eq_trans a b c,
      p.lt_trans a b c,
      q.lt_trans a b c,
      p.eq_trans c b a,
      p.cmp_swap a b,
      p.cmp_swap b c,
      p.cmp_swap a c,
    );
  }

pub compare-IsPreorder : IsPreorder compare
compare-IsPreorder = ground arith

pub compare_refl : (a : ℕ) → compare a a ≡ eq
compare_refl a = ground arith

pub eq_of_compare : (a b : ℕ) → compare a b ≡ eq → a ≡ b
eq_of_compare a b h = ground arith

instance abbrev pub nat_ord : Ord ℕ
nat_ord = record {
  cmp = compare;
  preorder = compare-IsPreorder;
  cmp_refl = compare_refl;
  eq_of_cmp = eq_of_compare;
}

-- Texts compare byte by byte.
unfoldable pub cmp_text : Text → Text → Ordering
cmp_text [] [] = eq
cmp_text [] (y ∷ ys) = lt
cmp_text (x ∷ xs) [] = gt
cmp_text (x ∷ xs) (y ∷ ys) = then_cmp (compare x y) (cmp_text xs ys)

cmp_text-swap : (a b : Text) → cmp_text b a ≡ swap (cmp_text a b)
unfolding cmp_text
cmp_text-swap [] [] = refl
cmp_text-swap [] (y ∷ ys) = refl
cmp_text-swap (x ∷ xs) [] = refl
cmp_text-swap (x ∷ xs) (y ∷ ys) = ground (arith, cmp_text-swap xs ys)

pub cmp_text_refl : (a : Text) → cmp_text a a ≡ eq
unfolding cmp_text
cmp_text_refl [] = refl
cmp_text_refl (x ∷ xs) = ground (arith, cmp_text_refl xs)

pub eq_of_cmp_text : (a b : Text) → cmp_text a b ≡ eq → a ≡ b
unfolding cmp_text
eq_of_cmp_text [] [] h = refl
eq_of_cmp_text [] (y ∷ ys) h = cc
eq_of_cmp_text (x ∷ xs) [] h = cc
eq_of_cmp_text (x ∷ xs) (y ∷ ys) h = ground (arith, eq_of_cmp_text xs ys)

cmp_text-lt_trans : (a b c : Text) → cmp_text a b ≡ lt → cmp_text b c ≡ lt → cmp_text a c ≡ lt
unfolding cmp_text
cmp_text-lt_trans [] (y ∷ ys) (z ∷ zs) h k = refl
cmp_text-lt_trans [] [] c h k = cc
cmp_text-lt_trans [] (y ∷ ys) [] h k = cc
cmp_text-lt_trans (x ∷ xs) [] c h k = cc
cmp_text-lt_trans (x ∷ xs) (y ∷ ys) [] h k = cc
cmp_text-lt_trans (x ∷ xs) (y ∷ ys) (z ∷ zs) h k = ground (arith, cmp_text-lt_trans xs ys zs)

cmp_text-eq_trans : (a b c : Text) → cmp_text a b ≡ eq → cmp_text b c ≡ cmp_text a c
cmp_text-eq_trans a b c h = ap (λ t. cmp_text t c) (sym (eq_of_cmp_text a b h))

pub cmp_text-IsPreorder : IsPreorder cmp_text
cmp_text-IsPreorder = record {
  cmp_swap = cmp_text-swap;
  eq_trans = cmp_text-eq_trans;
  lt_trans = cmp_text-lt_trans;
}

instance unfoldable pub text_ord : Ord Text
unfolding cmp_text
text_ord = record {
  cmp = cmp_text;
  preorder = cmp_text-IsPreorder;
  cmp_refl = cmp_text_refl;
  eq_of_cmp = eq_of_cmp_text;
}
