-- ===== src/Base/Int.antt =====
-- `i64` as integers over the native numbers: their order, and their decimal text.
use Prim.Native.Nat.{compare}
use native.Mathlib.Nat.{pow-suc}
use native.Mathlib.Decide.{ℕ_discrete}
use jmapsyncd.Base.{
  ◌*◌, ◌^◌, ap, ◌∙◌, inl, inr, Bool-cases, ℕ, zero, suc, ◌+◌, ◌-◌, ◌/◌, ◌%◌, ◌<◌, ◌≡◌, refl, arith,
  Bool, true, false, ◌&&◌, ◌||◌, [], ◌∷◌, Text, nat_eq, Eq, contains, ltb, if◌then◌else◌,
}
use jmapsyncd.Base.Order.{Cmp, IsPreorder, swap, lt, eq, gt}

-- `negsuc n` is -(n + 1).
pub data ℤ : Type 0 where
  pos : ℕ → ℤ
  negsuc : ℕ → ℤ

int_dec : Discrete ℤ
int_dec = hlevel ℕ_discrete

instance unfoldable pub int_eq : Eq ℤ
unfolding int_dec ℕ_discrete
int_eq = record { dec = int_dec }

unfoldable pub cmp_ℤ : Cmp ℤ
cmp_ℤ (pos a) (pos b) = compare a b
cmp_ℤ (pos a) (negsuc b) = gt
cmp_ℤ (negsuc a) (pos b) = lt
cmp_ℤ (negsuc a) (negsuc b) = compare b a

cmp_ℤ-swap : (a b : ℤ) → cmp_ℤ b a ≡ swap (cmp_ℤ a b)
unfolding cmp_ℤ
cmp_ℤ-swap a b = ground arith

cmp_ℤ-eq_trans : (a b c : ℤ) → cmp_ℤ a b ≡ eq → cmp_ℤ b c ≡ cmp_ℤ a c
unfolding cmp_ℤ
cmp_ℤ-eq_trans a b c h = ground arith

cmp_ℤ-lt_trans : (a b c : ℤ) → cmp_ℤ a b ≡ lt → cmp_ℤ b c ≡ lt → cmp_ℤ a c ≡ lt
unfolding cmp_ℤ
cmp_ℤ-lt_trans a b c h k = ground arith

pub cmp_ℤ-IsPreorder : IsPreorder cmp_ℤ
cmp_ℤ-IsPreorder = record {
  cmp_swap = cmp_ℤ-swap;
  eq_trans = cmp_ℤ-eq_trans;
  lt_trans = cmp_ℤ-lt_trans;
}

-- The decimal digits of a number below `10 ^ fuel`, in front of what is written already.
digits : ℕ → ℕ → Text → Text
digits zero n out = out
digits (suc fuel) n out =
    let digit = (48 + n % 10) ∷ out in
    let more = digits fuel (n / 10) digit in if ltb n 10 then digit else more

-- An `i64` has 19 digits at most.
unfoldable pub show_ℤ : ℤ → Text
unfolding digits
show_ℤ (pos n) = digits 20 n []
show_ℤ (negsuc n) = b'-' ∷ digits 20 (n + 1) []

-- The number that a decimal text stands for, behind the digits read so far.
abbrev value : ℕ → Text → ℕ
value acc [] = acc
value acc (c ∷ cs) = value (acc * 10 + (c - 48)) cs

-- The fuel is enough: no digit is lost.
value-digits :
    (fuel n : ℕ) (out : Text) → n < 10 ^ suc fuel → value 0 (digits (suc fuel) n out) ≡ value n out
unfolding digits
value-digits zero n out h = ground arith
value-digits (suc fuel) n out h = elim (Bool-cases (ltb n 10)) [
  | inl e ↦ rw e (ap (λ (a : ℕ). value a out) (ground arith))
  | inr e ↦ rw e (
      value-digits fuel (n / 10) ((48 + n % 10) ∷ out) (omega (arith, pow-suc 10 (suc fuel)))
      ∙ ap (λ (a : ℕ). value a out) (omega arith))
]

pub value-show_ℤ : (n : ℕ) → n < 2 ^ 63 → value 0 (show_ℤ (pos n)) ≡ n
unfolding show_ℤ
value-show_ℤ n h = value-digits 19 n [] (omega arith)

-- No digit and no sign.
abbrev pub is_other : ℕ → Bool
is_other c = ltb 45 c && ltb c 48 || ltb 57 c

contains-digits :
    (fuel n : ℕ) (out : Text) (c : ℕ)
    → is_other c ≡ true
    → contains out c ≡ false
    → contains (digits fuel n out) c ≡ false
unfolding digits contains
contains-digits zero n out c h k = k
contains-digits (suc fuel) n out c h k =
    ground (arith, contains-digits fuel (n / 10) ((48 + n % 10) ∷ out) c h)

pub contains-show_ℤ : (z : ℤ) (c : ℕ) → is_other c ≡ true → contains (show_ℤ z) c ≡ false
unfolding show_ℤ contains
contains-show_ℤ (pos n) c h = contains-digits 20 n [] c h refl
contains-show_ℤ (negsuc n) c h = ground (arith, contains-digits 20 (n + 1) [] c h refl)
