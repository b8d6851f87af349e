-- ===== src/Base/Table.antt =====
-- A table as the list of its rows: what `UNIQUE`, `REFERENCES`, `UPDATE … WHERE id = ?` and
-- `DELETE … WHERE` mean for it.
pub mod Laws
use jmapsyncd.Base.{
  ℕ, ◌≡◌, ◌≢◌, refl, ◌∙◌, sym, ap, inl, inr, arith, Bool, true, false, not, ◌||◌, ◌&&◌, Option,
  none, some, List, [], ◌∷◌, ◌++◌, map, Text, ◌==◌, text_eq, any, keep, All, if◌then◌else◌,
  Bool-cases,
}

-- Equal in the sense of `UNIQUE`: a NULL is like nothing.
abbrev pub same_key : Option Text → Option Text → Bool
same_key none _ = false
same_key (some a) none = false
same_key (some a) (some b) = a == b

module _ {ℓ} {A : Type ℓ} where
  -- The first row that a query returns.
  unfoldable pub find : (A → Bool) → List A → Option A
  find p [] = none
  find p (x ∷ xs) = if p x then some x else find p xs

  -- `UNIQUE` fails for a row against these.
  unfoldable pub clashes : (A → Option Text) → A → List A → Bool
  unfolding any
  clashes key x = any (λ y. same_key (key x) (key y))

  abbrev pub Distinct : (A → Option Text) → List A → Type 0
  Distinct key [] = Unit
  Distinct key (x ∷ xs) = (clashes key x xs ≡ false) × Distinct key xs

  -- The rows that `WHERE id = ?` leaves out.
  unfoldable pub others : (A → Text) → Text → List A → List A
  unfolding keep
  others id i = keep (λ y. not (id y == i))

  -- `UPDATE … WHERE id = ?`
  unfoldable pub replace : (A → Text) → Text → A → List A → List A
  replace id i new [] = []
  replace id i new (x ∷ xs) = (if id x == i then new else x) ∷ replace id i new xs

  unfoldable pub has : (A → Text) → List A → Text → Bool
  unfolding any
  has id l i = any (λ y. id y == i) l
