-- ===== src/Base/Dict.antt =====
-- `HashMap`: an association list, with one entry for a key. Its order shows in nothing that the
-- program computes but the order of an iteration.
use jmapsyncd.Base.{◌≡◌, refl, arith, Option, none, some, List, [], ◌∷◌, Eq, ◌==◌, if◌then◌else◌}

abbrev pub Dict {ℓ κ} : Type ℓ → Type κ → Type (ℓ ⊔ κ)
Dict K V = List (K × V)

module _ {ℓ κ} {K : Type ℓ} {V : Type κ} ⦃e : Eq K⦄ where
  unfoldable pub get : K → Dict K V → Option V
  get k [] = none
  get k ((j, v) ∷ d) = if k == j then some v else get k d

  unfoldable pub insert : K → V → Dict K V → Dict K V
  insert k v [] = (k, v) ∷ []
  insert k v ((j, w) ∷ d) = if k == j then (k, v) ∷ d else (j, w) ∷ insert k v d

  -- Every entry of the key goes.
  unfoldable pub remove : K → Dict K V → Dict K V
  remove k [] = []
  remove k ((j, w) ∷ d) = let rest = remove k d in if k == j then rest else (j, w) ∷ rest

  pub get-insert :
      (j k : K) (v : V) (d : Dict K V) → get j (insert k v d) ≡ (if j == k then some v else get j d)
  unfolding get insert
  get-insert j k v [] = refl
  get-insert j k v (_ ∷ d) = ground (arith, get-insert j k v d)

  pub get-remove :
      (j k : K) (d : Dict K V) → get j (remove k d) ≡ (if j == k then none else get j d)
  unfolding get remove
  get-remove j k [] = ground arith
  get-remove j k (_ ∷ d) = ground (arith, get-remove j k d)
