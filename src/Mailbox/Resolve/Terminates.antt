-- ===== src/Mailbox/Resolve/Terminates.antt =====
-- src/sync/mailbox.rs: `resolve_path` ends on every tree of mailboxes, also on one with a cycle.
use jmapsyncd.Base.{
  ℕ, zero, suc, ◌≤◌, ◌<◌, ◌≡◌, ◌≢◌, refl, inl, inr, arith, false, not, Option, none, some, List, [],
  ◌∷◌, Text, text_eq, option_eq, length, contains, keep, Bool-cases, Option-cases,
}
use jmapsyncd.Base.Dict
use jmapsyncd.Base.Dict.{Dict}
use jmapsyncd.Base.Result.{Result, ok, err, ◌>>=◌}
use jmapsyncd.Mailbox.Resolve.{
  mapped_name, sanitize_segment, join_segments, segments_from, resolve_path,
}
use jmapsyncd.World.{Mailbox, Error, unknown_parent, out_of_fuel}

-- Each mailbox stands under its own id.
abbrev pub Indexed : Dict Text Mailbox → Type 0
Indexed d = (k : Text) (m : Mailbox) → Dict.get k d ≡ some m → m.id ≡ some k

-- How many ids have not been seen yet.
abbrev unseen : List Text → Dict Text Mailbox → ℕ
unseen seen d = length (keep (λ (e : Text × Mailbox). not (contains seen e.0)) d)

unseen-le :
    (seen : List Text) (id : Text) (d : Dict Text Mailbox) → unseen (id ∷ seen) d ≤ unseen seen d
unfolding keep contains
unseen-le seen id [] = omega arith
unseen-le seen id (e ∷ d) = ground (arith, unseen-le seen id d)

unseen-lt :
    (seen : List Text) (id : Text) (d : Dict Text Mailbox) (m : Mailbox)
    → Dict.get id d ≡ some m
    → contains seen id ≡ false
    → unseen (id ∷ seen) d < unseen seen d
unfolding keep contains Dict.get
unseen-lt seen id [] m h c = ground (arith, h)
unseen-lt seen id (e ∷ d) m h c = ground (arith, h, c, unseen-lt seen id d m, unseen-le seen id d)

unseen-nil : (d : Dict Text Mailbox) → unseen [] d ≡ length d
unfolding keep contains
unseen-nil [] = refl
unseen-nil (e ∷ d) = omega (arith, unseen-nil d)

err-of-map :
    {A B : Type 0} (r : Result Error A) (f : A → B) (e : Error)
    → (r >>= λ a. ok (f a)) ≡ err e
    → r ≡ err e
err-of-map (ok a) f e h = cc
err-of-map (err x) f e h = ground (arith, h)

module _ (d : Dict Text Mailbox) (name_map : Dict Text Text) (indexed : Indexed d) where
  abbrev Ends : ℕ → Mailbox → List Text → List Text → Type 0
  Ends fuel m seen segments = segments_from d name_map fuel m seen segments ≢ err out_of_fuel

  -- The step to the parent, once a mailbox is marked.
  up :
      (fuel : ℕ) (parent_id : Option Text) (seen segments : List Text)
      → ((k : Text) (m : Mailbox) → Dict.get k d ≡ some m → Ends fuel m seen segments)
      → elim parent_id [
        | none ↦ ok segments
        | some pid ↦ elim (Dict.get pid d) [
          | none ↦ err unknown_parent
          | some parent ↦ segments_from d name_map fuel parent seen segments
        ]
      ]
        ≢ err out_of_fuel
  up fuel none seen segments k h = ground (arith, h)
  up fuel (some pid) seen segments k h = elim (Option-cases (Dict.get pid d)) [
    | inl e ↦ ground (arith, rw e at h)
    | inr (m, e) ↦ k pid m e (rw e at h)
  ]

  step :
      (fuel : ℕ) (m : Mailbox) (seen segments : List Text)
      → ((id : Text)
          → m.id ≡ some id
          → contains seen id ≡ false
          → (k : Text) (p : Mailbox) (s : List Text) → Dict.get k d ≡ some p
          → Ends fuel p (id ∷ seen) s)
      → Ends (suc fuel) m seen segments
  unfolding segments_from
  step fuel m seen segments k h = elim (Option-cases m.id) [
    | inl e ↦ ground (arith, rw e at h)
    | inr (id, e) ↦ elim (Bool-cases (contains seen id)) [
      | inl c ↦ ground (arith, rw (e, c) at h)
      | inr c ↦ elim (Option-cases m.name) [
        | inl n ↦ ground (arith, rw (e, c, n) at h)
        | inr (raw, n) ↦
            let s = sanitize_segment (mapped_name name_map raw) ∷ segments in
            up fuel m.parent_id (id ∷ seen) s (λ j p q. k id e c j p s q) (rw (e, c, n) at h)
      ]
    ]
  ]

  -- A stored mailbox takes one unit of fuel for each id that has not been seen.
  stored :
      (fuel : ℕ) (id : Text) (m : Mailbox) (seen segments : List Text)
      → Dict.get id d ≡ some m
      → unseen seen d < fuel
      → Ends fuel m seen segments
  stored zero id m seen segments e h = ground (arith, h)
  stored (suc fuel) id m seen segments e h = step fuel m seen segments λ i ie c k p s pe.
      stored fuel k p (i ∷ seen) s pe (
        let q : id ≡ i = ground (arith, ie, indexed id m e) in
        omega (arith, h, unseen-lt seen i d m (rw q at e) c))

  -- With two units of fuel more than there are mailboxes, finding the path of a mailbox never ends
  -- for want of fuel, also when the parents form a cycle.
  pub resolve_path_terminates :
      (m : Mailbox) → resolve_path d name_map (suc (suc (length d))) m ≢ err out_of_fuel
  unfolding resolve_path
  resolve_path_terminates m h =
      step (suc (length d)) m [] []
        (λ i ie c k p s pe.
          stored (suc (length d)) k p (i ∷ []) s pe (omega (arith, unseen-nil d, unseen-le [] i d)))
        (err-of-map (segments_from d name_map (suc (suc (length d))) m [] []) join_segments
          out_of_fuel h)
