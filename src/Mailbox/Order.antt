-- ===== src/Mailbox/Order.antt =====
-- src/sync/mailbox.rs: `topo_sort_creates_and_updates`. The sets are lists whose order is
-- arbitrary.
pub mod Emitted
pub mod ParentsFirst
use jmapsyncd.Base.{
  ℕ, zero, suc, Bool, true, false, not, ◌||◌, Option, none, some, List, [], ◌∷◌, ◌++◌, map, Text,
  ◌==◌, text_eq, contains, keep, length, if◌then◌else◌,
}
use jmapsyncd.Base.Dict
use jmapsyncd.Base.Dict.{Dict}
use jmapsyncd.Mailbox.Target.{TargetMailbox}

abbrev pub keys : {A : Type 0} → Dict Text A → List Text
keys d = map (λ e. e.0) d

abbrev pub is_some : {A : Type 0} → Option A → Bool
is_some none = false
is_some (some a) = true

module _ (target : Dict Text TargetMailbox) where
  -- `match &tgt.parent_jmap_id`, for `target[jmap_id]`
  abbrev pub parent_of_target : Option TargetMailbox → Option Text
  parent_of_target none = none
  parent_of_target (some tgt) = tgt.parent_jmap_id

  abbrev pub parent : Text → Option Text
  parent jmap_id = parent_of_target (Dict.get jmap_id target)

  abbrev pub parent_ready : List Text → Option Text → Bool
  parent_ready emitted none = true
  parent_ready emitted (some pid) = contains emitted pid || not (is_some (Dict.get pid target))

  unfoldable pub is_ready : List Text → Text → Bool
  is_ready emitted jmap_id = parent_ready emitted (parent jmap_id)

  -- The loop on fuel: what is ready joins `emitted` and `order` and leaves `remaining`.
  unfoldable pub emit : ℕ → List Text → List Text → List Text → Option (List Text)
  emit zero remaining emitted order = none
  emit (suc fuel) remaining emitted order =
      let ready = keep (is_ready emitted) remaining in
      let remaining' = keep (λ id. not (is_ready emitted id)) remaining in
      elim ready [
        | [] ↦ some (order ++ remaining)
        | r ∷ rs ↦ elim remaining' [
          | [] ↦ some (order ++ (r ∷ rs))
          | m ∷ ms ↦ emit fuel (m ∷ ms) (emitted ++ (r ∷ rs)) (order ++ (r ∷ rs))
        ]
      ]

-- Each turn of the loop but the last takes something out of `remaining`.
unfoldable pub topo_sort_creates_and_updates :
    {A : Type 0} → Dict Text TargetMailbox → Dict Text A → Option (List Text)
topo_sort_creates_and_updates target local_by_jmap =
    emit target (suc (length target)) (keys target) (keys local_by_jmap) []
