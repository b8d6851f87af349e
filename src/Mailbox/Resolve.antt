-- ===== src/Mailbox/Resolve.antt =====
-- src/sync/mailbox.rs: `resolve_path`, the path of a mailbox from the names of its ancestors.
pub mod Terminates
use jmapsyncd.Base.{
  ℕ, zero, suc, Bool, true, false, Option, none, some, List, [], ◌∷◌, ◌++◌, Text, ◌==◌, text_eq,
  nat_eq, contains, if◌then◌else◌,
}
use jmapsyncd.Base.Dict
use jmapsyncd.Base.Dict.{Dict}
use jmapsyncd.Base.Result.{Result, ok, err, ◌>>=◌}
use jmapsyncd.World.{
  Mailbox, Error, no_mailbox_id, no_mailbox_name, parent_cycle, unknown_parent, out_of_fuel,
}

-- `s.replace('/', "_")`
unfoldable pub sanitize_segment : Text → Text
sanitize_segment [] = []
sanitize_segment (c ∷ s) = (if c == b'/' then b'_' else c) ∷ sanitize_segment s

-- `segments.join("/")`
unfoldable pub join_segments : List Text → Text
join_segments [] = []
join_segments (s ∷ []) = s
join_segments (s ∷ t ∷ ss) = s ++ (b'/' ∷ join_segments (t ∷ ss))

abbrev pub mapped_name : Dict Text Text → Text → Text
mapped_name name_map raw = elim (Dict.get raw name_map) [ none ↦ raw | some local ↦ local ]

abbrev pub or_error {ℓ} : {A : Type ℓ} → Error → Option A → Result Error A
or_error e none = err e
or_error e (some a) = ok a

-- `seen.insert(id)`
abbrev pub mark_seen : List Text → Text → Result Error (List Text)
mark_seen seen id = if contains seen id then err parent_cycle else ok (id ∷ seen)

module _ (by_jmap_id : Dict Text Mailbox) (name_map : Dict Text Text) where
  -- The loop on fuel. `segments` holds the names below the current mailbox; the source pushes at
  -- the end and reverses.
  unfoldable pub segments_from : ℕ → Mailbox → List Text → List Text → Result Error (List Text)
  segments_from zero current seen segments = err out_of_fuel
  segments_from (suc fuel) current seen segments = do
    id ← or_error no_mailbox_id current.id
    seen' ← mark_seen seen id
    raw ← or_error no_mailbox_name current.name
    let segments' = sanitize_segment (mapped_name name_map raw) ∷ segments
    elim current.parent_id [
      | none ↦ ok segments'
      | some parent_id ↦ elim (Dict.get parent_id by_jmap_id) [
        | none ↦ err unknown_parent
        | some parent ↦ segments_from fuel parent seen' segments'
      ]
    ]

  unfoldable pub resolve_path : ℕ → Mailbox → Result Error Text
  resolve_path fuel mailbox = do
    segments ← segments_from fuel mailbox [] []
    ok (join_segments segments)
