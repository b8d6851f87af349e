-- ===== src/Daemon/Outbox/DragBack.antt =====
-- src/daemon/submit.rs: the way back from Failed to the Outbox.
use jmapsyncd.Base.{
  ℕ, ◌≡◌, ◌≢◌, refl, sym, ap, ◌∙◌, arith, false, not, none, some, [], ◌∷◌, Text, text, ◌==◌,
  ==_refl, text_eq, nat_eq, ltb, ◌-◌, contains, contains-keep, starts_with, inl, inr, Bool-cases,
  eq_of_==,
}
use jmapsyncd.Base.Dict
use jmapsyncd.Base.Dict.{Dict, get-insert, get-remove}
use jmapsyncd.Daemon.Headers.{strip_family2_headers}
use jmapsyncd.Daemon.RetrySchedule.Agrees.{Agrees, schedule-Agrees}
use jmapsyncd.Daemon.Outbox.{
  OutboxEvent, outbox, failed, create_or_rename_to, rename_from, PendingRename, Watched, set_remove,
  drag_back, paired, arrive, dispatch, handle_event, expire_pending_renames, rename_pair_window,
}
use jmapsyncd.Daemon.Outbox.Expired.{Distinct, expire_pending_renames_lem}
use jmapsyncd.Daemon.Sidecar.{
  Host, SidecarState, sidecar_path, tmp_neighbour, load, save, reset_sidecar_for_retry,
  strip_family2_headers_in_place,
}
use jmapsyncd.Daemon.Sidecar.Working.{
  IsWorking, Prints, IsApart, load-saved, load_congr, save_other, read-strip, strip_other,
}
use jmapsyncd.Daemon.Submission.{strip_flags}

-- A sidecar without its attempts.
abbrev pub fresh : SidecarState → SidecarState
fresh s = record s { retry = none; in_flight = none }

-- A file leaves Failed, or comes to the Outbox.
abbrev pub leaves_failed : Text → Text → Text → OutboxEvent
leaves_failed path name subdir = record {
  side = failed;
  path = path;
  file_name = some name;
  subdir = subdir;
  kind = rename_from;
}

abbrev pub comes_to_outbox : Text → Text → Text → OutboxEvent
comes_to_outbox path name subdir = record {
  side = outbox;
  path = path;
  file_name = some name;
  subdir = subdir;
  kind = create_or_rename_to;
}

get-insert_ne :
    (j k : Text) (p : PendingRename) (d : Dict Text PendingRename)
    → Dict.get j d ≡ none
    → (k == j) ≡ false
    → Dict.get j (Dict.insert k p d) ≡ none
get-insert_ne j k p d h n = get-insert j k p d ∙ ground (arith, h, n)

Distinct-insert :
    (k : Text) (p : PendingRename) (d : Dict Text PendingRename)
    → Distinct d
    → Distinct (Dict.insert k p d)
unfolding Dict.insert Dict.get
Distinct-insert k p [] u = (refl, tt)
Distinct-insert k p ((j, q) ∷ d) u =
    let rest = Distinct-insert k p d u.1 in
    elim (Bool-cases (k == j)) [
      | inl h ↦ rw h (rw (eq_of_== k j h) u.0, u.1)
      | inr h ↦ rw h (get-insert_ne j k p d u.0 h, rest)
    ]

module _ (H : Host) (dir : Text) where
  drag_back-disk :
      (path basename bytes : Text) (d : H.State)
      → IsWorking H
      → Prints H (fresh (load H dir basename d))
      → IsApart dir basename path
      → tmp_neighbour path ≢ sidecar_path dir basename
      → H.read d path ≡ some bytes
      → let e =
          reset_sidecar_for_retry H dir basename (strip_family2_headers_in_place H path d).1 in
        (H.read e path ≡ some (strip_family2_headers bytes))
        × (load H dir basename e ≡ fresh (load H dir basename d))
  unfolding reset_sidecar_for_retry
  drag_back-disk path basename bytes d works prints apart aside r =
      let v = (strip_family2_headers_in_place H path d).1 in
      let kept = load_congr H works dir basename v d (
        strip_other H works path bytes (sidecar_path dir basename) d r aside
          (λ e. apart.1 (sym e))) in
      (
        save_other H works (fresh (load H dir basename v)) dir basename path v apart
            ∙ read-strip H works path bytes d r,
        ap (λ (s : SidecarState). load H dir basename (save H (fresh s) dir basename v).1) kept
            ∙ load-saved H works (fresh (load H dir basename d)) dir basename v prints,
      )

  -- A message leaves Failed, the loop sweeps at most 500 milliseconds later, and the message comes
  -- to the Outbox. On a disk without errors, it is then no longer a known failure, waits for no
  -- rename and is due at once; its file reads without the headers of the failure, and its sidecar
  -- is loaded without attempts and not in flight, and otherwise as before. The names that wait for
  -- a rename are distinct, the new sidecar is printed and parsed back, and its file and the message
  -- are different files.
  pub handle_event-drag_back :
      (before mid now : ℕ) (f from path subdir subdir' bytes : Text) (w : Watched H)
      → starts_with f (text ".") ≡ false
      → Agrees w.retry_queue
      → Distinct w.pending_renames
      → ltb rename_pair_window (mid - before) ≡ false
      → IsWorking H
      → Prints H (fresh (load H dir (strip_flags f) w.disk))
      → IsApart dir (strip_flags f) path
      → tmp_neighbour path ≢ sidecar_path dir (strip_flags f)
      → H.read w.disk path ≡ some bytes
      → let left = handle_event H dir before (leaves_failed from f subdir) w in
        let swept = expire_pending_renames H dir mid left in
        let back = handle_event H dir now (comes_to_outbox path f subdir') swept in
        (contains back.known_failures (strip_flags f) ≡ false)
        × (Dict.get (strip_flags f) back.pending_renames ≡ none)
        × (Dict.get (strip_flags f) back.retry_queue.index ≡ some now)
        × (H.read back.disk path ≡ some (strip_family2_headers bytes))
        × (load H dir (strip_flags f) back.disk ≡ fresh (load H dir (strip_flags f) w.disk))
  unfolding handle_event dispatch arrive paired drag_back set_remove
  handle_event-drag_back before mid now f from path subdir subdir' bytes w h a u in_time works
        prints apart aside r =
      let b = strip_flags f in
      let p : PendingRename = record { side = failed; seen_at = before } in
      let left : Watched H = record w { pending_renames = Dict.insert b p w.pending_renames } in
      let swept = expire_pending_renames H dir mid left in
      let (disk, queue, renames, failures) =
        expire_pending_renames_lem H dir mid left (Distinct-insert b p w.pending_renames u) in
      let inserted : Dict.get b left.pending_renames ≡ some p =
        get-insert b b p w.pending_renames ∙ ground (arith, ==_refl b) in
      let pending : Dict.get b swept.pending_renames ≡ some p =
        renames b ∙ ground (arith, inserted, in_time) in
      let (stripped, reset) =
        drag_back-disk path b bytes swept.disk works (rw disk prints) apart aside (rw disk r) in
      rw (h, pending)
        (
          contains-keep (λ n. not (n == b)) swept.known_failures b ∙ ground (arith, ==_refl b),
          get-remove b b swept.pending_renames ∙ ground (arith, ==_refl b),
          (schedule-Agrees swept.retry_queue b now (rw queue a)).1 b ∙ ground (arith, ==_refl b),
          stripped,
          reset ∙ ap (λ d. fresh (load H dir b d)) disk,
        )
