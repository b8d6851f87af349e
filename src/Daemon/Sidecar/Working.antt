-- ===== src/Daemon/Sidecar/Working.antt =====
-- src/daemon/submit.rs: the sidecar and the files of messages on a disk without errors.
use jmapsyncd.Base.{
  ◌≡◌, ◌≢◌, refl, sym, ◌∙◌, inl, inr, arith, Bool, true, false, Option, none, some, Text, text,
  ◌==◌, text_eq, Option-cases, Bool-cases, eq_of_==,
}
use jmapsyncd.Daemon.Headers.{strip_family2_headers, inject_family2_headers}
use jmapsyncd.Daemon.Sidecar.{
  Host, SidecarState, join, sidecar_path, sidecar_tmp, tmp_neighbour, if_ok, and_then, load, save,
  strip_family2_headers_in_place, move_to_failed_atomic, locate_in, locate_and_read_outbox_message,
}

-- What the code relies on where the file system reports no error: an operation changes what is read
-- at its own paths, as it says, and at no other.
pub record IsWorking (H : Host) : Type 0 where
  pub write_ok : (d : H.State) (path bytes : Text) → (H.write d path bytes).0 ≡ true
  pub read_written :
      (d : H.State) (path bytes : Text) → H.read (H.write d path bytes).1 path ≡ some bytes
  pub write_other :
      (d : H.State) (path bytes other : Text)
      → path ≢ other
      → H.read (H.write d path bytes).1 other ≡ H.read d other
  pub rename_ok :
      (d : H.State) (old new bytes : Text)
      → H.read d old ≡ some bytes
      → (H.rename d old new).0 ≡ true
  pub read_renamed :
      (d : H.State) (old new bytes : Text)
      → H.read d old ≡ some bytes
      → H.read (H.rename d old new).1 new ≡ some bytes
  pub rename_other :
      (d : H.State) (old new other : Text)
      → old ≢ other
      → new ≢ other
      → H.read (H.rename d old new).1 other ≡ H.read d other
  pub read_removed : (d : H.State) (path : Text) → H.read (H.remove_file d path).1 path ≡ none
  pub remove_other :
      (d : H.State) (path other : Text)
      → path ≢ other
      → H.read (H.remove_file d path).1 other ≡ H.read d other
  pub create_ok : (d : H.State) (path : Text) → (H.create_dir_all d path).0 ≡ true
  pub create_other :
      (d : H.State) (path other : Text) → H.read (H.create_dir_all d path).1 other ≡ H.read d other

-- A sidecar is printed, and parsed back as it was.
abbrev pub Prints : (H : Host) → SidecarState → Type 0
Prints H s = (bytes : Text) × (H.to_vec_pretty s ≡ some bytes) × (H.from_slice bytes ≡ some s)

-- A path is neither a sidecar's nor that of its temporary file.
abbrev pub IsApart : Text → Text → Text → Type 0
IsApart dir basename path = (sidecar_tmp dir basename ≢ path) × (sidecar_path dir basename ≢ path)

module _ (H : Host) (works : IsWorking H) where
  if_ok-go : (r : Bool × H.State) (g : H.State → Bool × H.State) → r.0 ≡ true → if_ok H r g ≡ g r.1
  if_ok-go (true, d) g h = refl
  if_ok-go (false, d) g h = cc

  and_then-go :
      (f g : H.State → Bool × H.State) (d : H.State) → (f d).0 ≡ true → and_then H f g d ≡ g (f d).1
  unfolding and_then
  and_then-go f g d h = if_ok-go (f d) g h

  -- A file that is written under one name and then renamed.
  written : Text → Text → Text → H.State → H.State
  written tmp path bytes d = (H.rename (H.write d tmp bytes).1 tmp path).1

  write-rename :
      (tmp path bytes : Text) (d : H.State)
      → (and_then H (λ e. H.write e tmp bytes) (λ e. H.rename e tmp path) d).1
        ≡ written tmp path bytes d
  unfolding written
  write-rename tmp path bytes d =
      rw
        (and_then-go (λ e. H.write e tmp bytes) (λ e. H.rename e tmp path) d
          (works.write_ok d tmp bytes))
        refl

  read-written :
      (tmp path bytes : Text) (d : H.State) → H.read (written tmp path bytes d) path ≡ some bytes
  unfolding written
  read-written tmp path bytes d =
      works.read_renamed (H.write d tmp bytes).1 tmp path bytes (works.read_written d tmp bytes)

  written_other :
      (tmp path bytes other : Text) (d : H.State)
      → tmp ≢ other
      → path ≢ other
      → H.read (written tmp path bytes d) other ≡ H.read d other
  unfolding written
  written_other tmp path bytes other d h k =
      works.rename_other (H.write d tmp bytes).1 tmp path other h k
      ∙ works.write_other d tmp bytes other h

  read-save :
      (s : SidecarState) (dir basename bytes : Text) (d : H.State)
      → H.to_vec_pretty s ≡ some bytes
      → H.read (save H s dir basename d).1 (sidecar_path dir basename) ≡ some bytes
  unfolding save
  read-save s dir basename bytes d p =
      rw (save, p, write-rename (sidecar_tmp dir basename) (sidecar_path dir basename) bytes d)
        (read-written (sidecar_tmp dir basename) (sidecar_path dir basename) bytes d)

  -- What is saved is loaded.
  pub load-saved :
      (s : SidecarState) (dir basename : Text) (d : H.State)
      → Prints H s
      → load H dir basename (save H s dir basename d).1 ≡ s
  unfolding load
  load-saved s dir basename d (bytes, p, q) = rw (load, read-save s dir basename bytes d p, q) refl

  -- The sidecar that is loaded depends on its file only.
  pub load_congr :
      (dir basename : Text) (d e : H.State)
      → H.read d (sidecar_path dir basename) ≡ H.read e (sidecar_path dir basename)
      → load H dir basename d ≡ load H dir basename e
  unfolding load
  load_congr dir basename d e h = rw (load, h) refl

  -- Saving a sidecar, also one that cannot be printed, leaves every other file.
  pub save_other :
      (s : SidecarState) (dir basename path : Text) (d : H.State)
      → IsApart dir basename path
      → H.read (save H s dir basename d).1 path ≡ H.read d path
  unfolding save
  save_other s dir basename path d a = elim (Option-cases (H.to_vec_pretty s)) [
    | inl e ↦ rw (save, e) refl
    | inr (bytes, e) ↦
        rw (save, e, write-rename (sidecar_tmp dir basename) (sidecar_path dir basename) bytes d)
          (written_other (sidecar_tmp dir basename) (sidecar_path dir basename) bytes path d a.0
            a.1)
  ]

  -- A message whose headers were stripped in place.
  pub read-strip :
      (path bytes : Text) (d : H.State)
      → H.read d path ≡ some bytes
      → H.read (strip_family2_headers_in_place H path d).1 path ≡ some (strip_family2_headers bytes)
  unfolding strip_family2_headers_in_place
  read-strip path bytes d r = elim (Bool-cases (strip_family2_headers bytes == bytes)) [
    | inl e ↦
        rw (strip_family2_headers_in_place, r, e)
          (r ∙ rw (eq_of_== (strip_family2_headers bytes) bytes e) refl)
    | inr e ↦
        rw
          (
            strip_family2_headers_in_place,
            r,
            e,
            write-rename (tmp_neighbour path) path (strip_family2_headers bytes) d,
          )
          (read-written (tmp_neighbour path) path (strip_family2_headers bytes) d)
  ]

  pub strip_other :
      (path bytes other : Text) (d : H.State)
      → H.read d path ≡ some bytes
      → tmp_neighbour path ≢ other
      → path ≢ other
      → H.read (strip_family2_headers_in_place H path d).1 other ≡ H.read d other
  unfolding strip_family2_headers_in_place
  strip_other path bytes other d r h k = elim (Bool-cases (strip_family2_headers bytes == bytes)) [
    | inl e ↦ rw (strip_family2_headers_in_place, r, e) refl
    | inr e ↦
        rw
          (
            strip_family2_headers_in_place,
            r,
            e,
            write-rename (tmp_neighbour path) path (strip_family2_headers bytes) d,
          )
          (written_other (tmp_neighbour path) path (strip_family2_headers bytes) other d h k)
  ]

  -- A message that was found was read.
  with_bytes-read :
      (d : H.State) (path found bytes : Text) (o : Option Text)
      → H.read d path ≡ o
      → (elim o as (λ _. Option (Text × Text)) [ none ↦ none | some b ↦ some (path, b) ])
        ≡ some (found, bytes)
      → H.read d found ≡ some bytes
  with_bytes-read d path found bytes none e h = cc
  with_bytes-read d path found bytes (some b) e h = ground (arith, e, h)

  pub read-locate :
      (d : H.State) (outbox basename path bytes : Text)
      → locate_and_read_outbox_message H d outbox basename ≡ some (path, bytes)
      → H.read d path ≡ some bytes
  unfolding locate_and_read_outbox_message
  read-locate d outbox basename path bytes h =
      elim (Option-cases (locate_in H d (join outbox (text "new")) basename)) [
        | inr (p, e) ↦
            with_bytes-read d p path bytes (H.read d p) refl
              (rw (locate_and_read_outbox_message, e) at h)
        | inl e ↦ elim (Option-cases (locate_in H d (join outbox (text "cur")) basename)) [
          | inr (p, k) ↦
              with_bytes-read d p path bytes (H.read d p) refl
                (rw (locate_and_read_outbox_message, e, k) at h)
          | inl k ↦ ground (arith, rw (locate_and_read_outbox_message, e, k) at h)
        ]
      ]

  good : (r : Bool × H.State) → r.0 ≡ true → r ≡ (true, r.1)
  good (true, d) h = refl
  good (false, d) h = cc

  differs : (a b : Text) → b ≢ a → (a == b) ≡ false
  differs a b n = elim (Bool-cases (a == b)) [
    | inl e ↦ absurd (n (sym (eq_of_== a b e)))
    | inr e ↦ e
  ]

  -- On such a disk, a message that is moved to Failed is there with the new headers, and no longer
  -- where it was.
  pub move_to_failed :
      (src failed basename reason now ulid bytes : Text) (d : H.State)
      → H.read d src ≡ some bytes
      → join (join failed (text "new")) basename ≢ src
      → let e = (move_to_failed_atomic H src failed basename reason now ulid d).1 in
        (H.read e (join (join failed (text "new")) basename)
          ≡ some (inject_family2_headers bytes reason now ulid))
        × (H.read e src ≡ none)
  unfolding move_to_failed_atomic and_then
  move_to_failed src failed basename reason now ulid bytes d r apart =
      let tmp = join (join failed (text "tmp")) basename in
      let new = join (join failed (text "new")) basename in
      let injected = inject_family2_headers bytes reason now ulid in
      let made = (H.create_dir_all d (join failed (text "tmp"))).1 in
      let ready = (H.create_dir_all made (join failed (text "new"))).1 in
      let full = (H.write ready tmp injected).1 in
      let moved = (H.rename full tmp new).1 in
      let there : H.read full tmp ≡ some injected = works.read_written ready tmp injected in
      rw
        (
          move_to_failed_atomic,
          r,
          good (H.create_dir_all d (join failed (text "tmp"))) (works.create_ok d _),
          good (H.create_dir_all made (join failed (text "new"))) (works.create_ok made _),
          good (H.write ready tmp injected) (works.write_ok ready tmp injected),
          good (H.rename full tmp new) (works.rename_ok full tmp new injected there),
          differs src new apart,
        )
        (
          works.remove_other moved src new (λ e. apart (sym e))
              ∙ works.read_renamed full tmp new injected there,
          works.read_removed moved src,
        )
