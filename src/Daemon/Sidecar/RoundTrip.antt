-- ===== src/Daemon/Sidecar/RoundTrip.antt =====
-- src/daemon/submit.rs: a sidecar that was saved is loaded as it was.
use jmapsyncd.Base.{◌≡◌, refl, arith, Bool, true, false, some, Text, inl, inr, Option-cases}
use jmapsyncd.Daemon.Sidecar.{
  Host, SidecarState, sidecar_path, sidecar_tmp, if_ok, and_then, load, save,
}

-- What the code relies on: a file reads as it was written and keeps its bytes under a new name.
pub record IsReliable (H : Host) : Type 0 where
  pub read_written :
      (d d' : H.State) (path bytes : Text)
      → H.write d path bytes ≡ (true, d')
      → H.read d' path ≡ some bytes
  pub read_renamed :
      (d d' : H.State) (old new bytes : Text)
      → H.read d old ≡ some bytes
      → H.rename d old new ≡ (true, d')
      → H.read d' new ≡ some bytes

-- What is printed of a sidecar is parsed back.
abbrev pub ParsesBack : (H : Host) → SidecarState → Type 0
ParsesBack H s = (bytes : Text) → H.to_vec_pretty s ≡ some bytes → H.from_slice bytes ≡ some s

module _ (H : Host) where
  pub and_then-ok :
      (f g : H.State → Bool × H.State) (d d' : H.State)
      → and_then H f g d ≡ (true, d')
      → (e : H.State) × (f d ≡ (true, e)) × (g e ≡ (true, d'))
  unfolding and_then
  and_then-ok f g d d' h = first (f d) refl h
    where
      first :
          (r : Bool × H.State)
          → f d ≡ r
          → if_ok H r g ≡ (true, d')
          → (e : H.State) × (f d ≡ (true, e)) × (g e ≡ (true, d'))
      first (false, e) q k = ground (arith, k)
      first (true, e) q k = (e, q, k)

  -- On a file system that keeps what is written, a sidecar that is parsed back as it is printed,
  -- and that was saved without an error, is loaded as it was.
  pub load-save :
      (s : SidecarState) (dir basename : Text) (d d' : H.State)
      → IsReliable H
      → ParsesBack H s
      → save H s dir basename d ≡ (true, d')
      → load H dir basename d' ≡ s
  unfolding save load
  load-save s dir basename d d' l p h = elim (Option-cases (H.to_vec_pretty s)) [
    | inl e ↦ ground (arith, rw (save, e) at h)
    | inr (bytes, e) ↦
        let (v, a, b) = and_then-ok _ _ d d' (rw (save, e) at h) in
        let read =
          l.read_renamed v d' (sidecar_tmp dir basename) (sidecar_path dir basename) bytes
            (l.read_written d v (sidecar_tmp dir basename) bytes a) b in
        rw (load, read, p bytes e) refl
  ]
