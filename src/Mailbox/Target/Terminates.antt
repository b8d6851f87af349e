-- ===== src/Mailbox/Target/Terminates.antt =====
-- src/sync/mailbox.rs: `build_target_set` ends on every answer of the server.
use jmapsyncd.Base.{
  suc, ◌≡◌, ◌≢◌, refl, inl, inr, arith, Bool, Option, none, some, List, [], ◌∷◌, Text, text_eq,
  option_eq, length, Option-cases,
}
use jmapsyncd.Base.Dict
use jmapsyncd.Base.Dict.{Dict, get-insert}
use jmapsyncd.Base.Result.{Result, ok, err, ◌>>=◌}
use jmapsyncd.Config.{MailConfig}
use jmapsyncd.Mailbox.Resolve.{or_error, resolve_path}
use jmapsyncd.Mailbox.Resolve.Terminates.{Indexed, resolve_path_terminates}
use jmapsyncd.Mailbox.Target.{
  TargetMailbox, index_mailboxes, name_mapping, filter_globs, include, include_id, include_all,
  build_target_set,
}
use jmapsyncd.World.{Outside, Mailbox, Error, no_mailbox_name, out_of_fuel}

bind-ne :
    {A B : Type 0} (r : Result Error A) (f : A → Result Error B) (e : Error)
    → r ≢ err e
    → ((a : A) → f a ≢ err e)
    → (r >>= f) ≢ err e
bind-ne (ok a) f e h k = k a
bind-ne (err x) f e h k = λ p. ground (arith, h, p)

or_error-ne : {A : Type 0} (o : Option A) → or_error no_mailbox_name o ≢ err out_of_fuel
or_error-ne none = λ h. ground (arith, h)
or_error-ne (some a) = λ h. ground (arith, h)

index_mailboxes-Indexed :
    (ms : List Mailbox) (d : Dict Text Mailbox) → Indexed d → Indexed (index_mailboxes ms d)
unfolding index_mailboxes
index_mailboxes-Indexed [] d h = h
index_mailboxes-Indexed (m ∷ ms) d h = index_mailboxes-Indexed ms _ (inserted m.id refl)
  where
    inserted :
        (o : Option Text) → m.id ≡ o → Indexed (elim o [ none ↦ d | some id ↦ Dict.insert id m d ])
    inserted none e = h
    inserted (some id) e = λ k n g. ground (arith, e, g, get-insert k id m d, h k n)

module _ (O : Outside) (mail_cfg : MailConfig) where
  include_id-ne :
      (d : Dict Text Mailbox) (names : Dict Text Text) (globs : Option (Text → Bool)) (m : Mailbox)
      (included : Dict Text TargetMailbox) (id : Option Text)
      → Indexed d
      → include_id O mail_cfg (suc (suc (length d))) d names globs m included id ≢ err out_of_fuel
  unfolding include_id
  include_id-ne d names globs m included none i = λ h. ground (arith, h)
  include_id-ne d names globs m included (some id) i =
      bind-ne (resolve_path d names (suc (suc (length d))) m) _ out_of_fuel
        (resolve_path_terminates d names i m)
        λ path.
          bind-ne (or_error no_mailbox_name m.name) _ out_of_fuel (or_error-ne m.name)
            λ name h. ground (arith, h)

  include_all-ne :
      (d : Dict Text Mailbox) (names : Dict Text Text) (globs : Option (Text → Bool))
      (ms : List Mailbox) (included : Dict Text TargetMailbox)
      → Indexed d
      → include_all O mail_cfg (suc (suc (length d))) d names globs ms included ≢ err out_of_fuel
  unfolding include_all
  include_all-ne d names globs [] included i = λ h. ground (arith, h)
  include_all-ne d names globs (m ∷ ms) included i =
      bind-ne (include O mail_cfg (suc (suc (length d))) d names globs m included) _ out_of_fuel
        (include_id-ne d names globs m included m.id i)
        λ included'. include_all-ne d names globs ms included' i

  filter_globs-ne : filter_globs O mail_cfg ≢ err out_of_fuel
  unfolding filter_globs
  filter_globs-ne = elim (Option-cases mail_cfg.box_filter) [
    | inl e ↦ rw e λ h. ground (arith, h)
    | inr (globs, e) ↦ rw e (elim (Option-cases (O.glob_set globs)) [
      | inl g ↦ rw g λ h. ground (arith, h)
      | inr (gs, g) ↦ rw g λ h. ground (arith, h)
    ])
  ]

  -- Whatever mailboxes the server answers, also when their parents form a cycle, building the set
  -- of targets ends with the set or with an error of the source: its fuel is never used up.
  pub build_target_set_terminates :
      (server_view : List Mailbox) → build_target_set O mail_cfg server_view ≢ err out_of_fuel
  unfolding build_target_set Dict.get
  build_target_set_terminates server_view =
      bind-ne (filter_globs O mail_cfg) _ out_of_fuel filter_globs-ne λ globs.
        include_all-ne (index_mailboxes server_view []) (name_mapping mail_cfg.box_mapping []) globs
          server_view [] (index_mailboxes-Indexed server_view [] λ k m h. ground (arith, h))
