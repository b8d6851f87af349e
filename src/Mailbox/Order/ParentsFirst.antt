-- ===== src/Mailbox/Order/ParentsFirst.antt =====
-- src/sync/mailbox.rs: `topo_sort_creates_and_updates` orders the targets, parents first.
use jmapsyncd.Base.{
  ℕ, zero, suc, ◌<◌, ◌≡◌, refl, ap, sym, ◌∙◌, inl, inr, arith, Bool, true, false, Option, none,
  some, List, [], ◌∷◌, ◌++◌, append-nil, append_assoc, Text, ==_refl, text_eq, length, any,
  contains, contains-append, contains-count, count, count-append, Bool-cases,
}
use jmapsyncd.Base.Dict
use jmapsyncd.Base.Dict.{Dict}
use jmapsyncd.Mailbox.Target.{TargetMailbox}
use jmapsyncd.Mailbox.Order.{
  keys, is_some, parent, parent_ready, is_ready, topo_sort_creates_and_updates,
}
use jmapsyncd.Mailbox.Order.Emitted.{Ready, Emission, emit-Emission}

-- A parent that is itself a target and not yet stored stands before the child.
abbrev pub ParentsFirst : {A : Type 0} → Dict Text TargetMailbox → Dict Text A → List Text → Type 0
ParentsFirst target local order =
    (before after : List Text) (x pid : Text)
    → order ≡ before ++ (x ∷ after)
    → parent target x ≡ some pid
    → is_some (Dict.get pid target) ≡ true
    → contains (keys local) pid ≡ false
    → contains before pid ≡ true

-- A depth that grows from parent to child: no mailbox is its own ancestor.
abbrev pub Deeper : Dict Text TargetMailbox → (Text → ℕ) → Type 0
Deeper target depth =
    (x pid : Text)
    → parent target x ≡ some pid
    → is_some (Dict.get pid target) ≡ true
    → depth pid < depth x

length-keys : {A : Type 0} (d : Dict Text A) → length (keys d) ≡ length d
length-keys [] = refl
length-keys (_ ∷ d) = ap suc (length-keys d)

contains-keys :
    {A : Type 0} (d : Dict Text A) (k : Text)
    → is_some (Dict.get k d) ≡ true
    → contains (keys d) k ≡ true
unfolding Dict.get contains
contains-keys [] k h = ground (arith, h)
contains-keys (_ ∷ d) k h = ground (arith, h, contains-keys d k)

any-contains :
    (p : Text → Bool) (l : List Text) (x : Text)
    → any p l ≡ false
    → contains l x ≡ true
    → p x ≡ false
unfolding any contains
any-contains p [] x h c = ground (arith, c)
any-contains p (y ∷ l) x h c = ground (arith, h, c, any-contains p l x)

module _ (target : Dict Text TargetMailbox) where
  Ready-at :
      (emitted before after : List Text) (x : Text)
      → Ready target emitted (before ++ (x ∷ after))
      → is_ready target (emitted ++ before) x ≡ true
  Ready-at emitted [] after x h = rw (append-nil emitted) h.0
  Ready-at emitted (y ∷ before) after x h =
      rw (append_assoc emitted (y ∷ []) before) at
        (Ready-at (emitted ++ (y ∷ [])) before after x h.1)

  not-ready :
      (emitted : List Text) (x : Text) (p : Option Text)
      → parent target x ≡ p
      → parent_ready target emitted p ≡ false
      → (pid : Text) × (parent target x ≡ some pid)
        × (contains emitted pid ≡ false)
        × (is_some (Dict.get pid target) ≡ true)
  not-ready emitted x none e h = ground (arith, h)
  not-ready emitted x (some pid) e h = (pid, e, ground (arith, h), ground (arith, h))

  not-is_ready :
      (emitted : List Text) (x : Text)
      → is_ready target emitted x ≡ false
      → (pid : Text) × (parent target x ≡ some pid)
        × (contains emitted pid ≡ false)
        × (is_some (Dict.get pid target) ≡ true)
  unfolding is_ready
  not-is_ready emitted x h = not-ready emitted x (parent target x) refl h

  module _ {A : Type 0} (local : Dict Text A) where
    abbrev Result : Type 0
    Result =
        Emission target (keys target) (keys local) [] (topo_sort_creates_and_updates target local)

    run : Result
    unfolding topo_sort_creates_and_updates
    run =
        emit-Emission target (suc (length target)) (keys target) (keys local) []
          (omega (arith, length-keys target))

    -- A target that is not in order has its parent there too.
    none-left :
        (r : Result) (depth : Text → ℕ) (n : ℕ) (x : Text)
        → Deeper target depth
        → depth x < n
        → contains r.rest x ≡ false
    none-left r depth zero x d h = ground (arith, h)
    none-left r depth (suc n) x d h = elim (Bool-cases (contains r.rest x)) [
      | inl c ↦
          let (pid, e, ne, t) =
            not-is_ready (keys local ++ r.sorted) x
              (any-contains (is_ready target (keys local ++ r.sorted)) r.rest x r.stuck c) in
          ground (
            arith,
            ne,
            contains-append (keys local) r.sorted pid,
            contains-count r.sorted pid,
            contains-keys target pid t,
            contains-count (keys target) pid,
            r.occurrences pid,
            contains-count r.rest pid,
            none-left r depth n pid d (omega (arith, h, d x pid e t)),
          )
      | inr c ↦ c
    ]

    contains-nil : (l : List Text) → ((x : Text) → contains l x ≡ false) → l ≡ []
    unfolding contains
    contains-nil [] h = refl
    contains-nil (x ∷ l) h = ground (arith, h x, ==_refl x)

    sorted-ParentsFirst :
        (l : List Text) → Ready target (keys local) l → ParentsFirst target local l
    unfolding is_ready
    sorted-ParentsFirst l h before after x pid e p t n = ground (
      arith,
      rw p at (Ready-at (keys local) before after x (rw (sym e) h)),
      t,
      n,
      contains-append (keys local) before pid,
    )

    -- The order exists, whatever the parents are, and has each target as often as the map has it.
    pub topo_sort_creates_and_updates_lem :
        (order : List Text) × (topo_sort_creates_and_updates target local ≡ some order)
        × ((x : Text) → count x order ≡ count x (keys target))
    topo_sort_creates_and_updates_lem =
        let r = run in
        (
          r.sorted ++ r.rest,
          r.result,
          λ x. ground (arith, count-append x r.sorted r.rest, r.occurrences x),
        )

    -- When no mailbox is its own ancestor, each parent that is created or updated in the same pass
    -- and is not stored yet comes before its children.
    pub topo_sort_creates_and_updates-ParentsFirst :
        (depth : Text → ℕ)
        → Deeper target depth
        → (order : List Text) × (topo_sort_creates_and_updates target local ≡ some order)
          × ParentsFirst target local order
    topo_sort_creates_and_updates-ParentsFirst depth d =
        let r = run in
        let e = contains-nil r.rest (λ x. none-left r depth (suc (depth x)) x d (omega arith)) in
        (
          r.sorted,
          r.result ∙ ap some (rw e (append-nil r.sorted)),
          sorted-ParentsFirst r.sorted r.ready,
        )
