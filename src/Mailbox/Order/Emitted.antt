-- ===== src/Mailbox/Order/Emitted.antt =====
-- src/sync/mailbox.rs: what the loop of `topo_sort_creates_and_updates` returns.
use jmapsyncd.Base.{
  ℕ, zero, suc, ◌+◌, ◌<◌, ◌≡◌, refl, sym, ap, ◌∙◌, arith, Bool, true, false, not, Option, none,
  some, List, [], ◌∷◌, ◌++◌, append_assoc, append-nil, Text, text_eq, length, all, any, keep,
  contains-append, count, count-append, count-keep, length-keep,
}
use jmapsyncd.Base.Dict.{Dict}
use jmapsyncd.Mailbox.Target.{TargetMailbox}
use jmapsyncd.Mailbox.Order.{parent, parent_ready, is_ready, emit}

module _ (target : Dict Text TargetMailbox) where
  -- Each name is ready when those before it have been emitted.
  abbrev pub Ready : List Text → List Text → Type 0
  Ready emitted [] = Unit
  Ready emitted (x ∷ xs) = (is_ready target emitted x ≡ true) × Ready (emitted ++ (x ∷ [])) xs

  parent_ready-append :
      (emitted more : List Text) (p : Option Text)
      → parent_ready target emitted p ≡ true
      → parent_ready target (emitted ++ more) p ≡ true
  parent_ready-append emitted more none h = refl
  parent_ready-append emitted more (some pid) h =
      ground (arith, h, contains-append emitted more pid)

  is_ready-append :
      (emitted more : List Text) (x : Text)
      → is_ready target emitted x ≡ true
      → is_ready target (emitted ++ more) x ≡ true
  unfolding is_ready
  is_ready-append emitted more x h = parent_ready-append emitted more (parent target x) h

  all-Ready :
      (emitted before xs : List Text)
      → all (is_ready target emitted) xs ≡ true
      → Ready (emitted ++ before) xs
  unfolding all
  all-Ready emitted before [] h = tt
  all-Ready emitted before (x ∷ xs) h = (
    is_ready-append emitted before x ground (arith, h),
    rw (append_assoc emitted before (x ∷ []))
        (all-Ready emitted (before ++ (x ∷ [])) xs ground (arith, h)),
  )

  pub Ready-append :
      (emitted xs ys : List Text)
      → Ready emitted xs
      → Ready (emitted ++ xs) ys
      → Ready emitted (xs ++ ys)
  Ready-append emitted [] ys h k = rw (sym (append-nil emitted)) k
  Ready-append emitted (x ∷ xs) ys h k =
      (h.0, Ready-append (emitted ++ (x ∷ [])) xs ys h.1 (rw (append_assoc emitted (x ∷ []) xs) k))

  all-keep : (p : Text → Bool) (xs : List Text) → all p (keep p xs) ≡ true
  unfolding all keep
  all-keep p [] = refl
  all-keep p (x ∷ xs) = ground (arith, all-keep p xs)

  keep-nil : (p : Text → Bool) (xs : List Text) → keep p xs ≡ [] → any p xs ≡ false
  unfolding keep any
  keep-nil p [] h = refl
  keep-nil p (x ∷ xs) h = ground (arith, h, keep-nil p xs)

  -- What the loop makes of what remains: names in an order that respects readiness, and names none
  -- of which becomes ready.
  pub record Emission (remaining emitted order : List Text) (out : Option (List Text))
      : Type 0 where
    pub sorted : List Text
    pub rest : List Text
    pub result : out ≡ some (order ++ (sorted ++ rest))
    pub ready : Ready emitted sorted
    pub stuck : any (is_ready target (emitted ++ sorted)) rest ≡ false
    pub occurrences : (x : Text) → count x sorted + count x rest ≡ count x remaining

  abbrev now : List Text → List Text → List Text
  now emitted remaining = keep (is_ready target emitted) remaining

  abbrev later : List Text → List Text → List Text
  later emitted remaining = keep (λ id. not (is_ready target emitted id)) remaining

  now-Ready : (emitted remaining : List Text) → Ready emitted (now emitted remaining)
  now-Ready emitted remaining =
      rw (append-nil emitted) at (
        all-Ready emitted [] (now emitted remaining) (all-keep (is_ready target emitted) remaining))

  -- One turn, by what is ready and what is not.
  abbrev Turn : (fuel : ℕ) (remaining emitted order ready remaining' : List Text) → Type 0
  Turn fuel remaining emitted order ready remaining' =
      now emitted remaining ≡ ready
      → later emitted remaining ≡ remaining'
      → length ready + length remaining' < suc fuel
      → ((e o : List Text)
          → length remaining' < fuel
          → Emission remaining' e o (emit target fuel remaining' e o))
      → Emission remaining emitted order (emit target (suc fuel) remaining emitted order)

  turn :
      (fuel : ℕ) (remaining emitted order ready remaining' : List Text)
      → Turn fuel remaining emitted order ready remaining'
  unfolding emit count any
  turn fuel remaining emitted order [] remaining' e e' h k = record {
    sorted = [];
    rest = remaining;
    result = rw (emit, e) refl;
    ready = tt;
    stuck = rw (append-nil emitted) (keep-nil (is_ready target emitted) remaining e);
    occurrences = λ x. omega arith;
  }
  turn fuel remaining emitted order (r ∷ rs) [] e e' h k = record {
    sorted = r ∷ rs;
    rest = [];
    result = rw (emit, e, e', append-nil rs) refl;
    ready = rw e at (now-Ready emitted remaining);
    stuck = refl;
    occurrences = λ x. rw (e, e') at (count-keep x (is_ready target emitted) remaining);
  }
  turn fuel remaining emitted order (r ∷ rs) (m ∷ ms) e e' h k =
      let E = k (emitted ++ (r ∷ rs)) (order ++ (r ∷ rs)) (omega (arith, h)) in
      record {
        sorted = (r ∷ rs) ++ E.sorted;
        rest = E.rest;
        result =
            rw (emit, e, e')
              (E.result
                ∙ ap some (
                    append_assoc order (r ∷ rs) (E.sorted ++ E.rest)
                    ∙ ap (λ l. order ++ l) (sym (append_assoc (r ∷ rs) E.sorted E.rest))));
        ready =
            Ready-append emitted (r ∷ rs) E.sorted (rw e at (now-Ready emitted remaining)) E.ready;
        stuck = rw (sym (append_assoc emitted (r ∷ rs) E.sorted)) E.stuck;
        occurrences = λ x. ground (
          arith,
          count-append x (r ∷ rs) E.sorted,
          E.occurrences x,
          rw (e, e') at (count-keep x (is_ready target emitted) remaining),
        );
      }

  pub emit-Emission :
      (fuel : ℕ) (remaining emitted order : List Text)
      → length remaining < fuel
      → Emission remaining emitted order (emit target fuel remaining emitted order)
  emit-Emission zero remaining emitted order h = ground arith
  emit-Emission (suc fuel) remaining emitted order h =
      turn fuel remaining emitted order (now emitted remaining) (later emitted remaining) refl refl
        (omega (arith, h, length-keep (is_ready target emitted) remaining))
        (λ e o. emit-Emission fuel (later emitted remaining) e o)
