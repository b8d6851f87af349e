-- ===== src/Daemon/RetrySchedule/Refines.antt =====
-- src/daemon/submit.rs: a `RetrySchedule` refines a plan, which knows the instant of each name.
use jmapsyncd.Base.{
  ℕ, ◌≡◌, ◌≢◌, ◌≤◌, ◌<◌, refl, ◌∙◌, ap, arith, Bool, true, false, Option, none, some, List, [], ◌∷◌,
  Text, ◌==◌, ==_refl, text_eq, contains, All, if◌then◌else◌, le→leb,
}
use jmapsyncd.Base.Dict
use jmapsyncd.Daemon.RetrySchedule.{RetrySchedule, remove, schedule, drain_due}
use jmapsyncd.Daemon.RetrySchedule.Agrees.{Agrees, remove-Agrees, schedule-Agrees}
use jmapsyncd.Daemon.RetrySchedule.Due.{is_due, drain_due-Agrees}

-- The calls that the submission loop makes.
pub data Call : Type 0 where
  put : (name : Text) (when : ℕ) → Call
  cancel : (name : Text) → Call
  wake : (now : ℕ) → Call

-- A call on the schedule, with the names that it returns.
unfoldable pub call : Call → RetrySchedule → List Text × RetrySchedule
call (put name when) q = ([], schedule q name when)
call (cancel name) q = ([], remove q name)
call (wake now) q = drain_due now q

unfoldable pub run : List Call → RetrySchedule → List (List Text) × RetrySchedule
run [] q = ([], q)
run (c ∷ cs) q =
    let (names, q') = call c q in let (outputs, q'') = run cs q' in (names ∷ outputs, q'')

-- The specification: the instant of each name, and the set of names that a call returns.
abbrev pub Plan : Type 0
Plan = Text → Option ℕ

unfoldable pub spec : Call → Plan → (Text → Bool) × Plan
spec (put name when) p = (λ n. false, λ n. if n == name then some when else p n)
spec (cancel name) p = (λ n. false, λ n. if n == name then none else p n)
spec (wake now) p = (λ n. is_due now (p n), λ n. if is_due now (p n) then none else p n)

unfoldable pub spec_run : List Call → Plan → List (Text → Bool) × Plan
spec_run [] p = ([], p)
spec_run (c ∷ cs) p =
    let (names, p') = spec c p in let (outputs, p'') = spec_run cs p' in (names ∷ outputs, p'')

pub record Refines (q : RetrySchedule) (p : Plan) : Type 0 where
  pub agrees : Agrees q
  pub planned : (n : Text) → Dict.get n q.index ≡ p n

-- The returned names are those of the specification, call by call.
abbrev pub Same : List (List Text) → List (Text → Bool) → Type 0
Same [] [] = Unit
Same [] (s ∷ ss) = ⊥
Same (o ∷ os) [] = ⊥
Same (o ∷ os) (s ∷ ss) = ((n : Text) → contains o n ≡ s n) × Same os ss

call-Refines :
    (c : Call) (q : RetrySchedule) (p : Plan)
    → Refines q p
    → ((n : Text) → contains (call c q).0 n ≡ (spec c p).0 n) × Refines (call c q).1 (spec c p).1
unfolding call spec contains
call-Refines (put name when) q p r =
    let (a, h) = schedule-Agrees q name when r.agrees in
    (λ n. refl, record { agrees = a; planned = λ n. ground (arith, h n, r.planned n) })
call-Refines (cancel name) q p r =
    let (a, h) = remove-Agrees q name r.agrees in
    (λ n. refl, record { agrees = a; planned = λ n. ground (arith, h n, r.planned n) })
call-Refines (wake now) q p r =
    let (a, out, h) = drain_due-Agrees now q r.agrees in
    (
      λ n. out n ∙ ap (is_due now) (r.planned n),
      record { agrees = a; planned = λ n. h n ∙ rw (r.planned n) refl },
    )

-- The schedule refines the plan: on every sequence of calls, each call returns exactly the names
-- that the plan says are due, and the instants afterwards are those of the plan.
pub run-Refines :
    (cs : List Call) (q : RetrySchedule) (p : Plan)
    → Refines q p
    → Same (run cs q).0 (spec_run cs p).0 × Refines (run cs q).1 (spec_run cs p).1
unfolding run spec_run
run-Refines [] q p r = (tt, r)
run-Refines (c ∷ cs) q p r =
    let (out, r') = call-Refines c q p r in
    let (outs, r'') = run-Refines cs (call c q).1 (spec c p).1 r' in ((out, outs), r'')

-- A call that neither moves nor cancels a name, nor wakes at its instant or later.
abbrev pub Spares : Text → ℕ → Call → Type 0
Spares name t (put n when) = n ≢ name
Spares name t (cancel n) = n ≢ name
Spares name t (wake now) = now < t

spec-Spares :
    (name : Text) (t : ℕ) (c : Call) (p : Plan)
    → Spares name t c
    → p name ≡ some t
    → (spec c p).1 name ≡ some t
unfolding spec
spec-Spares name t (put n when) p s h = ground (arith, s, h)
spec-Spares name t (cancel n) p s h = ground (arith, s, h)
spec-Spares name t (wake now) p s h = rw h ground (arith, s)

spec_run-Spares :
    (name : Text) (t : ℕ) (cs : List Call) (p : Plan)
    → All (Spares name t) cs
    → p name ≡ some t
    → (spec_run cs p).1 name ≡ some t
unfolding spec_run
spec_run-Spares name t [] p s h = h
spec_run-Spares name t (c ∷ cs) p s h =
    spec_run-Spares name t cs (spec c p).1 s.1 (spec-Spares name t c p s.0 h)

-- A message scheduled for an instant is not lost: after any calls that neither move nor cancel it
-- nor wake at that instant or later, the first wake-up at that instant or later returns it.
pub drain_due-scheduled :
    (q : RetrySchedule) (name : Text) (t now : ℕ) (cs : List Call)
    → Agrees q
    → All (Spares name t) cs
    → t ≤ now
    → contains (drain_due now (run cs (schedule q name t)).1).0 name ≡ true
drain_due-scheduled q name t now cs a s h =
    let (b, e) = schedule-Agrees q name t a in
    let (_, r) =
      run-Refines cs (schedule q name t) (λ n. Dict.get n (schedule q name t).index)
        (record { agrees = b; planned = λ n. refl }) in
    let (_, out, _) = drain_due-Agrees now (run cs (schedule q name t)).1 r.agrees in
    let k =
      spec_run-Spares name t cs (λ n. Dict.get n (schedule q name t).index) s
        (e name ∙ ground (arith, ==_refl name)) in
    out name ∙ rw (r.planned name ∙ k) (le→leb t now h)
