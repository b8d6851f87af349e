-- ===== src/Daemon/RetrySchedule/Due.antt =====
-- src/daemon/submit.rs: what `drain_due` takes out.
use jmapsyncd.Base.{
  ℕ, ◌<◌, ◌≡◌, refl, sym, ◌∙◌, arith, inl, inr, Bool, true, false, Option, none, some, List, [],
  ◌∷◌, ◌++◌, Text, ◌==◌, text_eq, nat_eq, option_eq, contains, contains-append, if◌then◌else◌, leb,
  Bool-cases,
}
use jmapsyncd.Base.BTreeMap
use jmapsyncd.Base.BTreeMap.{BTreeMap, IsSorted, get-Above, get-Above-below}
use jmapsyncd.Base.Dict
use jmapsyncd.Base.Dict.{Dict, get-remove}
use jmapsyncd.Base.Order.{nat_ord}
use jmapsyncd.Daemon.RetrySchedule.{RetrySchedule, at, remove_all, drain, drain_due}
use jmapsyncd.Daemon.RetrySchedule.Agrees.{Agrees}

-- An instant that has come.
abbrev pub is_due : ℕ → Option ℕ → Bool
is_due now none = false
is_due now (some when) = leb when now

get-remove_all :
    (ns : List Text) (d : Dict Text ℕ) (n : Text)
    → Dict.get n (remove_all ns d) ≡ (if contains ns n then none else Dict.get n d)
unfolding remove_all contains
get-remove_all [] d n = refl
get-remove_all (m ∷ ns) d n =
    ground (arith, get-remove_all ns (Dict.remove m d) n, get-remove n m d)

abbrev both : BTreeMap ℕ (List Text) → Dict Text ℕ → RetrySchedule
both s d = record { schedule = s; index = d }

at-head : (p : ℕ) (set : List Text) (s : BTreeMap ℕ (List Text)) → at p ((p, set) ∷ s) ≡ set
unfolding BTreeMap.get
at-head p set s = ground (arith, nat_ord.cmp_refl p)

at-cons :
    (w p : ℕ) (set : List Text) (s : BTreeMap ℕ (List Text))
    → IsSorted ((p, set) ∷ s)
    → at w ((p, set) ∷ s) ≡ (if w == p then set else at w s)
unfolding BTreeMap.get
at-cons w p set s o =
    ground (arith, nat_ord.cmp_refl p, get-Above-below w p s o.0, nat_ord.eq_of_cmp w p)

-- Before the first entry there is nothing.
at-before :
    (w p : ℕ) (set : List Text) (s : BTreeMap ℕ (List Text)) → w < p → at w ((p, set) ∷ s) ≡ []
unfolding BTreeMap.get
at-before w p set s h = ground arith

-- Behind the first entry there is what was there for every other instant.
tail-Agrees :
    (p : ℕ) (set : List Text) (s : BTreeMap ℕ (List Text)) (d : Dict Text ℕ)
    → Agrees (both ((p, set) ∷ s) d)
    → Agrees (both s (remove_all set d))
unfolding contains
tail-Agrees p set s d a = record {
  sorted = a.sorted.1;
  listed = λ w n. ground (
    arith,
    a.listed w n,
    a.listed p n,
    at-head p set s,
    at-cons w p set s a.sorted,
    get-Above p s a.sorted.0,
    get-remove_all set d n,
  );
}

-- The loop, on any two maps that agree.
Drained : ℕ → BTreeMap ℕ (List Text) → Dict Text ℕ → Type 0
Drained now s d =
    Agrees (drain now s d).1
    × ((n : Text) → contains (drain now s d).0 n ≡ is_due now (Dict.get n d))
    × ((n : Text)
        → Dict.get n (drain now s d).1.index
          ≡ (if is_due now (Dict.get n d) then none else Dict.get n d))

not-due :
    (now p : ℕ) (set : List Text) (s : BTreeMap ℕ (List Text)) (d : Dict Text ℕ) (n : Text)
    (o : Option ℕ)
    → Agrees (both ((p, set) ∷ s) d)
    → leb p now ≡ false
    → Dict.get n d ≡ o
    → is_due now o ≡ false
unfolding contains
not-due now p set s d n none a h e = refl
not-due now p set s d n (some w) a h e = ground (arith, h, e, a.listed w n, at-before w p set s)

nothing-due :
    (now : ℕ) (d : Dict Text ℕ) (n : Text) (o : Option ℕ)
    → Agrees (both [] d)
    → Dict.get n d ≡ o
    → is_due now o ≡ false
unfolding contains BTreeMap.get
nothing-due now d n none a e = refl
nothing-due now d n (some w) a e = ground (arith, e, a.listed w n)

drain-stop :
    (now p : ℕ) (set : List Text) (s : BTreeMap ℕ (List Text)) (d : Dict Text ℕ)
    → leb p now ≡ false
    → drain now ((p, set) ∷ s) d ≡ ([], both ((p, set) ∷ s) d)
unfolding drain
drain-stop now p set s d h = rw h refl

drain-go :
    (now p : ℕ) (set : List Text) (s : BTreeMap ℕ (List Text)) (d : Dict Text ℕ)
    → leb p now ≡ true
    → drain now ((p, set) ∷ s) d
      ≡ (set ++ (drain now s (remove_all set d)).0, (drain now s (remove_all set d)).1)
unfolding drain
drain-go now p set s d h = rw h refl

drain-Drained :
    (now : ℕ) (s : BTreeMap ℕ (List Text)) (d : Dict Text ℕ) → Agrees (both s d) → Drained now s d
unfolding Drained
drain-Drained now [] d a =
    unfold drain contains in
    (
      a,
      λ n. sym (nothing-due now d n (Dict.get n d) a refl),
      λ n. ground (arith, nothing-due now d n (Dict.get n d) a refl),
    )
drain-Drained now ((p, set) ∷ s) d a = elim (Bool-cases (leb p now)) [
  | inl h ↦
      let (b, due, left) = drain-Drained now s (remove_all set d) (tail-Agrees p set s d a) in
      rw (drain-go now p set s d h) (
        b,
        λ n.
            contains-append set (drain now s (remove_all set d)).0 n
            ∙ ground (arith, h, due n, get-remove_all set d n, a.listed p n, at-head p set s),
        λ n. left n ∙ ground (arith, h, get-remove_all set d n, a.listed p n, at-head p set s),
      )
  | inr h ↦ rw (drain-stop now p set s d h) (
    a,
    λ n. unfold contains in sym (not-due now p set s d n (Dict.get n d) a h refl),
    λ n. ground (arith, not-due now p set s d n (Dict.get n d) a h refl),
  )
]

-- `drain_due` returns exactly the names whose instant has come. The index loses these and keeps
-- every other name, and the two maps agree as before.
pub drain_due-Agrees :
    (now : ℕ) (q : RetrySchedule)
    → Agrees q
    → Agrees (drain_due now q).1
      × ((n : Text) → contains (drain_due now q).0 n ≡ is_due now (Dict.get n q.index))
      × ((n : Text)
          → Dict.get n (drain_due now q).1.index
            ≡ (if is_due now (Dict.get n q.index) then none else Dict.get n q.index))
unfolding drain_due Drained
drain_due-Agrees now q a = drain-Drained now q.schedule q.index a
