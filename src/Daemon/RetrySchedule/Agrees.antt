-- ===== src/Daemon/RetrySchedule/Agrees.antt =====
-- src/daemon/submit.rs: the two maps of a `RetrySchedule` agree.
use jmapsyncd.Base.{
  ℕ, ◌≡◌, refl, ◌∙◌, arith, not, ◌&&◌, ◌||◌, Option, none, some, List, [], ◌∷◌, Text, ◌==◌, text_eq,
  nat_eq, option_eq, contains, contains-keep, contains-append, keep, if◌then◌else◌,
}
use jmapsyncd.Base.BTreeMap
use jmapsyncd.Base.BTreeMap.{
  BTreeMap, IsSorted, get-insert_self, get-insert_ne, get-remove_self, get-remove_ne,
  insert-IsSorted, remove-IsSorted,
}
use jmapsyncd.Base.Dict
use jmapsyncd.Base.Dict.{Dict, get-insert, get-remove}
use jmapsyncd.Base.Order.{nat_ord}
use jmapsyncd.Daemon.RetrySchedule.{
  RetrySchedule, at, add_name, put_or_drop, unlist, forget, remove, schedule,
}

-- A name is in the set of an instant exactly when the index says so.
pub record Agrees (q : RetrySchedule) : Type 0 where
  pub sorted : IsSorted q.schedule
  pub listed :
      (when : ℕ) (name : Text)
      → contains (at when q.schedule) name ≡ (Dict.get name q.index == some when)

at-insert :
    (w p : ℕ) (set : List Text) (s : BTreeMap ℕ (List Text))
    → at w (BTreeMap.insert p set s) ≡ (if w == p then set else at w s)
at-insert w p set s = ground (arith, get-insert_self p set s, get-insert_ne w p set s)

at-put_or_drop :
    (w p : ℕ) (set : List Text) (s : BTreeMap ℕ (List Text))
    → IsSorted s
    → at w (put_or_drop p set s) ≡ (if w == p then set else at w s)
unfolding put_or_drop
at-put_or_drop w p [] s o = ground (arith, get-remove_self p s o, get-remove_ne w p s o)
at-put_or_drop w p (n ∷ ns) s o = at-insert w p (n ∷ ns) s

put_or_drop-IsSorted :
    (p : ℕ) (set : List Text) (s : BTreeMap ℕ (List Text))
    → IsSorted s
    → IsSorted (put_or_drop p set s)
unfolding put_or_drop
put_or_drop-IsSorted p [] s o = remove-IsSorted p s o
put_or_drop-IsSorted p (n ∷ ns) s o = insert-IsSorted p (n ∷ ns) s o

unlist-IsSorted :
    (p : ℕ) (name : Text) (s : BTreeMap ℕ (List Text)) (set : Option (List Text))
    → IsSorted s
    → IsSorted (unlist p name s set)
unfolding unlist
unlist-IsSorted p name s none o = o
unlist-IsSorted p name s (some set) o = put_or_drop-IsSorted p (keep (λ n. not (n == name)) set) s o

contains-unlist :
    (w p : ℕ) (name n : Text) (s : BTreeMap ℕ (List Text)) (set : Option (List Text))
    → IsSorted s
    → BTreeMap.get p s ≡ set
    → contains (at w (unlist p name s set)) n ≡ (contains (at w s) n && not (w == p && n == name))
unfolding unlist contains
contains-unlist w p name n s none o h = ground (arith, h)
contains-unlist w p name n s (some set) o h = ground (
  arith,
  h,
  at-put_or_drop w p (keep (λ n. not (n == name)) set) s o,
  contains-keep (λ n. not (n == name)) set n,
)

contains-add_name :
    (name n : Text) (set : List Text)
    → contains (add_name name set) n ≡ (contains set n || n == name)
unfolding add_name contains
contains-add_name name n set = ground (arith, contains-append set (name ∷ []) n)

forget-Agrees :
    (q : RetrySchedule) (name : Text) (prev : Option ℕ)
    → Dict.get name q.index ≡ prev
    → Agrees q
    → Agrees (forget q name prev)
unfolding forget
forget-Agrees q name none h a = a
forget-Agrees q name (some prev) h a = record {
  sorted = unlist-IsSorted prev name q.schedule (BTreeMap.get prev q.schedule) a.sorted;
  listed = λ w n.
      contains-unlist w prev name n q.schedule (BTreeMap.get prev q.schedule) a.sorted refl
      ∙ ground (arith, h, a.listed w n, get-remove n name q.index);
}

get-forget :
    (q : RetrySchedule) (name : Text) (prev : Option ℕ) (n : Text)
    → Dict.get name q.index ≡ prev
    → Dict.get n (forget q name prev).index ≡ (if n == name then none else Dict.get n q.index)
unfolding forget
get-forget q name none n h = ground (arith, h)
get-forget q name (some prev) n h = get-remove n name q.index

-- Removing a name keeps the two maps in agreement; the index then has nothing for the name and
-- what it had for every other name.
pub remove-Agrees :
    (q : RetrySchedule) (name : Text)
    → Agrees q
    → Agrees (remove q name)
      × ((n : Text)
          → Dict.get n (remove q name).index ≡ (if n == name then none else Dict.get n q.index))
unfolding remove
remove-Agrees q name a = (
  forget-Agrees q name (Dict.get name q.index) refl a,
  λ n. get-forget q name (Dict.get name q.index) n refl,
)

-- Scheduling a name keeps the two maps in agreement, moves the name to the new instant and leaves
-- the instant of every other name.
pub schedule-Agrees :
    (q : RetrySchedule) (name : Text) (when : ℕ)
    → Agrees q
    → Agrees (schedule q name when)
      × ((n : Text)
          → Dict.get n (schedule q name when).index
            ≡ (if n == name then some when else Dict.get n q.index))
unfolding schedule
schedule-Agrees q name when a =
    let r = remove q name in
    let (b, gone) = remove-Agrees q name a in
    (
      record {
        sorted = insert-IsSorted when (add_name name (at when r.schedule)) r.schedule b.sorted;
        listed = λ w n. ground (
          arith,
          at-insert w when (add_name name (at when r.schedule)) r.schedule,
          contains-add_name name n (at when r.schedule),
          b.listed w n,
          gone n,
          get-insert n name when r.index,
        );
      },
      λ n. get-insert n name when r.index ∙ ground (arith, gone n),
    )
