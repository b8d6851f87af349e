-- ===== src/Daemon/RetrySchedule.antt =====
-- src/daemon/submit.rs: `RetrySchedule`, messages by the instant of their next attempt, with an
-- index back. An `Instant` is a number; a `HashSet` is a list without order.
pub mod Agrees
pub mod Due
pub mod Refines
use jmapsyncd.Base.{
  ℕ, Bool, not, Option, none, some, List, [], ◌∷◌, ◌++◌, Text, ◌==◌, text_eq, contains, keep,
  if◌then◌else◌, leb,
}
use jmapsyncd.Base.BTreeMap
use jmapsyncd.Base.BTreeMap.{BTreeMap}
use jmapsyncd.Base.Dict
use jmapsyncd.Base.Dict.{Dict}
use jmapsyncd.Base.Order.{nat_ord}

pub record RetrySchedule : Type 0 where
  pub schedule : BTreeMap ℕ (List Text)
  pub index : Dict Text ℕ

abbrev pub empty : RetrySchedule
empty = record { schedule = []; index = [] }

-- The names that are due at an instant.
abbrev pub or_empty : Option (List Text) → List Text
or_empty none = []
or_empty (some s) = s

abbrev pub at : ℕ → BTreeMap ℕ (List Text) → List Text
at when s = or_empty (BTreeMap.get when s)

-- `HashSet::insert`
unfoldable pub add_name : Text → List Text → List Text
add_name name s = if contains s name then s else s ++ (name ∷ [])

-- What `remove` does to the set of an instant: a set that becomes empty goes.
unfoldable pub put_or_drop : ℕ → List Text → BTreeMap ℕ (List Text) → BTreeMap ℕ (List Text)
put_or_drop when [] s = BTreeMap.remove when s
put_or_drop when (n ∷ ns) s = BTreeMap.insert when (n ∷ ns) s

-- `set.remove(basename)`, where the instant has a set.
unfoldable pub unlist :
    ℕ → Text → BTreeMap ℕ (List Text) → Option (List Text) → BTreeMap ℕ (List Text)
unlist prev name s none = s
unlist prev name s (some set) = put_or_drop prev (keep (λ n. not (n == name)) set) s

-- `remove`, by the instant that the index had for the name.
unfoldable pub forget : RetrySchedule → Text → Option ℕ → RetrySchedule
forget q name none = q
forget q name (some prev) = record {
  schedule = unlist prev name q.schedule (BTreeMap.get prev q.schedule);
  index = Dict.remove name q.index;
}

unfoldable pub remove : RetrySchedule → Text → RetrySchedule
remove q name = forget q name (Dict.get name q.index)

unfoldable pub schedule : RetrySchedule → Text → ℕ → RetrySchedule
schedule q name when =
    let r = remove q name in
    record {
      schedule = BTreeMap.insert when (add_name name (at when r.schedule)) r.schedule;
      index = Dict.insert name when r.index;
    }

unfoldable pub remove_all : List Text → Dict Text ℕ → Dict Text ℕ
remove_all [] d = d
remove_all (n ∷ ns) d = remove_all ns (Dict.remove n d)

-- The loop of `drain_due`, over the entries in the order of their instants.
unfoldable pub drain : ℕ → BTreeMap ℕ (List Text) → Dict Text ℕ → List Text × RetrySchedule
drain now [] d = ([], record { schedule = []; index = d })
drain now ((when, set) ∷ s) d =
    let (due, q) = drain now s (remove_all set d) in
    if leb when now then (set ++ due, q) else ([], record { schedule = (when, set) ∷ s; index = d })

unfoldable pub drain_due : ℕ → RetrySchedule → List Text × RetrySchedule
drain_due now q = drain now q.schedule q.index
