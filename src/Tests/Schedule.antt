-- ===== src/Tests/Schedule.antt =====
-- Two messages with retries at 3 and 5, of which one is due at 4.
use jmapsyncd.Base.{
  ◌≡◌, refl, arith, true, All, List, [], ◌∷◌, text, text_eq, nat_eq, option_eq, contains, keep,
}
use jmapsyncd.Base.BTreeMap
use jmapsyncd.Base.Dict
use jmapsyncd.Daemon.RetrySchedule.{
  RetrySchedule, empty, add_name, put_or_drop, unlist, forget, remove, schedule, remove_all, drain,
  drain_due,
}
use jmapsyncd.Daemon.RetrySchedule.Agrees.{Agrees, schedule-Agrees}
use jmapsyncd.Daemon.RetrySchedule.Refines.{
  Call, put, cancel, wake, run, spec_run, Same, Refines, Spares, run-Refines, drain_due-scheduled,
}

-- The first message is scheduled anew.
abbrev two : RetrySchedule
two = schedule (schedule (schedule empty (text "a") 9) (text "b") 5) (text "a") 3

drain_two :
    drain_due 4 two
    ≡ (text "a" ∷ [], record { schedule = (5, text "b" ∷ []) ∷ []; index = (text "b", 5) ∷ [] })
unfolding schedule remove forget unlist put_or_drop add_name keep contains drain_due drain
    remove_all BTreeMap.get BTreeMap.insert BTreeMap.remove Dict.get Dict.insert Dict.remove text_eq
    nat_eq
drain_two = refl

empty-Agrees : Agrees empty
unfolding contains BTreeMap.get Dict.get option_eq
empty-Agrees = record { sorted = tt; listed = λ w n. refl }

one-Agrees : Agrees (schedule empty (text "a") 9)
one-Agrees = (schedule-Agrees empty (text "a") 9 empty-Agrees).0

both-Agrees : Agrees (schedule (schedule empty (text "a") 9) (text "b") 5)
both-Agrees = (schedule-Agrees (schedule empty (text "a") 9) (text "b") 5 one-Agrees).0

two-Agrees : Agrees two
two-Agrees =
    (schedule-Agrees (schedule (schedule empty (text "a") 9) (text "b") 5) (text "a") 3
      both-Agrees).0

abbrev calls : List Call
calls = put (text "c") 7 ∷ cancel (text "b") ∷ wake 2 ∷ []

two-Refines : Refines two (λ n. Dict.get n two.index)
two-Refines = record { agrees = two-Agrees; planned = λ n. refl }

run-Refines_example :
    Same (run calls two).0 (spec_run calls (λ n. Dict.get n two.index)).0
    × Refines (run calls two).1 (spec_run calls (λ n. Dict.get n two.index)).1
run-Refines_example = run-Refines calls two (λ n. Dict.get n two.index) two-Refines

calls-Spares : All (Spares (text "d") 4) calls
calls-Spares = (λ h. ground (arith, h), (λ h. ground (arith, h), (omega arith, tt)))

drain_due-scheduled_example :
    contains (drain_due 6 (run calls (schedule two (text "d") 4)).1).0 (text "d") ≡ true
drain_due-scheduled_example =
    drain_due-scheduled two (text "d") 4 6 calls two-Agrees calls-Spares (omega arith)
