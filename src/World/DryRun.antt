-- ===== src/World/DryRun.antt =====
-- src/sync: functions that leave the disk and the database alone, and how they compose.
use jmapsyncd.Base.{◌≡◌, refl, Bool, true, false, Option, none, some, List}
use jmapsyncd.Base.Result.{Result}
use jmapsyncd.World.{
  Outside, World, Error, M, ◌>>=◌, pure, fail, gets, modify, answer, lift, when, unix_now,
  new_uuid_string, run_sql, for_each,
}
use jmapsyncd.World.Within.{
  Within, Untouched, Untouched-IsOrder, Within-bind, Within-if, Within-option, Within-modify,
  Within-pure, Within-fail, Within-gets, Within-answer, Within-lift, Within-when, Within-for_each,
}

module _ {O : Outside} where
  abbrev pub Silent : {A : Type 0} → M O A → Type 0
  Silent m = Within (Untouched O) m

  -- The combinators, for this relation.
  pub bind :
      {A B : Type 0} {m : M O A} {f : A → M O B}
      → Silent m
      → ((a : A) → Silent (f a))
      → Silent (m >>= f)
  bind = Within-bind Untouched-IsOrder

  pub nothing : {A : Type 0} (a : A) → Silent (pure a)
  nothing = Within-pure Untouched-IsOrder

  pub read :
      {A B : Type 0} (g : World O → A) {f : A → M O B}
      → ((a : A) → Silent (f a))
      → Silent (gets g >>= f)
  read g h = bind (Within-gets Untouched-IsOrder g) h

  pub each :
      {A : Type 0} (l : List A) {f : A → M O (Unit {0})}
      → ((a : A) → Silent (f a))
      → Silent (for_each l f)
  each = Within-for_each Untouched-IsOrder

  pub guarded : (c : Bool) {m : M O (Unit {0})} → Silent m → Silent (when c m)
  guarded = Within-when Untouched-IsOrder

  pub asked : {A : Type 0} (a : Option A) → Silent (answer {O = O} a)
  asked = Within-answer Untouched-IsOrder

  pub lifted : {A : Type 0} (r : Result Error A) → Silent (lift {O = O} r)
  lifted = Within-lift Untouched-IsOrder

  pub gotten : {A : Type 0} (f : World O → A) → Silent (gets f)
  gotten = Within-gets Untouched-IsOrder

  pub stop : {A : Type 0} (e : Error) → Silent (fail {O = O} {A = A} e)
  stop = Within-fail Untouched-IsOrder

  pub either :
      {A : Type 0} (c : Bool) {m n : M O A}
      → Silent m
      → Silent n
      → Silent (elim c [ true ↦ m | false ↦ n ])
  either = Within-if Untouched-IsOrder

  pub option :
      {A B : Type 0} (a : Option A) {m : M O B} {f : A → M O B}
      → Silent m
      → ((x : A) → Silent (f x))
      → Silent (elim a [ none ↦ m | some x ↦ f x ])
  option = Within-option Untouched-IsOrder

  pub change :
      (f : World O → World O)
      → ((w : World O) → ((f w).disk ≡ w.disk) × ((f w).db ≡ w.db))
      → Silent (modify f)
  change = Within-modify Untouched-IsOrder

  pub Silent-unix_now : Silent unix_now
  unfolding unix_now
  Silent-unix_now = record { at = λ w. (refl, refl) }

  pub Silent-run_sql : Silent run_sql
  unfolding run_sql
  Silent-run_sql = record { at = λ w. (refl, refl) }

  pub Silent-new_uuid_string : Silent new_uuid_string
  unfolding new_uuid_string
  Silent-new_uuid_string = record { at = λ w. (refl, refl) }
