-- ===== src/Observers/Tests.antt =====
-- A run of a list of two entries: 7 is added, a notify calls it, a removal of it waits, the callback
-- ends, the removal ends; and the laws along that run.
use c_wrapper.Prelude.{◌+◌, ◌%◌, ◌^◌, ◌≡◌, ◌≢◌, refl, arith, true, false, none, some, [], ◌∷◌, ◌⊎◌}
use c_wrapper.Observers.{
  System, adds, removes, starts_removal, ends_removal, calls_one, returns_from, ends_notify, init,
  first, find_active, contains, place, add, remove, begin_at, begin_wait, may_finish, acquire,
  release, step, removed, not_found, runs, has, is_active,
}
use c_wrapper.Observers.Invariant.{IsSound, init-IsSound}
use c_wrapper.Observers.Steps.{IsSound-step}
use c_wrapper.Observers.Removal.{IsAbsent, IsQuiet}
use c_wrapper.Observers.Safety.{run, ends_removal_lem, starts_removal_lem}
use c_wrapper.Observers.Listing.{MayRefuse, add_lem, remove_lem, acquire_new, wait-skipped}

abbrev start : System
start = record { observers = init; calls = []; waiters = [] }

abbrev added : System
added = step 2 (adds 7) start

abbrev called : System
called = step 2 (calls_one 0 1) added

abbrev waiting : System
waiting = step 2 (starts_removal 7) called

abbrev returned : System
returned = step 2 (returns_from 0 7) waiting

start-IsSound : IsSound 2 start
start-IsSound = init-IsSound 2

added-IsSound : IsSound 2 added
added-IsSound = IsSound-step 2 (adds 7) start (omega arith) start-IsSound

added-calls : added.calls ≡ []
unfolding step
added-calls = refl

called-calls : called.calls ≡ record { slot = 0; target = 7 } ∷ []
unfolding step acquire add place first
called-calls = refl

IsSound-step_example : IsSound 2 (step 2 (calls_one 0 1) added)
IsSound-step_example =
    IsSound-step 2 (calls_one 0 1) added (rw added-calls (omega arith)) added-IsSound

waiting-IsSound : IsSound 2 waiting
waiting-IsSound =
    IsSound-step 2 (starts_removal 7) called (rw called-calls (omega arith)) IsSound-step_example

waiting-calls : waiting.calls ≡ record { slot = 0; target = 7 } ∷ []
unfolding step acquire add place first
waiting-calls = refl

returned-IsSound : IsSound 2 returned
returned-IsSound =
    IsSound-step 2 (returns_from 0 7) waiting (rw waiting-calls (omega arith)) waiting-IsSound

returned-calls : returned.calls ≡ []
unfolding step acquire add place first begin_wait begin_at find_active release
returned-calls = refl

removal_waits : has 0 returned.waiters ≡ true
unfolding step acquire add place first begin_wait begin_at find_active release
removal_waits = refl

removal_may_end : may_finish returned.observers 0 ≡ true
unfolding step acquire add place first begin_wait begin_at find_active release
removal_may_end = refl

entry_of_7 : (returned.observers.entries 0).observer ≡ 7
unfolding step acquire add place first begin_wait begin_at find_active release
entry_of_7 = refl

ends_removal_lem_example :
    IsQuiet
      (run 2 (calls_one 0 9 ∷ ends_notify ∷ []) (step 2 (ends_removal 0) returned))
      (returned.observers.entries 0).observer
ends_removal_lem_example =
    ends_removal_lem 2 0 (calls_one 0 9 ∷ ends_notify ∷ []) returned
      (rw returned-calls (omega arith)) returned-IsSound removal_waits removal_may_end refl

removal_returns : (begin_wait 2 added.observers 7).1 ≡ none
unfolding step add place first begin_wait begin_at find_active
removal_returns = refl

removal_removes : (begin_wait 2 added.observers 7).2 ≡ removed
unfolding step add place first begin_wait begin_at find_active
removal_removes = refl

starts_removal_lem_example :
    IsQuiet (run 2 (calls_one 0 9 ∷ adds 8 ∷ []) (step 2 (starts_removal 7) added)) 7
starts_removal_lem_example =
    starts_removal_lem 2 7 (calls_one 0 9 ∷ adds 8 ∷ []) added (rw added-calls (omega arith))
      added-IsSound removal_returns removal_removes refl

add_lem_test :
    let (l', done) = add 2 added.observers 9 in
    (done ≡ true)
      × IsAbsent added.observers 9
      × (contains 2 l' 9 ≡ true)
      × (l'.generation ≡ (added.observers.generation + 1) % 2 ^ 64)
    ⊎ (done ≡ false) × (l' ≡ added.observers) × MayRefuse 2 added.observers 9
add_lem_test = add_lem 2 9 added added-IsSound

called-active : is_active called.observers 7 0 ≡ true
unfolding step acquire add place first
called-active = refl

called-runs : runs 0 7 called.calls ≡ true
unfolding step acquire add place first
called-runs = refl

remove_lem_test :
    ((remove 2 called.observers 7).1 ≡ removed)
    × (contains 2 (remove 2 called.observers 7).0 7 ≡ false)
remove_lem_test = remove_lem 2 7 0 called IsSound-step_example called-active

wait-skipped_test :
    let s' = step 2 (removes 7) called in
    (begin_wait 2 s'.observers 7 ≡ (s'.observers, none, not_found)) × (runs 0 7 s'.calls ≡ true)
wait-skipped_test = wait-skipped 2 7 0 called IsSound-step_example called-active called-runs

start-adds : (add 2 start.observers 7).1 ≡ true
unfolding add first
start-adds = refl

acquire_new_test : (acquire (add 2 start.observers 7).0 0 0).1 ≢ some 7
acquire_new_test = acquire_new 2 7 0 0 start start-IsSound start-adds (omega arith) (omega arith)
