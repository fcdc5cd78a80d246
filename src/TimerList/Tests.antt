-- ===== src/TimerList/Tests.antt =====
-- Runs of the timer list, and its laws at a list of two timers.
use c_wrapper.Prelude.{
  ℕ, ◌+◌, ◌-◌, ◌*◌, ◌≡◌, ◌≤◌, refl, arith, Bool, true, some, none, List, [], ◌∷◌, ◌++◌, ◌||◌, ◌&&◌,
  not, ◌==◌, if◌then◌else◌,
}
use c_wrapper.TimerList.{
  contains, insert_sorted, insert_timer, remove_timer, take_expired, next_timeout, wait_time_ms,
}
use c_wrapper.TimerList.Order.{
  IsSorted, IsUnique, insert_timer_lem, insert_sorted-append, remove_timer_lem,
}
use c_wrapper.TimerList.Due.{take_expired_lem, take_expired_due, next_timeout_lem}

-- Timer 1 expires at 100, timer 2 at 150.
abbrev by_number : ℕ → ℕ
by_number t = 50 * t + 50

abbrev queued : List ℕ
queued = 1 ∷ 2 ∷ []

abbrev always : ℕ → Bool
always t = true

queued-IsUnique : IsUnique queued
unfolding contains
queued-IsUnique = (refl, (refl, tt))

queued-IsSorted : IsSorted by_number queued
queued-IsSorted = omega arith

insert_in_front : insert_timer by_number (some 0) queued ≡ 0 ∷ 1 ∷ 2 ∷ []
unfolding insert_timer contains insert_sorted
insert_in_front = refl

contains-queued : contains 1 queued ≡ true
unfolding contains
contains-queued = refl

insert_timer_lem_test :
    IsSorted by_number (insert_timer by_number (some 0) queued)
    × IsUnique (insert_timer by_number (some 0) queued)
    × ((u : ℕ)
        → contains u (insert_timer by_number (some 0) queued) ≡ (0 == u || contains u queued))
insert_timer_lem_test = insert_timer_lem by_number 0 queued queued-IsSorted queued-IsUnique

insert_sorted-append_test : insert_sorted by_number 3 queued ≡ queued ++ 3 ∷ []
insert_sorted-append_test =
    insert_sorted-append by_number 3 queued [] queued-IsSorted (omega arith) tt

remove_timer_lem_test :
    IsSorted by_number (remove_timer (some 1) queued)
    × IsUnique (remove_timer (some 1) queued)
    × ((u : ℕ) → contains u (remove_timer (some 1) queued) ≡ (not (1 == u) && contains u queued))
remove_timer_lem_test = remove_timer_lem by_number 1 queued queued-IsSorted queued-IsUnique

take_first : take_expired by_number 120 always queued ≡ (2 ∷ [], some 1)
unfolding take_expired
take_first = refl

take_expired_lem_test :
    (queued ≡ 1 ∷ 2 ∷ [])
    × (100 ≤ 120)
    × (always 1 ≡ true)
    × ((u : ℕ) → contains u queued ≡ true → 100 ≤ by_number u)
take_expired_lem_test =
    take_expired_lem by_number 120 always 1 queued (2 ∷ []) queued-IsSorted take_first

take_expired_due_test :
    (t : ℕ) × (rest : List ℕ) × (queued ≡ t ∷ rest)
    × (take_expired by_number 120 always queued ≡ (rest, if always t then some t else none))
take_expired_due_test =
    take_expired_due by_number 120 always 1 queued queued-IsSorted contains-queued (omega arith)

next_timeout_lem_test :
    (next_timeout by_number 30 queued ≤ wait_time_ms)
    × ((u : ℕ) → contains u queued ≡ true → next_timeout by_number 30 queued ≤ by_number u - 30)
next_timeout_lem_test = next_timeout_lem by_number 30 queued queued-IsSorted
