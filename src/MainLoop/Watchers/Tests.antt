-- ===== src/MainLoop/Watchers/Tests.antt =====
-- An epoll that registers each descriptor once, and a watcher that comes and goes.
use c_wrapper.Prelude.{
  ℕ, ◌≡◌, ◌≢◌, ◌⊎◌, refl, true, false, Option, none, some, if◌then◌else◌, ◌==◌, ==_refl, ==_ne, [],
  arith,
}
use c_wrapper.Observers.{System, init, adds, step, is_active, add, place, first, contains}
use c_wrapper.Observers.Invariant.{IsSound, init-IsSound}
use c_wrapper.Observers.Steps.{IsSound-step}
use c_wrapper.Observers.Listing.{MayRefuse}
use c_wrapper.MainLoop.Watchers.{Epoll, max_watchers, add_fd_watcher, remove_fd_watcher}
use c_wrapper.MainLoop.Watchers.Registered.{add_fd_watcher_lem, remove_fd_watcher_lem}

abbrev put : (ℕ → Option ℕ) → ℕ → Option ℕ → ℕ → Option ℕ
put k fd w u = if u == fd then w else k u

abbrev simple_epoll : Epoll
simple_epoll = record {
  State = ℕ → Option ℕ;
  registered = λ k u. k u;
  ctl_add = λ k fd w. (put k fd (some w), true);
  ctl_del = λ k fd. (put k fd none, true);
  adds = λ k fd w e. rw (==_refl fd) refl;
  add_keeps = λ k fd w u ne. rw (==_ne u fd ne) refl;
  add_fails = λ k fd w e. cc;
  deletes = λ k fd w e. rw (==_refl fd) refl;
  del_keeps = λ k fd u ne. rw (==_ne u fd ne) refl;
}

abbrev nothing : System
nothing = record { observers = init; calls = []; waiters = [] }

add_fd_watcher_lem_example :
    let t =
      add_fd_watcher simple_epoll
        (record { has_epoll = true; kernel = λ u. none; observers = init })
        7
        (some 4) in
    ((u : ℕ) → u ≢ 4 → simple_epoll.registered t.kernel u ≡ none)
    × ((true ≡ true)
          × (simple_epoll.registered t.kernel 4 ≡ some 7)
          × ((contains max_watchers t.observers 7 ≡ true)
              ⊎ (t.observers ≡ init) × MayRefuse max_watchers init 7)
        ⊎ (true ≡ false) × (simple_epoll.registered t.kernel 4 ≡ none) × (t.observers ≡ init))
add_fd_watcher_lem_example =
    add_fd_watcher_lem simple_epoll (λ u. none) nothing (init-IsSound max_watchers) 7 4 (λ e. cc)

abbrev listed : System
listed = step max_watchers (adds 7) nothing

listed-calls : listed.calls ≡ []
unfolding step
listed-calls = refl

listed-IsSound : IsSound max_watchers listed
listed-IsSound =
    IsSound-step max_watchers (adds 7) nothing (omega arith) (init-IsSound max_watchers)

listed-active : is_active listed.observers 7 0 ≡ true
unfolding step add place first
listed-active = refl

remove_fd_watcher_lem_test :
    let t =
      remove_fd_watcher simple_epoll
        (record {
          has_epoll = true;
          kernel = put (λ u. none) 4 (some 7);
          observers = listed.observers;
        })
        7
        (some 4) in
    (simple_epoll.registered t.kernel 4 ≡ none)
    × (contains max_watchers t.observers 7 ≡ false)
    × ((u : ℕ) → u ≢ 4 → simple_epoll.registered t.kernel u ≡ put (λ u. none) 4 (some 7) u)
remove_fd_watcher_lem_test =
    remove_fd_watcher_lem simple_epoll (put (λ u. none) 4 (some 7)) listed listed-IsSound 7 4
      (λ e. cc) 0 listed-active refl
