-- ===== src/MainLoop/Watchers/Registered.antt =====
-- What is registered with epoll, and what is in the list.
use c_wrapper.Prelude.{ℕ, ◌≡◌, ◌≢◌, ◌⊎◌, inl, inr, refl, true, false, none, some, ==_ne, Bool-cases}
use c_wrapper.Observers.{System, is_active, contains, add}
use c_wrapper.Observers.Invariant.{IsSound}
use c_wrapper.Observers.Listing.{MayRefuse, add_lem, remove_lem}
use c_wrapper.MainLoop.Watchers.{
  Epoll, max_watchers, Watchers, register, add_fd_watcher, unregister, remove_fd_watcher,
}

module _ (epoll : Epoll) (k : epoll.State) (s : System) (v : IsSound max_watchers s) (w fd : ℕ)
    (named : w ≢ 0) where
  -- The loop's watchers, with this list of observers.
  abbrev loop_watchers : Watchers epoll
  loop_watchers = record { has_epoll = true; kernel = k; observers = s.observers }

  in_list :
      let l' = (add max_watchers s.observers w).0 in
      (contains max_watchers l' w ≡ true)
      ⊎ (l' ≡ s.observers) × MayRefuse max_watchers s.observers w
  in_list = elim (add_lem max_watchers w s v) [
    | inl (done, absent, there, counted) ↦ inl there
    | inr (refused, same, why) ↦ inr (same, why)
  ]

  -- addFdWatcher of a watcher: where the system accepts it, it is registered for its descriptor, and
  -- the list holds it too, or has refused it as it may; where the system refuses it, neither
  -- changes. No other descriptor changes.
  pub add_fd_watcher_lem :
      let t = add_fd_watcher epoll loop_watchers w (some fd) in
      ((u : ℕ) → u ≢ fd → epoll.registered t.kernel u ≡ epoll.registered k u)
      × (((epoll.ctl_add k fd w).1 ≡ true)
            × (epoll.registered t.kernel fd ≡ some w)
            × ((contains max_watchers t.observers w ≡ true)
                ⊎ (t.observers ≡ s.observers) × MayRefuse max_watchers s.observers w)
          ⊎ ((epoll.ctl_add k fd w).1 ≡ false)
            × (epoll.registered t.kernel fd ≡ epoll.registered k fd)
            × (t.observers ≡ s.observers))
  unfolding add_fd_watcher register
  add_fd_watcher_lem = rw (==_ne w 0 named) (elim (Bool-cases (epoll.ctl_add k fd w).1) [
    | inl ok ↦ rw ok (epoll.add_keeps k fd w, inl (refl, epoll.adds k fd w ok, in_list))
    | inr refused ↦
        rw refused (epoll.add_keeps k fd w, inr (refl, epoll.add_fails k fd w refused, refl))
  ])

  -- removeFdWatcher of a listed watcher that is registered for its descriptor takes it off the list
  -- and off epoll, and changes no other descriptor.
  pub remove_fd_watcher_lem :
      (i : ℕ)
      → is_active s.observers w i ≡ true
      → epoll.registered k fd ≡ some w
      → let t = remove_fd_watcher epoll loop_watchers w (some fd) in
        (epoll.registered t.kernel fd ≡ none)
        × (contains max_watchers t.observers w ≡ false)
        × ((u : ℕ) → u ≢ fd → epoll.registered t.kernel u ≡ epoll.registered k u)
  unfolding remove_fd_watcher unregister
  remove_fd_watcher_lem i active there =
      rw (==_ne w 0 named) (
        epoll.deletes k fd w there,
        (remove_lem max_watchers w i s v active).1,
        epoll.del_keeps k fd,
      )
