-- ===== src/MainLoop/Watchers.antt =====
-- `addFdWatcher` and `removeFdWatcher` of common/MainLoop.cpp. A watcher is its address, 0 the null
-- pointer; `fd` is what its `getFD` returns, none where that is negative.
pub mod Registered
mod Tests
use c_wrapper.Prelude.{ℕ, ◌≡◌, ◌≢◌, Bool, true, false, Option, none, some, not, if◌then◌else◌, ◌==◌}
use c_wrapper.Observers.{ObserverList, add, remove}

-- The system's `epoll_ctl` on `mEpollFd`: the watcher that is registered for a descriptor, the calls
-- `EPOLL_CTL_ADD` and `EPOLL_CTL_DEL` with whether they succeed, and what the manual says of them.
pub record Epoll : Type 1 where
  pub State : Type 0
  pub registered : State → ℕ → Option ℕ
  pub ctl_add : State → ℕ → ℕ → State × Bool
  pub ctl_del : State → ℕ → State × Bool
  pub adds :
      (k : State) (fd w : ℕ) → (ctl_add k fd w).1 ≡ true → registered (ctl_add k fd w).0 fd ≡ some w
  pub add_keeps :
      (k : State) (fd w u : ℕ) → u ≢ fd → registered (ctl_add k fd w).0 u ≡ registered k u
  pub add_fails :
      (k : State) (fd w : ℕ)
      → (ctl_add k fd w).1 ≡ false
      → registered (ctl_add k fd w).0 fd ≡ registered k fd
  pub deletes :
      (k : State) (fd w : ℕ) → registered k fd ≡ some w → registered (ctl_del k fd).0 fd ≡ none
  pub del_keeps : (k : State) (fd u : ℕ) → u ≢ fd → registered (ctl_del k fd).0 u ≡ registered k u

abbrev pub max_watchers : ℕ
max_watchers = 64

module _ (epoll : Epoll) where
  -- The epoll instance, whether there is one, and `mFdWatchers`.
  pub record Watchers : Type 0 where
    pub has_epoll : Bool
    pub kernel : epoll.State
    pub observers : ObserverList

  -- `addFdWatcher`, where the watcher is not null and its descriptor not negative.
  pub register : Watchers → ℕ → ℕ → Watchers
  register s w fd =
      if not s.has_epoll
      then s
      else let (k, ok) = epoll.ctl_add s.kernel fd w in
        record s {
          kernel = k;
          observers = if ok then (add max_watchers s.observers w).0 else s.observers;
        }

  -- `addFdWatcher`.
  pub add_fd_watcher : Watchers → ℕ → Option ℕ → Watchers
  add_fd_watcher s w none = s
  add_fd_watcher s w (some fd) = if w == 0 then s else register s w fd

  -- `removeFdWatcher`, the call of the system.
  pub unregister : Watchers → Option ℕ → epoll.State
  unregister s none = s.kernel
  unregister s (some fd) = if s.has_epoll then (epoll.ctl_del s.kernel fd).0 else s.kernel

  -- `removeFdWatcher`.
  pub remove_fd_watcher : Watchers → ℕ → Option ℕ → Watchers
  remove_fd_watcher s w fd =
      if w == 0
      then s
      else record s { kernel = unregister s fd; observers = (remove max_watchers s.observers w).0 }
