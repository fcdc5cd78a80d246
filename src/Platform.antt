-- ===== src/Platform.antt =====
-- common/Platform.h: the signal handlers of the program, and its set-up callbacks.
pub mod Handlers
pub mod Instance
mod Tests
use c_wrapper.Prelude.{ℕ, ◌≡◌, ◌≢◌, ◌&&◌, Bool, true, false, Option, none, some, if◌then◌else◌}

-- The system's `sigaction`: what each signal does, the call with what it has replaced (none: it
-- failed), and what its manual says of it. Whether it accepts a signal depends on the signal only.
pub record Signals : Type 1 where
  pub State : Type 0
  pub action : State → ℕ → ℕ
  pub sigaction : State → ℕ → ℕ → State × Option ℕ
  pub replaces : (k : State) (s a old : ℕ) → (sigaction k s a).1 ≡ some old → old ≡ action k s
  pub installs :
      (k : State) (s a old : ℕ) → (sigaction k s a).1 ≡ some old → action (sigaction k s a).0 s ≡ a
  pub fails :
      (k : State) (s a : ℕ) → (sigaction k s a).1 ≡ none → action (sigaction k s a).0 s ≡ action k s
  pub keeps : (k : State) (s a u : ℕ) → u ≢ s → action (sigaction k s a).0 u ≡ action k u
  pub accepts :
      (k l : State) (s a b : ℕ) (old : ℕ)
      → (sigaction k s a).1 ≡ some old
      → (now : ℕ) × ((sigaction l s b).1 ≡ some now)

abbrev pub sigint : ℕ
sigint = 2

abbrev pub sigterm : ℕ
sigterm = 15

-- `mSignalInstalled`, `mOldInt`, `mOldTerm`, `mDeinitCallback`.
pub record Platform : Type 0 where
  pub installed : Bool
  pub old_int : ℕ
  pub old_term : ℕ
  pub deinit_callback : Option ℕ

abbrev pub fresh : Platform
fresh = record { installed = false; old_int = 0; old_term = 0; deinit_callback = none }

module _ (system : Signals) (handler : ℕ) where
  -- `installSignal`; `handler` is `_sig_handler`.
  pub install_signal : system.State → Platform → system.State × Platform × Bool
  install_signal k p =
      let (k', got) = system.sigaction k sigint handler in
      elim got [
        | none ↦ (k', p, false)
        | some old ↦
            let (k'', got') = system.sigaction k' sigterm handler in
            elim got' [
              | none ↦ ((system.sigaction k'' sigint old).0, record p { old_int = old }, false)
              | some old' ↦ (k'', record p { old_int = old; old_term = old' }, true)
            ]
      ]

  -- `removeSignal`.
  pub remove_signal : system.State → Platform → system.State
  remove_signal k p =
      (system.sigaction (system.sigaction k sigint p.old_int).0 sigterm p.old_term).0

  -- The rest of `init` once the handlers are installed; `answer` is that of the callback, if there
  -- is one.
  abbrev pub set_up :
      system.State → Platform → Option Bool → Option ℕ → system.State × Platform × Bool
  set_up k p none deinit_callback = (k, record p { deinit_callback = deinit_callback }, true)
  set_up k p (some true) deinit_callback = (k, record p { deinit_callback = deinit_callback }, true)
  set_up k p (some false) deinit_callback =
      (remove_signal k p, record p { installed = false }, false)

  -- `init`.
  pub init : system.State → Platform → Option Bool → Option ℕ → system.State × Platform × Bool
  init k p answer deinit_callback =
      if p.installed
      then (k, p, true)
      else let (k', p', done) = install_signal k p in
        if done
        then set_up k' (record p' { installed = true }) answer deinit_callback
        else (k', p', false)

  -- `deinit`, also the destructor's; with the callback that it calls.
  pub deinit : system.State → Platform → system.State × Platform × Option ℕ
  deinit k p =
      if p.installed
      then (
        remove_signal k p,
        record p { installed = false; deinit_callback = none },
        p.deinit_callback,
      )
      else (k, p, none)

-- `sInstantiated` and `sLoop`; a loop is named by a number.
pub record Statics : Type 0 where
  pub instantiated : Bool
  pub loop : Option ℕ

-- `Platform(loop)`: none where the assertion fails, which only a build for debugging has.
pub create : (debug : Bool) → ℕ → Statics → Option (Statics × Platform)
create debug l st =
    if debug && st.instantiated
    then none
    else some (record { instantiated = true; loop = some l }, fresh)

-- `_sig_handler`: the loop that it terminates.
abbrev pub terminated : Statics → Option ℕ
terminated st = st.loop

-- `~Platform`, with the callback that `deinit` calls.
pub destroy :
    (system : Signals) (handler : ℕ) → system.State → Platform → system.State × Statics × Option ℕ
destroy system handler k p =
    let (k', p', called) = deinit system handler k p in
    (k', record { instantiated = false; loop = none }, called)
