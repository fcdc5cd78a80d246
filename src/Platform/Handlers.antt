-- ===== src/Platform/Handlers.antt =====
-- What becomes of the handlers that were there before `init`.
use c_wrapper.Prelude.{
  ℕ, ◌≡◌, ◌≢◌, ◌⊎◌, inl, inr, refl, Bool, true, false, Option, none, some, ◌∙◌, ℕ_discrete,
}
use c_wrapper.Platform.{
  Signals, sigint, sigterm, Platform, install_signal, remove_signal, set_up, init, deinit,
}

-- A platform whose handlers are not installed.
abbrev pub idle : ℕ → ℕ → Option ℕ → Platform
idle old_int old_term callback = record {
  installed = false;
  old_int = old_int;
  old_term = old_term;
  deinit_callback = callback;
}

module _ (system : Signals) (handler : ℕ) where
  -- What every signal does is the same.
  abbrev pub Same : system.State → system.State → Type 0
  Same k l = (u : ℕ) → system.action l u ≡ system.action k u

  -- The system accepts actions for the signal.
  abbrev Accepts : ℕ → Type 0
  Accepts s = (x : system.State) (c : ℕ) → (now : ℕ) × ((system.sigaction x s c).1 ≡ some now)

  accepted : (k : system.State) (s a old : ℕ) → (system.sigaction k s a).1 ≡ some old → Accepts s
  accepted k s a old e x c = system.accepts k x s a c old e

  sets : (x : system.State) (s c : ℕ) → Accepts s → system.action (system.sigaction x s c).0 s ≡ c
  sets x s c accepts = let (now, e) = accepts x c in system.installs x s c now e

  -- The handlers are installed, and what was there before is known.
  record Ready (k k' : system.State) (p p' : Platform) : Type 0 where
    was_int : p'.old_int ≡ system.action k sigint
    was_term : p'.old_term ≡ system.action k sigterm
    now_int : system.action k' sigint ≡ handler
    now_term : system.action k' sigterm ≡ handler
    others : (u : ℕ) → u ≢ sigint → u ≢ sigterm → system.action k' u ≡ system.action k u
    accepts_int : Accepts sigint
    accepts_term : Accepts sigterm

  Installed : system.State → Platform → system.State × Platform × Bool → Type 0
  Installed k p (k', p', ok) =
      ((ok ≡ false) × Same k k' × (p'.installed ≡ p.installed)) ⊎ ((ok ≡ true) × Ready k k' p p')

  remove_signal-Ready :
      (k k' : system.State) (p p' : Platform)
      → Ready k k' p p'
      → Same k (remove_signal system handler k' p')
  unfolding remove_signal
  remove_signal-Ready k k' p p' r u =
      let k1 = (system.sigaction k' sigint p'.old_int).0 in
      elim (ℕ_discrete u sigterm) [
        | yes at_term ↦ rw at_term (sets k1 sigterm p'.old_term r.accepts_term ∙ r.was_term)
        | no not_term ↦
            system.keeps k1 sigterm p'.old_term u not_term ∙ elim (ℕ_discrete u sigint) [
              | yes at_int ↦ rw at_int (sets k' sigint p'.old_int r.accepts_int ∙ r.was_int)
              | no not_int ↦
                  system.keeps k' sigint p'.old_int u not_int ∙ r.others u not_int not_term
            ]
      ]

  module _ (k : system.State) (p : Platform) where
    abbrev k1 : system.State
    k1 = (system.sigaction k sigint handler).0

    abbrev k2 : system.State
    k2 = (system.sigaction k1 sigterm handler).0

    install-none :
        (system.sigaction k sigint handler).1 ≡ none
        → install_signal system handler k p ≡ (k1, p, false)
    unfolding install_signal
    install-none e = rw (e, install_signal) refl

    install-half :
        (old : ℕ)
        → (system.sigaction k sigint handler).1 ≡ some old
        → (system.sigaction k1 sigterm handler).1 ≡ none
        → install_signal system handler k p
          ≡ ((system.sigaction k2 sigint old).0, record p { old_int = old }, false)
    unfolding install_signal
    install-half old e f = rw (e, f, install_signal) refl

    install-both :
        (old old' : ℕ)
        → (system.sigaction k sigint handler).1 ≡ some old
        → (system.sigaction k1 sigterm handler).1 ≡ some old'
        → install_signal system handler k p
          ≡ (k2, record p { old_int = old; old_term = old' }, true)
    unfolding install_signal
    install-both old old' e f = rw (e, f, install_signal) refl

    none_changed : (system.sigaction k sigint handler).1 ≡ none → Same k k1
    none_changed e u = elim (ℕ_discrete u sigint) [
      | yes at_int ↦ rw at_int (system.fails k sigint handler e)
      | no not_int ↦ system.keeps k sigint handler u not_int
    ]

    half_changed :
        (old : ℕ)
        → (system.sigaction k sigint handler).1 ≡ some old
        → (system.sigaction k1 sigterm handler).1 ≡ none
        → Same k (system.sigaction k2 sigint old).0
    half_changed old e f u = elim (ℕ_discrete u sigint) [
      | yes at_int ↦ rw at_int (
          sets k2 sigint old (accepted k sigint handler old e)
          ∙ system.replaces k sigint handler old e)
      | no not_int ↦ system.keeps k2 sigint old u not_int ∙ elim (ℕ_discrete u sigterm) [
        | yes at_term ↦
            rw at_term (system.fails k1 sigterm handler f) ∙ system.keeps k sigint handler u not_int
        | no not_term ↦
            system.keeps k1 sigterm handler u not_term ∙ system.keeps k sigint handler u not_int
      ]
    ]

    both-Ready :
        (old old' : ℕ)
        → (system.sigaction k sigint handler).1 ≡ some old
        → (system.sigaction k1 sigterm handler).1 ≡ some old'
        → Ready k k2 p (record p { old_int = old; old_term = old' })
    both-Ready old old' e f = record {
      was_int = system.replaces k sigint handler old e;
      was_term =
          system.replaces k1 sigterm handler old' f
          ∙ system.keeps k sigint handler sigterm (λ h. cc);
      now_int =
          system.keeps k1 sigterm handler sigint (λ h. cc) ∙ system.installs k sigint handler old e;
      now_term = system.installs k1 sigterm handler old' f;
      others = λ u not_int not_term.
          system.keeps k1 sigterm handler u not_term ∙ system.keeps k sigint handler u not_int;
      accepts_int = accepted k sigint handler old e;
      accepts_term = accepted k1 sigterm handler old' f;
    }

    second :
        (old : ℕ)
        → (system.sigaction k sigint handler).1 ≡ some old
        → (got : Option ℕ) → (system.sigaction k1 sigterm handler).1 ≡ got
        → Installed k p (install_signal system handler k p)
    unfolding Installed
    second old e none f = rw (install-half old e f) (inl (refl, half_changed old e f, refl))
    second old e (some old') f =
        rw (install-both old old' e f) (inr (refl, both-Ready old old' e f))

    first :
        (got : Option ℕ)
        → (system.sigaction k sigint handler).1 ≡ got
        → Installed k p (install_signal system handler k p)
    unfolding Installed
    first none e = rw (install-none e) (inl (refl, none_changed e, refl))
    first (some old) e = second old e _ refl

    installed_lem : Installed k p (install_signal system handler k p)
    installed_lem = first _ refl

  -- `init` has failed and changed no handler; or it has installed the handlers, and `deinit` puts
  -- those back that were there before, and calls the callback given to `init`.
  abbrev pub Works : system.State → Option ℕ → system.State × Platform × Bool → Type 0
  Works k callback (k', p', ok) =
      let (k'', p'', called) = deinit system handler k' p' in
      ((ok ≡ false) × Same k k' × (p'.installed ≡ false))
      ⊎ ((ok ≡ true)
          × (system.action k' sigint ≡ handler)
          × (system.action k' sigterm ≡ handler)
          × Same k k''
          × (p''.installed ≡ false)
          × (called ≡ callback))

  set_up-Works :
      (k k' : system.State) (p p' : Platform) (answer : Option Bool) (callback : Option ℕ)
      → Ready k k' p p'
      → Works k callback (set_up system handler k' (record p' { installed = true }) answer callback)
  unfolding deinit remove_signal
  set_up-Works k k' p p' none callback r = inr (
    refl,
    r.now_int,
    r.now_term,
    unfold remove_signal in remove_signal-Ready k k' p p' r,
    refl,
    refl,
  )
  set_up-Works k k' p p' (some true) callback r = inr (
    refl,
    r.now_int,
    r.now_term,
    unfold remove_signal in remove_signal-Ready k k' p p' r,
    refl,
    refl,
  )
  set_up-Works k k' p p' (some false) callback r =
      inl (refl, unfold remove_signal in remove_signal-Ready k k' p p' r, refl)

  -- On a platform whose handlers are not installed, init either fails, because the system refuses a
  -- handler or the callback answers false, and then every signal does what it did before; or it
  -- installs the handler of SIGINT and SIGTERM, and then deinit puts back what every signal did
  -- before and calls the callback once that was given to init.
  pub init_lem :
      (k : system.State) (old_int old_term : ℕ) (callback : Option ℕ) (answer : Option Bool)
      (new_callback : Option ℕ)
      → Works k new_callback
          (init system handler k (idle old_int old_term callback) answer new_callback)
  unfolding init Installed
  init_lem k old_int old_term callback answer new_callback =
      let p = idle old_int old_term callback in
      elim (installed_lem k p) [
        | inl (refused, same, off) ↦ rw refused (inl (refl, same, off))
        | inr (done, r) ↦ rw done (set_up-Works k _ p _ answer new_callback r)
      ]
