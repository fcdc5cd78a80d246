-- ===== src/Platform/Instance.antt =====
-- One Platform from its construction to its destruction.
use c_wrapper.Prelude.{ℕ, ◌≡◌, refl, Bool, true, false, Option, none, some, ◌⊎◌, inl, inr}
use c_wrapper.Platform.{
  Signals, Platform, fresh, sigint, sigterm, init, deinit, Statics, create, terminated, destroy,
}
use c_wrapper.Platform.Handlers.{Same, Works, init_lem}

create_first :
    (debug : Bool) (l : ℕ) (before : Option ℕ)
    → create debug l (record { instantiated = false; loop = before })
      ≡ some (record { instantiated = true; loop = some l }, fresh)
unfolding create
create_first true l before = refl
create_first false l before = refl

module _ (system : Signals) (handler : ℕ) where
  -- What `init` has left is undone by the destructor.
  abbrev pub Undone : system.State → Option ℕ → system.State × Platform × Bool → Type 0
  Undone k callback (k', p', ok) =
      let (k'', st, called) = destroy system handler k' p' in
      Same system handler k k''
      × (terminated st ≡ none)
      × (st.instantiated ≡ false)
      × (((ok ≡ false) × (called ≡ none))
          ⊎ ((ok ≡ true)
              × (system.action k' sigint ≡ handler)
              × (system.action k' sigterm ≡ handler)
              × (called ≡ callback)))

  Works-Undone :
      (k : system.State) (callback : Option ℕ) (r : system.State × Platform × Bool)
      → Works system handler k callback r
      → Undone k callback r
  unfolding destroy deinit
  Works-Undone k callback (k', p', ok) (inl (failed, same, off)) =
      rw off (same, refl, refl, inl (failed, refl))
  Works-Undone k callback (k', p', ok) (inr (done, int, term, same, off, called)) =
      (same, refl, refl, inr (done, int, term, called))

  -- The first instance of Platform is constructed, in any build, and its signal handler terminates
  -- its loop. Whatever init then answers, the destructor leaves every signal as it was before, no
  -- loop to terminate and room for another instance; where init has installed the handlers, it calls
  -- the callback that init was given.
  pub life_lem :
      (k : system.State) (debug : Bool) (l : ℕ) (before : Option ℕ) (answer : Option Bool)
      (callback : Option ℕ)
      → ((st : Statics) × (create debug l (record { instantiated = false; loop = before })
            ≡ some (st, fresh))
          × (terminated st ≡ some l))
        × Undone k callback (init system handler k fresh answer callback)
  life_lem k debug l before answer callback = (
    (record { instantiated = true; loop = some l }, create_first debug l before, refl),
    Works-Undone k callback _ (init_lem system handler k 0 0 none answer callback),
  )
