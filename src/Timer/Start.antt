-- ===== src/Timer/Start.antt =====
-- What `start` brings about once `stopAndWait` has returned inside it.
use c_wrapper.Prelude.{ℕ, ◌≡◌, ◌≢◌, arith, Bool, true, false, [], ◌∷◌}
use c_wrapper.Timer.{
  stopped, queued, start, free, done, System, infinite, make_expiry, control_step, control_at,
  returned, controls, step, run,
}
use c_wrapper.Timer.Invariant.{IsSound}

module _ (msec : ℕ) (repeat : Bool) (now : ℕ) (s : System)
    (c : s.control ≡ done (start msec repeat)) where
  -- `start` of a finite interval stores the interval, the repeat flag and the expiry counted from now,
  -- clears the stop request, and leaves the timer queued and on the loop's list.
  pub start_lem :
      IsSound s
      → msec ≢ infinite
      → let t =
          run
            (controls false now
              ∷ controls false now
              ∷ controls false now
              ∷ controls false now
              ∷ controls false now
              ∷ [])
            s in
        (t.state ≡ queued)
        × (t.listed ≡ true)
        × (t.stop_requested ≡ false)
        × (t.interval ≡ msec)
        × (t.repeat ≡ repeat)
        × (t.expiry ≡ make_expiry msec now)
        × (t.control ≡ free)
  unfolding run step control_step control_at returned
  start_lem v finite = ground arith

  -- `start` of the infinite interval returns with the timer stopped, its settings unchanged.
  pub start-infinite :
      IsSound s
      → msec ≡ infinite
      → let t = run (controls false now ∷ []) s in
        (t.state ≡ stopped)
        × (t.listed ≡ false)
        × (t.interval ≡ s.interval)
        × (t.repeat ≡ s.repeat)
        × (t.control ≡ free)
  unfolding run step control_step control_at returned
  start-infinite v e = ground arith
