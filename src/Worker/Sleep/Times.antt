-- ===== src/Worker/Sleep/Times.antt =====
-- How long a sleep lasts, and where it is spent.
use c_wrapper.Prelude.{
  ℕ, ◌+◌, ◌-◌, ◌*◌, ◌≤◌, ◌<◌, ◌≡◌, refl, ◌∙◌, arith, true, false, some, List, [], ◌∷◌, ◌⊎◌, min,
}
use c_wrapper.Worker.{System, is_running, init, Move, run}
use c_wrapper.Worker.Invariant.{init-IsSound, run-IsSound}
use c_wrapper.Worker.Owner.{is_inside}
use c_wrapper.Worker.Sleep.{
  largest_int, is_current_thread, sleep, request_of, no_pause, waits, naps, msleep, NapEnd,
  finished, interrupted, failed, nap,
}
use c_wrapper.SysTime.{Timespec}

-- The nanoseconds of a time.
abbrev pub span : Timespec → ℕ
span t = t.sec * 1000000000 + t.nsec

-- What the manual of nanosleep says of the calls that ask for what the last one has left: no call
-- leaves more than that, and the last sleeps for the whole time.
unfoldable pub Documented : List NapEnd → Timespec → Type 0
Documented [] t = ⊥
Documented (finished ∷ es) t = Unit
Documented (interrupted rest ∷ es) t = (span rest ≤ span t) × Documented es rest
Documented (failed ∷ es) t = ⊥

-- The time that the calls have slept, given what each was asked for: that, less what was left.
pub slept : List NapEnd → List Timespec → ℕ
slept (finished ∷ es) (t ∷ ts) = span t
slept (interrupted rest ∷ es) (t ∷ ts) = span t - span rest + slept es ts
slept _ _ = 0

nap_lem :
    (es : List NapEnd) (t : Timespec)
    → Documented es t
    → (asked : List Timespec) × (nap es t ≡ some asked) × (slept es asked ≡ span t)
unfolding nap slept Documented
nap_lem [] t h = elim h [ ]
nap_lem (failed ∷ es) t h = elim h [ ]
nap_lem (finished ∷ es) t h = (t ∷ [], refl, refl)
nap_lem (interrupted rest ∷ es) t (shorter, h) =
    let (asked, e, all) = nap_lem es rest h in (t ∷ asked, rw e refl, omega (arith, all))

span_of : (msec : ℕ) → span (request_of msec) ≡ msec * 1000000
span_of msec = omega arith

sleep_ms : (sec : ℕ) → 0 < sec → sec ≤ largest_int → sleep sec ≡ some (min sec 2147483 * 1000)
unfolding sleep
sleep_ms sec p q = ground arith

naps_lem :
    (s : System) (msec : ℕ)
    → 0 < msec
    → msec ≤ largest_int
    → msleep false s msec ≡ naps (request_of msec)
unfolding msleep is_current_thread
naps_lem s msec p q = ground arith

-- sleep of a positive number of seconds asks msleep for as many milliseconds, for at most 2147483
-- seconds, which fits an int; and on a thread other than the worker, whatever signals interrupt it,
-- the loop on nanosleep returns and has slept for exactly that time.
pub sleep_lem :
    (sec : ℕ) (s : System) (es : List NapEnd)
    → 0 < sec
    → sec ≤ largest_int
    → let msec = min sec 2147483 * 1000 in
      Documented es (request_of msec)
      → (sleep sec ≡ some msec)
        × (msec ≤ largest_int)
        × (msleep false s msec ≡ naps (request_of msec))
        × ((asked : List Timespec) × (nap es (request_of msec) ≡ some asked)
            × (slept es asked ≡ min sec 2147483 * 1000000000))
sleep_lem sec s es p q h =
    let (asked, returns, all) = nap_lem es (request_of (min sec 2147483 * 1000)) h in
    (
      sleep_ms sec p q,
      ground arith,
      naps_lem s (min sec 2147483 * 1000) (ground arith) (ground arith),
      (asked, returns, all ∙ span_of (min sec 2147483 * 1000) ∙ omega arith),
    )

-- In every interleaving, a msleep called by run is on the condition variable that a stop signals, or
-- does not wait: never in nanosleep. And isCurrentThread is true there.
pub inside_lem :
    (ms : List Move) (msec : ℕ)
    → let s = run ms init in
      is_inside s.task ≡ true
      → (is_current_thread true s ≡ true)
        × ((msleep true s msec ≡ no_pause)
            ⊎ ((msleep true s msec ≡ waits msec) × (is_running s.state ≡ true)))
unfolding msleep is_current_thread
inside_lem ms msec h = let v = run-IsSound ms init init-IsSound in ground arith
