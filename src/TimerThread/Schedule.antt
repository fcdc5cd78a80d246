-- ===== src/TimerThread/Schedule.antt =====
-- When `TimerThread` expires.
use c_wrapper.Prelude.{
  ℕ, ◌+◌, ◌-◌, ◌*◌, ◌^◌, ◌≤◌, ◌<◌, ◌≡◌, refl, arith, Bool, true, false, some, List, [], ◌∷◌, ◌++◌,
  if◌then◌else◌, ltb, ◌==◌, length, ap, ap₂, ◌∙◌, sym, mod-eq_of_lt, ltb_of_le, lt→ltb,
}
use c_wrapper.TimerThread.{
  TimerThread, set_handler, start, int_max, timeout, Turn, Action, sleeps, expired, with_actions,
  run,
}

-- A time to sleep: at least a millisecond, and at most what an `int` holds.
abbrev pub clamp : ℕ → ℕ
clamp n = if n == 0 then 1 else if ltb int_max n then int_max else n

-- With an interval below 2^31 and an expiry and a tick count below 2^63, the sleep lasts what is
-- left until the expiry, but at least a millisecond and at most the largest int.
pub timeout_lem :
    (s : TimerThread) (now : ℕ)
    → s.interval ≤ int_max
    → s.start_time + s.interval < 2 ^ 63
    → now < 2 ^ 63
    → timeout s now ≡ clamp (s.start_time + s.interval - now)
unfolding timeout
timeout_lem s now small fits p =
    let e = mod-eq_of_lt {n = s.start_time + s.interval} {m = 2 ^ 64} (omega arith) in
    rw (ltb_of_le s.interval int_max small, e) (ground arith)

-- With an interval from 2^31 on, start makes the timer expire after one millisecond.
pub long_interval :
    (s : TimerThread) (msec now : ℕ) (repeat : Bool)
    → 2 ^ 31 ≤ msec
    → msec < 2 ^ 32
    → now < 2 ^ 63
    → timeout (start msec repeat now s) now ≡ 1
unfolding start timeout
long_interval s msec now repeat p q r =
    rw (mod-eq_of_lt {n = msec} {m = 2 ^ 32} q, lt→ltb int_max msec (omega arith)) (ground arith)

-- A round in which the thread is not stopped, the handler says to go on, and the tick count is sane.
abbrev pub AllGoing : List Turn → Type 0
AllGoing [] = Unit {0}
AllGoing (m ∷ ms) =
    (m.runs ≡ true) × (m.stays ≡ true) × (m.answer ≡ true) × (m.now < 2 ^ 63) × AllGoing ms

-- The sleeps and calls of a timer that was started at `began`, from its expiry `n + 1` on: the
-- expiry `k` is due at `began + k * interval`, however late the ones before it were handled.
abbrev pub on_time : ℕ → ℕ → ℕ → List Turn → List Action
on_time began interval n [] = []
on_time began interval n (m ∷ ms) =
    sleeps (clamp (began + (n + 1) * interval - m.now))
    ∷ expired
    ∷ on_time began interval (n + 1) ms

-- A timer that repeats, with a handler.
abbrev pub repeating : ℕ → ℕ → TimerThread
repeating time interval = record {
  repeat = true;
  start_time = time;
  interval = interval;
  handler = true;
}

run_turn :
    (time interval : ℕ) (m : Turn) (ms : List Turn)
    → interval ≤ int_max
    → time + interval < 2 ^ 63
    → m.now < 2 ^ 63
    → m.runs ≡ true
    → m.stays ≡ true
    → m.answer ≡ true
    → run (repeating time interval) (m ∷ ms)
      ≡ with_actions
          (sleeps (clamp (time + interval - m.now)) ∷ expired ∷ [])
          (run (repeating (time + interval) interval) ms)
unfolding run
run_turn time interval m ms small fits now a b c =
    let e = mod-eq_of_lt {n = time + interval} {m = 2 ^ 64} (omega arith) in
    rw
      (
        a,
        b,
        c,
        timeout_lem (repeating time interval) m.now small fits now,
        ltb_of_le interval int_max small,
        e,
      )
      refl

run_stopped :
    (s : TimerThread) (last : Turn) (later : List Turn)
    → last.runs ≡ false
    → run s (last ∷ later) ≡ some (s, [])
unfolding run
run_stopped s last later e = rw e refl

on_time-run :
    (ms : List Turn) (time interval began n : ℕ) (last : Turn) (later : List Turn)
    → interval ≤ int_max
    → time ≡ began + n * interval
    → began + (n + length ms) * interval < 2 ^ 63
    → AllGoing ms
    → last.runs ≡ false
    → run (repeating time interval) (ms ++ last ∷ later)
      ≡ some (repeating (began + (n + length ms) * interval) interval, on_time began interval n ms)
on_time-run [] time interval began n last later small at fits g stop =
    run_stopped (repeating time interval) last later stop
    ∙ ap (λ t. some (repeating t interval, [])) {x = time} {y = began + (n + 0) * interval}
        (omega arith)
on_time-run (m ∷ ms) time interval began n last later small at fits (a, b, c, now, g) stop =
    let i : time + interval ≡ began + (n + 1) * interval = omega arith in
    let j : (n + length (m ∷ ms)) * interval ≡ (n + 1 + length ms) * interval =
      ap (λ k. k * interval) {x = n + length (m ∷ ms)} {y = n + 1 + length ms} (omega arith) in
    run_turn time interval m (ms ++ last ∷ later) small (omega arith) now a b c
    ∙ ap (with_actions (sleeps (clamp (time + interval - m.now)) ∷ expired ∷ [])) (
        on_time-run ms (time + interval) interval began (n + 1) last later small i
          (omega (arith, j)) g stop)
    ∙ ap₂
        (λ t k. some (
          repeating (began + k) interval,
          sleeps (clamp (t - m.now)) ∷ expired ∷ on_time began interval (n + 1) ms,
        ))
        i (sym j)

-- A timer with a handler that is started with an interval below 2^31 and repeats expires on time and
-- does not drift: while the thread is not stopped, the handler says to go on, and the expiries and
-- tick counts stay below 2^63, run sleeps each time until the start plus a multiple of the interval
-- (at least a millisecond, at most the largest int) and calls the handler once after it, and it
-- returns when the thread is stopped.
pub run_lem :
    (s : TimerThread) (msec began : ℕ) (ms : List Turn) (last : Turn) (later : List Turn)
    → msec ≤ int_max
    → began + length ms * msec < 2 ^ 63
    → AllGoing ms
    → last.runs ≡ false
    → run (start msec true began (set_handler true s)) (ms ++ last ∷ later)
      ≡ some (repeating (began + length ms * msec) msec, on_time began msec 0 ms)
unfolding start
run_lem s msec began ms last later small fits g stop =
    rw (mod-eq_of_lt {n = msec} {m = 2 ^ 32} (omega arith)) (
      on_time-run ms began msec began 0 last later small (omega arith) (omega arith) g stop
      ∙ ap (λ k. some (repeating (began + k * msec) msec, on_time began msec 0 ms))
          {x = 0 + length ms} {y = length ms} (omega arith))
