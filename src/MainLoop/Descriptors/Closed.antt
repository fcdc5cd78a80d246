-- ===== src/MainLoop/Descriptors/Closed.antt =====
-- Which descriptors the destructor closes, and what `loopOnce` does without them.
use c_wrapper.Prelude.{
  ℕ, ◌+◌, ◌≡◌, refl, arith, Bool, true, false, Option, none, some, List, [], ◌∷◌, ◌||◌, ◌&&◌, not,
  if◌then◌else◌, ◌==◌,
}
use c_wrapper.MainLoop.Timers.{Setup}
use c_wrapper.MainLoop.Once.{LoopState, Round, loop_once}
use c_wrapper.MainLoop.Once.Served.{loop_once-invalid}
use c_wrapper.MainLoop.Descriptors.{Opened, construct, destruct, opened}

-- How often the descriptor is in the list.
abbrev pub times : ℕ → List ℕ → ℕ
times u [] = 0
times u (x ∷ xs) = (if x == u then 1 else 0) + times u xs

-- Whether the descriptor is valid.
abbrev pub is_valid : Option ℕ → Bool
is_valid none = false
is_valid (some fd) = true

abbrev pub is_piped : Option (ℕ × ℕ) → Bool
is_piped none = false
is_piped (some p) = true

closed_once :
    (created : Option ℕ) (piped : Option (ℕ × ℕ)) (u : ℕ)
    → let answers : Opened = record { created = created; piped = piped } in
      times u (destruct (construct answers)).1 ≡ times u (opened answers)
unfolding construct destruct
closed_once none piped u = refl
closed_once (some e) none u = refl
closed_once (some e) (some (r, w)) u = omega arith

-- Whatever the system answers, the destructor closes each descriptor as often as the constructor has
-- opened it.
pub closed_lem :
    (answers : Opened) (u : ℕ) → times u (destruct (construct answers)).1 ≡ times u (opened answers)
closed_lem answers u = closed_once answers.created answers.piped u

invalid :
    (created : Option ℕ) (piped : Option (ℕ × ℕ))
    → is_valid created && is_piped piped ≡ false
    → let d = construct (record { created = created; piped = piped }) in
      not (is_valid d.epoll) || not (is_valid d.pipe_read) ≡ true
unfolding construct
invalid none piped h = refl
invalid (some e) none h = refl
invalid (some e) (some (r, w)) h = cc

-- Where the constructor could not open all three descriptors, loopOnce returns false and does nothing.
pub unusable_lem :
    (answers : Opened) (setup : ℕ → Setup) (s : LoopState) (r : Round)
    → is_valid answers.created && is_piped answers.piped ≡ false
    → let d = construct answers in
      loop_once setup (is_valid d.epoll) (is_valid d.pipe_read) s r
      ≡ some (record {
        returns = false;
        state = s;
        executed_any = false;
        events = [];
        taken = [];
        waiting = [];
        ran = [];
        calls = [];
      })
unusable_lem answers setup s r h =
    loop_once-invalid setup _ _ s r (invalid answers.created answers.piped h)
