-- ===== src/MainLoop/Wakeup/Invariant.antt =====
-- What is not yet seen by the loop is announced by a byte in the pipe, or by a thread before its byte.
use c_wrapper.Prelude.{
  ℕ, ◌<◌, ◌≡◌, refl, arith, Bool, true, false, List, [], ◌∷◌, ◌++◌, ◌&&◌, ◌||◌, not, if◌then◌else◌,
  ltb, ◌==◌, ap, ◌∙◌, sym,
}
use mathlib.Core.List.{append_assoc}
use c_wrapper.MainLoop.Pipe.{wakeup_code, terminate_code}
use c_wrapper.MainLoop.Wakeup.{
  LoopPc, running, timing, polling, draining, checking, exited, System, init, is_empty, Input,
  run_functions, loop_at, loop_step, put_byte, Move, loops, posts, adds_timer, removes_timer,
  terminates, sends_terminate, step, run,
}

-- A byte is in the pipe, or the thread writes one next.
abbrev pub announced : Bool → List ℕ → Bool
announced before_byte pipe = before_byte || not (is_empty pipe)

-- `q` implies `p`.
abbrev pub when_then : Bool → Bool → Bool
when_then q p = not q || p

-- The request to end is announced.
abbrev pub end_announced : System → Bool
end_announced s = when_then s.terminated (announced (ltb 0 s.enders) s.pipe)

-- The functions are announced.
abbrev pub queue_announced : System → Bool
queue_announced s = when_then (not (is_empty s.queue)) (announced s.posting s.pipe)

abbrev pub fits : LoopPc → System → Bool
fits (running any) s = end_announced s
fits timing s = end_announced s && queue_announced s
fits polling s =
    end_announced s && queue_announced s && when_then s.fresh (announced (ltb 0 s.wakers) s.pipe)
fits (draining t) s = when_then t s.terminated
fits (checking t) s = when_then t s.terminated
fits exited s = s.terminated

-- The command to terminate is in the pipe.
abbrev pub has_end : List ℕ → Bool
has_end [] = false
has_end (b ∷ bs) = b == terminate_code || has_end bs

pub record IsSound (s : System) : Type 0 where
  pub awake : fits s.loop s ≡ true
  pub ended : when_then (has_end s.pipe) s.terminated ≡ true
  pub in_end : when_then (ltb 0 s.enders) s.terminated ≡ true
  pub order : s.ran ++ s.queue ≡ s.posted

pub init-IsSound : IsSound init
init-IsSound = record { awake = refl; ended = refl; in_end = refl; order = refl }

has_end-append :
    (bs : List ℕ) (b : ℕ) → has_end (bs ++ b ∷ []) ≡ (has_end bs || b == terminate_code)
has_end-append [] b = ground arith
has_end-append (x ∷ bs) b = ground (arith, has_end-append bs b)

is_empty-append : (bs : List ℕ) (b : ℕ) → is_empty (bs ++ b ∷ []) ≡ false
is_empty-append [] b = refl
is_empty-append (x ∷ bs) b = refl

module _ (cap b : ℕ) (pipe : List ℕ) where
  -- After a write there is a byte, the new one or those that fill the pipe.
  pub is_empty-put_byte : 0 < cap → is_empty (put_byte cap b pipe) ≡ false
  unfolding put_byte
  is_empty-put_byte pos = ground (arith, is_empty-append pipe b)

  pub has_end-put_byte :
      when_then (has_end (put_byte cap b pipe)) (has_end pipe || b == terminate_code) ≡ true
  unfolding put_byte
  has_end-put_byte = ground (arith, has_end-append pipe b)

run_functions-IsSound :
    (queue : List ℕ) (any : Bool) (s : System)
    → s.queue ≡ queue
    → s.loop ≡ running any
    → IsSound s
    → IsSound (run_functions queue any s)
unfolding run_functions
run_functions-IsSound [] any s q e v = ground arith
run_functions-IsSound (f ∷ fs) any s q e v = record {
  awake = ground arith;
  ended = v.ended;
  in_end = v.in_end;
  order = append_assoc s.ran (f ∷ []) fs ∙ ap (λ xs. s.ran ++ xs) (sym q) ∙ v.order;
}

either-IsSound : (b : Bool) {s t : System} → IsSound s → IsSound t → IsSound (if b then s else t)
either-IsSound true v w = v
either-IsSound false v w = w

loop_at-IsSound :
    (pc : LoopPc) (i : Input) (s : System) → s.loop ≡ pc → IsSound s → IsSound (loop_at pc i s)
unfolding loop_at
loop_at-IsSound exited i s e v = v
loop_at-IsSound (running any) i s e v =
    either-IsSound s.posting v (run_functions-IsSound s.queue any s refl e v)
loop_at-IsSound pc i s e v = ground arith

pub loop_step-IsSound : (i : Input) (s : System) → IsSound s → IsSound (loop_step i s)
unfolding loop_step
loop_step-IsSound i s v = loop_at-IsSound s.loop i s refl v

posts-order : (f : ℕ) (s : System) → IsSound s → s.ran ++ (s.queue ++ f ∷ []) ≡ s.posted ++ f ∷ []
posts-order f s v = sym (append_assoc s.ran s.queue (f ∷ [])) ∙ ap (λ xs. xs ++ f ∷ []) v.order

-- Every access of any thread keeps the invariant, if the pipe has room for a byte.
pub step-IsSound :
    (cap : ℕ) → 0 < cap → (m : Move) (s : System) → IsSound s → IsSound (step cap m s)
unfolding step loop_step
step-IsSound cap pos (loops i) s v = loop_at-IsSound s.loop i s refl v
step-IsSound cap pos (posts f) s v = ground (arith, posts-order f s v)
step-IsSound cap pos (adds_timer) s v = ground arith
step-IsSound cap pos (removes_timer) s v = ground arith
step-IsSound cap pos (terminates) s v = ground arith
step-IsSound cap pos sends_terminate s v = ground (
  arith,
  is_empty-put_byte cap terminate_code s.pipe pos,
  has_end-put_byte cap terminate_code s.pipe,
)
step-IsSound cap pos _ s v =
    ground
      (arith, is_empty-put_byte cap wakeup_code s.pipe pos, has_end-put_byte cap wakeup_code s.pipe)

pub run-IsSound :
    (cap : ℕ) → 0 < cap → (ms : List Move) (s : System) → IsSound s → IsSound (run cap ms s)
unfolding run
run-IsSound cap pos [] s v = v
run-IsSound cap pos (m ∷ ms) s v =
    run-IsSound cap pos ms (step cap m s) (step-IsSound cap pos m s v)
