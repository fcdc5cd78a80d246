-- ===== src/MainLoop/Functions/Order.antt =====
-- In which order `runFunctions` calls the posted functions.
use mathlib.Core.List.{append_assoc, append-nil}
use c_wrapper.Prelude.{
  ℕ, zero, suc, ◌<◌, ◌≡◌, refl, arith, Bool, true, false, Option, some, List, [], ◌∷◌, ◌++◌, ◌||◌,
  length, replicate, map, ap, ◌∙◌, sym,
}
use c_wrapper.CircularQueue.{CircularQueue}
use c_wrapper.CircularQueue
use c_wrapper.FixedFunction.{FixedFunction, empty, calls}
use c_wrapper.MainLoop.Wakeup.{max_functions}
use c_wrapper.MainLoop.Functions.{left_over, post_all, Outcome, run_from, run_functions}
use c_wrapper.MainLoop.Functions.Held.{Holds, length-Holds, post_all-Holds, get_none, get_some}

abbrev pub has_some : List ℕ → Bool
has_some [] = false
has_some (f ∷ fs) = true

-- The loop returns, has called all these functions and then those that were taken in, each once and
-- in order, says whether there was one, and leaves the queue empty.
pub record Done (any : Bool) (fs : List ℕ) (r : Option Outcome) : Type 0 where
  pub outcome : Outcome
  pub returned : r ≡ some outcome
  pub in_order : outcome.events ≡ map calls (fs ++ outcome.taken)
  pub reported : outcome.executed_any ≡ any || has_some (fs ++ outcome.taken)
  pub emptied : Holds outcome.queue []

none_reported : (any : Bool) → any ≡ any || false
none_reported any = ground arith

some_reported : (any : Bool) → true ≡ any || true
some_reported any = ground arith

-- One round of the loop, given what the rest of it does.
turn :
    (now fs : List ℕ) (rest : List (List ℕ)) (any : Bool) (q : CircularQueue FixedFunction)
    (gs : List ℕ)
    → fs ++ (post_all q now).1 ≡ gs
    → Holds (post_all q now).0 gs
    → ((g : ℕ) (later : List ℕ) (q' : CircularQueue FixedFunction)
        → gs ≡ g ∷ later
        → Holds q' later
        → Done true later (run_from true q' rest))
    → Done any fs (run_from any q (now ∷ rest))
unfolding run_from
turn now fs rest any q [] e h next =
    let (q', taken) = post_all q now in
    let (missed, no_func, h') = get_none q' h in
    rw missed (record {
      outcome = record {
        queue = (CircularQueue.get max_functions empty left_over q' true).0;
        executed_any = any;
        events = [];
        taken = taken;
      };
      returned = refl;
      in_order = ap (map calls) (sym e);
      reported = none_reported any ∙ ap (λ xs. any || has_some xs) (sym e);
      emptied = h';
    })
turn now fs rest any q (g ∷ later) e h next =
    let (q', taken) = post_all q now in
    let (got, called, h') = get_some q' g later h in
    let d = next g later (CircularQueue.get max_functions empty left_over q' true).0 refl h' in
    rw got (record {
      outcome = record {
        queue = d.outcome.queue;
        executed_any = d.outcome.executed_any;
        events = calls g ∷ d.outcome.events;
        taken = taken ++ d.outcome.taken;
      };
      returned = rw (d.returned, called) refl;
      in_order =
          ap (λ es. calls g ∷ es) d.in_order
          ∙ ap (λ xs. map calls (xs ++ d.outcome.taken)) (sym e)
          ∙ ap (map calls) (append_assoc fs taken d.outcome.taken);
      reported =
          d.reported
          ∙ some_reported any
          ∙ ap (λ xs. any || has_some (xs ++ d.outcome.taken)) (sym e)
          ∙ ap (λ xs. any || has_some xs) (append_assoc fs taken d.outcome.taken);
      emptied = d.emptied;
    })

run_from_rest :
    (n : ℕ) (fs : List ℕ) (any : Bool) (q : CircularQueue FixedFunction)
    → Holds q fs
    → length fs < n
    → Done any fs (run_from any q (replicate n []))
unfolding post_all
run_from_rest zero fs any q h p = absurd (omega arith)
run_from_rest (suc n) fs any q h p =
    turn [] fs (replicate n []) any q fs (append-nil fs) h
      (λ g later q' e h'. run_from_rest n later true q' h' (omega (arith, ap (λ xs. length xs) e)))

run_from-Done :
    (posts : List (List ℕ)) (fs : List ℕ) (any : Bool) (q : CircularQueue FixedFunction) (n : ℕ)
    → Holds q fs
    → max_functions < n
    → Done any fs (run_from any q (posts ++ replicate n []))
run_from-Done [] fs any q n h p = run_from_rest n fs any q h (omega (arith, length-Holds q fs h))
run_from-Done (now ∷ posts) fs any q n h p =
    turn now fs (posts ++ replicate n []) any q _ refl (post_all-Holds now fs q h)
      (λ g later q' e h'. run_from-Done posts later true q' n h' p)

-- With an empty queue and nothing posted, runFunctions returns false and does nothing.
pub nothing_posted :
    (n : ℕ) (q : CircularQueue FixedFunction)
    → Holds q []
    → (q' : CircularQueue FixedFunction) × (run_functions q (replicate (suc n) [])
        ≡ some (record { queue = q'; executed_any = false; events = []; taken = [] }))
      × Holds q' []
unfolding run_functions run_from post_all
nothing_posted n q h =
    let (missed, no_func, h') = get_none q h in
    ((CircularQueue.get max_functions empty left_over q true).0, rw missed refl, h')

-- With a queue that holds these functions and whatever is posted meanwhile, runFunctions returns
-- once nothing more is posted before 129 further reads: it has called the functions of the queue and
-- then all that were taken in, each exactly once and in the order in which they were posted, reports
-- whether there was one, and leaves the queue empty.
pub run_functions_lem :
    (q : CircularQueue FixedFunction) (fs : List ℕ) (posts : List (List ℕ))
    → Holds q fs
    → Done false fs (run_functions q (posts ++ replicate (suc max_functions) []))
unfolding run_functions
run_functions_lem q fs posts h = run_from-Done posts fs false q (suc max_functions) h (omega arith)
