-- ===== src/SyncQueue/Tests.antt =====
-- Runs of the blocking queue over an array of two, and its laws there.
use c_wrapper.Prelude.{
  ℕ, ◌≡◌, refl, arith, true, false, none, some, [], ◌∷◌, ◌++◌, if◌then◌else◌, leb, length,
}
use c_wrapper.CircularQueue.Fifo
use c_wrapper.CircularQueue.Invariant.{IsValid}
use c_wrapper.CircularQueue.Refine.{contents}
use c_wrapper.SyncQueue.{
  SyncQueue, infinite, at_once, within, awaits, put_now, put, put_force, flush,
}
use c_wrapper.SyncQueue.Refine.{put_force_refines, flush_lem}

-- 7 and 8, full
abbrev full : SyncQueue ℕ
full = record { queue = record { buffer = 8 ∷ 7 ∷ []; size = 2; front = 1; rear = 1 }; eos = false }

-- the same at its end
abbrev ended : SyncQueue ℕ
ended = record { queue = full.queue; eos = true }

full-IsValid : IsValid 2 full.queue
full-IsValid = record {
  positive = omega arith;
  small = omega arith;
  storage = refl;
  fits = omega arith;
  front_in = omega arith;
  rear_in = omega arith;
  linked = refl;
}

refused_at_once : put 2 0 (λ x. x) full 9 at_once [] ≡ some (full, false)
unfolding put awaits
refused_at_once = refl

waits_while_full :
    put 2 0 (λ x. x) full 9 infinite (record { found = full; in_time = true } ∷ []) ≡ none
unfolding put awaits
waits_while_full = refl

refused_at_end :
    put 2 0 (λ x. x) full 9 within (record { found = ended; in_time = true } ∷ [])
    ≡ some (ended, false)
unfolding put awaits put_now
refused_at_end = refl

put_force_refines_example :
    let (s', answer, old) = put_force 2 0 (λ x. x) full 9 in
    let (xs, done, oldest) =
      if leb 2 (length (contents 2 0 full.queue))
      then Fifo.get (contents 2 0 full.queue) true
      else (contents 2 0 full.queue, false, none) in
    (contents 2 0 s'.queue ≡ xs ++ 9 ∷ []) × (old ≡ oldest) × (answer ≡ none)
put_force_refines_example = put_force_refines 0 (λ x. x) full full-IsValid 9 refl

flush_lem_test :
    let (s', old) = flush 2 0 (λ x. x) 3 full in
    (old ≡ contents 2 0 full.queue) × (s'.queue.size ≡ 0) × (s'.eos ≡ full.eos)
flush_lem_test = flush_lem 0 (λ x. x) 3 full full-IsValid (omega arith)
