-- ===== src/CircularQueue/Tests.antt =====
-- Runs of the queue, and its laws at a queue that goes round the end of the array.
use c_wrapper.Prelude.{ℕ, ◌≡◌, refl, arith, true, false, [], ◌∷◌}
use c_wrapper.CircularQueue.{CircularQueue, put, get}
use c_wrapper.CircularQueue.Fifo
use c_wrapper.CircularQueue.Invariant.{IsValid, put-IsValid, get-IsValid}
use c_wrapper.CircularQueue.Refine.{contents, put_refines, get_refines}

-- 7 and 8 round the end of an array of three
abbrev wrapped : CircularQueue ℕ
wrapped = record { buffer = 8 ∷ 0 ∷ 7 ∷ []; size = 2; front = 2; rear = 1 }

abbrev wrapped-IsValid : IsValid 3 wrapped
wrapped-IsValid = record {
  positive = omega arith;
  small = omega arith;
  storage = refl;
  fits = omega arith;
  front_in = omega arith;
  rear_in = omega arith;
  linked = refl;
}

contents-wrapped : contents 3 0 wrapped ≡ 7 ∷ 8 ∷ []
contents-wrapped = refl

put_at_capacity : (put 3 (put 3 wrapped 9).0 10).1 ≡ false
unfolding put
put_at_capacity = refl

put-IsValid_test : IsValid 3 (put 3 wrapped 9).0
put-IsValid_test = put-IsValid 9 wrapped-IsValid

get-IsValid_test : IsValid 3 (get 3 0 (λ x. x) wrapped true).0
get-IsValid_test = get-IsValid 0 (λ x. x) true wrapped-IsValid

put_refines_example :
    let (q', done) = put 3 wrapped 9 in (contents 3 0 q', done) ≡ Fifo.put 3 (7 ∷ 8 ∷ []) 9
put_refines_example = put_refines 0 wrapped-IsValid 9

get_refines_example :
    let (q', done, t) = get 3 0 (λ x. x) wrapped true in
    (contents 3 0 q', done, t) ≡ Fifo.get (7 ∷ 8 ∷ []) true
get_refines_example = get_refines 0 wrapped-IsValid (λ x. x) true
