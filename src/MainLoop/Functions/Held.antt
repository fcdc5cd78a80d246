-- ===== src/MainLoop/Functions/Held.antt =====
-- The queue of posted functions as the list of the functions that it holds.
use mathlib.Core.List.{map-append, append_assoc, append-nil}
use c_wrapper.Prelude.{
  ℕ, suc, ◌≤◌, ◌≡◌, refl, arith, Bool, true, false, none, List, [], ◌∷◌, ◌++◌, if◌then◌else◌,
  length, length-tabulate, dec_lt, lt→ltb, ltb_of_le, ltb, zero, ◌+◌, ◌-◌, take, length-append,
  subst, map, ap, ◌∙◌, sym,
}
use c_wrapper.CircularQueue.{CircularQueue}
use c_wrapper.CircularQueue
use c_wrapper.CircularQueue.Fifo
use c_wrapper.CircularQueue.Invariant.{IsValid, put-IsValid, get-IsValid}
use c_wrapper.CircularQueue.Refine.{contents, slot, put_refines, get_refines}
use c_wrapper.FixedFunction.{FixedFunction, empty, calls, construct, invoke}
use c_wrapper.MainLoop.Wakeup.{max_functions}
use c_wrapper.MainLoop.Functions.{left_over, post, post_all, call}

abbrev pub stored : ℕ → FixedFunction
stored f = (construct f).0

-- The queue is in order and holds these functions, oldest first.
pub record Holds (q : CircularQueue FixedFunction) (fs : List ℕ) : Type 0 where
  pub valid : IsValid max_functions q
  pub same : contents max_functions empty q ≡ map stored fs

length-map-stored : (fs : List ℕ) → length (map stored fs) ≡ length fs
length-map-stored [] = refl
length-map-stored (f ∷ fs) = ap suc (length-map-stored fs)

module _ (q : CircularQueue FixedFunction) (fs : List ℕ) (h : Holds q fs) where
  pub length-Holds : length fs ≤ max_functions
  length-Holds = omega (
    arith,
    h.valid.fits,
    length-tabulate q.size (slot max_functions empty q),
    ap (λ xs. length xs) h.same,
    length-map-stored fs,
  )

  pub post-Holds :
      (f : ℕ) → let (q', done) = post q f in Holds q' (if done then fs ++ f ∷ [] else fs)
  unfolding post
  post-Holds f = elim (dec_lt (length (contents max_functions empty q)) max_functions) [
    | yes room ↦
        let e : (contents max_functions empty (post q f).0, (post q f).1)
            ≡ (contents max_functions empty q ++ stored f ∷ [], true) =
          put_refines empty h.valid (stored f) ∙ rw (lt→ltb _ _ room) refl in
        let done = ap (λ r. r.1) e in
        rw done (record {
          valid = put-IsValid (stored f) h.valid;
          same =
              ap (λ r. r.0) e
              ∙ ap (λ xs. xs ++ stored f ∷ []) h.same
              ∙ sym (map-append stored fs (f ∷ []));
        })
    | no full ↦
        let e : (contents max_functions empty (post q f).0, (post q f).1)
            ≡ (contents max_functions empty q, false) =
          put_refines empty h.valid (stored f)
          ∙ rw (ltb_of_le max_functions (length (contents max_functions empty q)) (omega arith))
              refl in
        let done = ap (λ r. r.1) e in
        rw done (record { valid = put-IsValid (stored f) h.valid; same = ap (λ r. r.0) e ∙ h.same })
  ]

taken_in :
    (b : Bool) (f : ℕ) (fs taken : List ℕ)
    → (if b then fs ++ f ∷ [] else fs) ++ taken ≡ fs ++ (if b then f ∷ taken else taken)
taken_in true f fs taken = append_assoc fs (f ∷ []) taken
taken_in false f fs taken = refl

pub post_all-Holds :
    (posts fs : List ℕ) (q : CircularQueue FixedFunction)
    → Holds q fs
    → let (q', taken) = post_all q posts in Holds q' (fs ++ taken)
unfolding post_all
post_all-Holds [] fs q h = rw (append-nil fs) h
post_all-Holds (f ∷ posts) fs q h =
    let (q', done) = post q f in
    subst (λ xs. Holds (post_all q' posts).0 xs) (taken_in done f fs (post_all q' posts).1)
      (post_all-Holds posts _ q' (post-Holds q fs h f))

fifo-room :
    (xs : List FixedFunction) (x : FixedFunction)
    → (Fifo.put max_functions xs x).1 ≡ ltb (length xs) max_functions
fifo-room xs x = ground arith

post-room :
    (q : CircularQueue FixedFunction) (fs : List ℕ) (f : ℕ)
    → Holds q fs
    → (post q f).1 ≡ ltb (length fs) max_functions
unfolding post
post-room q fs f h =
    ap (λ r. r.1) (put_refines empty h.valid (stored f))
    ∙ fifo-room (contents max_functions empty q) (stored f)
    ∙ ap (λ n. ltb n max_functions) (ap length h.same ∙ length-map-stored fs)

take_none : (n : ℕ) → take {A = ℕ} n [] ≡ []
take_none zero = refl
take_none (suc n) = refl

take_more : (f : ℕ) (posts : List ℕ) (n m : ℕ) → n + 1 ≡ m → f ∷ take n posts ≡ take m (f ∷ posts)
take_more f posts n zero e = absurd (omega arith)
take_more f posts n (suc m) e = ap (λ k. f ∷ take k posts) (omega arith)

-- Of several posts those are taken in for which there is room.
pub post_all-taken :
    (posts fs : List ℕ) (q : CircularQueue FixedFunction)
    → Holds q fs
    → (post_all q posts).1 ≡ take (max_functions - length fs) posts
unfolding post_all
post_all-taken [] fs q h = sym (take_none (max_functions - length fs))
post_all-taken (f ∷ posts) fs q h =
    let (q', done) = post q f in
    let held = post-Holds q fs h f in
    let room = post-room q fs f h in
    elim (dec_lt (length fs) max_functions) [
      | yes some_room ↦
          let yes_done : done ≡ true = room ∙ lt→ltb _ _ some_room in
          let rest =
            post_all-taken posts (fs ++ f ∷ []) q'
              (subst (λ b. Holds q' (if b then fs ++ f ∷ [] else fs)) yes_done held) in
          let left : max_functions - length (fs ++ f ∷ []) + 1 ≡ max_functions - length fs =
            omega (arith, length-append fs (f ∷ [])) in
          rw (yes_done, rest) (take_more f posts _ _ left)
      | no full ↦
          let not_done : done ≡ false = room ∙ ltb_of_le _ _ (omega arith) in
          let rest =
            post_all-taken posts fs q'
              (subst (λ b. Holds q' (if b then fs ++ f ∷ [] else fs)) not_done held) in
          let none_left : max_functions - length fs ≡ 0 = omega arith in
          rw (not_done, rest, none_left) refl
    ]

module _ (q : CircularQueue FixedFunction) where
  get_from :
      (fs : List ℕ)
      → Holds q fs
      → let (q', got, func) = CircularQueue.get max_functions empty left_over q true in
        (contents max_functions empty q', got, func) ≡ Fifo.get (map stored fs) true
  get_from fs h = get_refines empty h.valid left_over true ∙ ap (λ xs. Fifo.get xs true) h.same

  pub get_none :
      Holds q []
      → let (q', got, func) = CircularQueue.get max_functions empty left_over q true in
        (got ≡ false) × (func ≡ none) × Holds q' []
  get_none h =
      let e = get_from [] h in
      (
        ap (λ r. r.1) e,
        ap (λ r. r.2) e,
        record { valid = get-IsValid empty left_over true h.valid; same = ap (λ r. r.0) e },
      )

  pub get_some :
      (f : ℕ) (fs : List ℕ)
      → Holds q (f ∷ fs)
      → let (q', got, func) = CircularQueue.get max_functions empty left_over q true in
        (got ≡ true) × (call func ≡ calls f ∷ []) × Holds q' fs
  unfolding construct invoke
  get_some f fs h =
      let e = get_from (f ∷ fs) h in
      (
        ap (λ r. r.1) e,
        ap (λ r. call r.2) e,
        record { valid = get-IsValid empty left_over true h.valid; same = ap (λ r. r.0) e },
      )
