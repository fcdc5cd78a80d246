-- ===== src/CondVar/Waits.antt =====
-- What a wait with a predicate answers, and its deadline.
use c_wrapper.Prelude.{
  ℕ, ◌+◌, ◌*◌, ◌≡◌, ◌<◌, refl, arith, Bool, true, false, Option, none, some, List, [], ◌∷◌, not,
  if◌then◌else◌, Bool-cases, inl, inr, ◌&&◌, ◌||◌,
}
use c_wrapper.CondVar.{timespec_of, WaitEnd, wait, wait_until, with_true, wait_for}

-- The nanoseconds stay below a second and the two parts are the deadline.
pub timespec_lem :
    (expire_ms : ℕ)
    → let (seconds, nanoseconds) = timespec_of expire_ms in
      (nanoseconds < 1000000000) × (seconds * 1000000000 + nanoseconds ≡ expire_ms * 1000000)
unfolding timespec_of
timespec_lem expire_ms = omega arith

itself : (b : Bool) → (if b then b else not b) ≡ true
itself true = refl
itself false = refl

module _ {ℓ} {S : Type ℓ} (pred : S → Bool) where
  -- What an answer has to say of the state that the caller is left with.
  abbrev pub answers_for : Option (S × Bool) → Bool
  answers_for none = false
  answers_for (some (s, b)) = if pred s then b else not b

  -- Some call of the system finds the predicate true, or times out where there is a limit.
  abbrev pub comes_to_end : (negative : Bool) → List (WaitEnd S) → Bool
  comes_to_end negative [] = false
  comes_to_end negative (w ∷ ws) =
      pred w.found || (not negative && w.timed_out) || comes_to_end negative ws

  wait-answers :
      (s : S) (ws : List (WaitEnd S))
      → (pred s || comes_to_end true ws) ≡ true
      → answers_for (with_true pred (wait pred s ws)) ≡ true
  unfolding wait with_true
  wait-answers s [] h = elim (Bool-cases (pred s)) [
    | inl e ↦ rw (e, e) refl
    | inr e ↦ absurd (ground (arith, e, h))
  ]
  wait-answers s (w ∷ ws) h = elim (Bool-cases (pred s)) [
    | inl e ↦ rw (e, e) refl
    | inr e ↦ rw e (wait-answers w.found ws (ground (arith, e, h)))
  ]

  until-answers :
      (s : S) (ws : List (WaitEnd S))
      → (pred s || comes_to_end false ws) ≡ true
      → answers_for (wait_until pred s ws) ≡ true
  unfolding wait_until
  until-answers s [] h = elim (Bool-cases (pred s)) [
    | inl e ↦ rw (e, e) refl
    | inr e ↦ absurd (ground (arith, e, h))
  ]
  until-answers s (w ∷ ws) h = elim (Bool-cases (pred s)) [
    | inl e ↦ rw (e, e) refl
    | inr e ↦ rw e (elim (Bool-cases w.timed_out) [
      | inl out ↦ rw out (itself (pred w.found))
      | inr woken ↦ rw woken (until-answers w.found ws (ground (arith, e, woken, h)))
    ])
  ]

  -- A wait with a predicate returns where the predicate holds at once, or some call of the system
  -- finds it true, or one times out and there is a limit; and it answers whether the predicate holds
  -- in the state that it leaves its caller with.
  pub wait_for_lem :
      (negative : Bool) (s : S) (ws : List (WaitEnd S))
      → (pred s || comes_to_end negative ws) ≡ true
      → answers_for (wait_for pred negative s ws) ≡ true
  unfolding wait_for
  wait_for_lem true s ws h = wait-answers s ws h
  wait_for_lem false s ws h = until-answers s ws h
