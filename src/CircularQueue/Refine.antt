-- ===== src/CircularQueue/Refine.antt =====
-- A valid `CircularQueue` behaves as the bounded list of its contents.
use c_wrapper.Prelude.{
  ℕ, suc, ◌+◌, ◌%◌, ◌<◌, ◌≡◌, refl, arith, Bool, List, [], ◌∷◌, ◌++◌, length-tabulate, tabulate,
  tabulate-ext, tabulate-append, get_or, get_or-set_self, get_or-set_ne, if◌then◌else◌, add_size,
  sub_size, wrap_add, wrap-injective, true, false, set, ◌∙◌, ap, ap₂, sym, none, some, ◌≢◌, ==_ne,
  dec_lt, mod-eq_of_lt, le→leb, leb_of_lt, ltb_of_le, lt→ltb,
}
use c_wrapper.CircularQueue.{CircularQueue, put, get, front_slot}
use c_wrapper.CircularQueue.Fifo
use c_wrapper.CircularQueue.Invariant.{IsValid}

module _ {ℓ} {A : Type ℓ} (cap : ℕ) (d : A) where
  -- the element `i` places behind the front
  abbrev pub slot : CircularQueue A → ℕ → A
  slot q i = get_or q.buffer ((q.front + i) % cap) d

  abbrev pub contents : CircularQueue A → List A
  contents q = tabulate q.size (slot q)

module _ {ℓ} {A : Type ℓ} {cap : ℕ} (d : A) {q : CircularQueue A} (v : IsValid cap q) where
  slot-ne-rear : (i : ℕ) → i < q.size → q.size < cap → q.rear ≢ (q.front + i) % cap
  slot-ne-rear i p room e = absurd (
      omega (
        arith,
        wrap-injective q.front q.size i cap v.front_in room (omega arith) (sym v.linked ∙ e),
      ))

  -- Writing at `mRear` puts the element behind the others.
  contents-write :
      (t : A)
      → q.size < cap
      → tabulate (add_size q.size 1) (λ i. get_or (set q.buffer q.rear t) ((q.front + i) % cap) d)
        ≡ contents cap d q ++ t ∷ []
  contents-write t room =
      ap (λ k. tabulate k written) {x = add_size q.size 1} {y = q.size + 1} (omega arith)
      ∙ tabulate-append q.size 1 written
      ∙ ap₂ ◌++◌
          (tabulate-ext q.size _ _
            (λ i p. get_or-set_ne q.buffer q.rear _ t d (slot-ne-rear i p room)))
          (ap (λ x. x ∷ [])
            (ap (λ k. get_or (set q.buffer q.rear t) k d) last
              ∙ get_or-set_self q.buffer q.rear t d (omega arith)))
    where
      written : ℕ → A
      written i = get_or (set q.buffer q.rear t) ((q.front + i) % cap) d

      last : (q.front + (q.size + 0)) % cap ≡ q.rear
      last =
          ap (λ k. (q.front + k) % cap) {x = q.size + 0} {y = q.size} (omega arith) ∙ sym v.linked

  -- `put` is the bounded queue's, refusal at a full queue included.
  pub put_refines :
      (t : A)
      → let (q', done) = put cap q t in
        (contents cap d q', done) ≡ Fifo.put cap (contents cap d q) t
  unfolding put
  put_refines t = elim (dec_lt q.size cap) [
    | yes room ↦
        rw (leb_of_lt _ _ room, put, length-tabulate q.size (slot cap d q), lt→ltb _ _ room)
          (ap (λ xs. (xs, true)) (contents-write t room))
    | no full ↦ rw (
      le→leb cap q.size (omega arith),
      put,
      length-tabulate q.size (slot cap d q),
      ltb_of_le cap q.size (omega arith),
    )
  ]

  -- The element at the front, and those behind it.
  contents-front :
      0 < q.size
      → contents cap d q ≡ front_slot d q ∷ tabulate (sub_size q.size 1) (λ i. slot cap d q (suc i))
  contents-front some_left =
      ap (λ k. tabulate k (slot cap d q)) {x = q.size} {y = suc (sub_size q.size 1)} (omega arith)
      ∙ ap (λ k. get_or q.buffer k d ∷ tabulate (sub_size q.size 1) (λ i. slot cap d q (suc i)))
          (ap (λ k. k % cap) {x = q.front + 0} {y = q.front} (omega arith)
            ∙ mod-eq_of_lt v.front_in)

  -- What `get` leaves in the array reads as before behind the front.
  slot-kept :
      (moved : A → A) (out : Bool) (i : ℕ)
      → suc i < q.size
      → get_or
          (if out then set q.buffer q.front (moved (front_slot d q)) else q.buffer)
          ((add_size q.front 1 % cap + i) % cap)
          d
        ≡ slot cap d q (suc i)
  slot-kept moved out i p =
      ap (λ k. get_or (if out then set q.buffer q.front (moved (front_slot d q)) else q.buffer) k d)
        next
      ∙ unmoved out
    where
      next : (add_size q.front 1 % cap + i) % cap ≡ (q.front + suc i) % cap
      next =
          ap (λ k. (k % cap + i) % cap) {x = add_size q.front 1} {y = q.front + 1} (omega arith)
          ∙ wrap_add q.front 1 i cap
          ∙ ap (λ k. (q.front + k) % cap) {x = 1 + i} {y = suc i} (omega arith)

      apart : q.front ≢ (q.front + suc i) % cap
      apart e = absurd (
          omega (
            arith,
            wrap-injective q.front 0 (suc i) cap v.front_in (omega arith) (omega arith) (
                ap (λ k. k % cap) {x = q.front + 0} {y = q.front} (omega arith)
                ∙ mod-eq_of_lt v.front_in
                ∙ e),
          ))

      unmoved :
          (b : Bool)
          → get_or
              (if b then set q.buffer q.front (moved (front_slot d q)) else q.buffer)
              ((q.front + suc i) % cap)
              d
            ≡ slot cap d q (suc i)
      unmoved true = get_or-set_ne q.buffer q.front _ _ d apart
      unmoved false = refl

  -- `get` is the list's: it fails on the empty queue only, and otherwise hands out the oldest
  -- element (if `out`) and leaves the others in order.
  pub get_refines :
      (moved : A → A) (out : Bool)
      → let (q', done, t) = get cap d moved q out in
        (contents cap d q', done, t) ≡ Fifo.get (contents cap d q) out
  unfolding get
  get_refines moved out = elim (dec_lt 0 q.size) [
    | yes some_left ↦
        rw (==_ne q.size 0 (λ e. omega arith), get, contents-front some_left)
          (ap (λ xs. (xs, true, if out then some (front_slot d q) else none))
            (tabulate-ext _ _ _ (λ i p. slot-kept moved out i (omega arith))))
    | no none_left ↦ let e : q.size ≡ 0 = omega arith in rw (e, get)
  ]
