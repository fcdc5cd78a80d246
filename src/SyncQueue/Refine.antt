-- ===== src/SyncQueue/Refine.antt =====
-- The blocking queue on a valid circular queue, in terms of its contents.
use c_wrapper.Prelude.{
  ℕ, zero, suc, ◌≡◌, ◌<◌, refl, arith, Bool, true, false, Option, none, some, List, [], ◌∷◌, ◌++◌,
  if◌then◌else◌, leb, length, length-tabulate, Bool-cases, inl, inr, ap, dec_lt, ==_ne, le→leb,
  lt→ltb, ltb_of_le, leb_of_lt, ◌∙◌,
}
use c_wrapper.CircularQueue.{CircularQueue, is_full, is_empty}
use c_wrapper.CircularQueue.Fifo
use c_wrapper.CircularQueue.Invariant.{IsValid, get-IsValid}
use c_wrapper.CircularQueue.Refine.{contents, slot, put_refines, get_refines}
use c_wrapper.CircularQueue
use c_wrapper.SyncQueue.{
  SyncQueue, infinite, Wake, awaits, append_some, put_now, get_now, put_force, flush,
}

-- The first of the states that the caller may go on with.
abbrev pub first_free {ℓ} :
    {A : Type ℓ} → (SyncQueue A → Bool) → SyncQueue A → List (Wake A) → Option (SyncQueue A × Bool)
first_free blocked s [] = if blocked s then none else some (s, true)
first_free blocked s (w ∷ ws) =
    let rest = first_free blocked w.found ws in if blocked s then rest else some (s, true)

put_room {ℓ} :
    {A : Type ℓ} {cap : ℕ} {q : CircularQueue A} (d : A)
    → IsValid cap q
    → q.size < cap
    → (t : A) → contents cap d (CircularQueue.put cap q t).0 ≡ contents cap d q ++ t ∷ []
put_room {cap} {q} d v room t =
    ap (λ r. r.0) (put_refines d v t)
    ∙ rw (length-tabulate q.size (slot cap d q), lt→ltb q.size cap room) refl

get-shorter {ℓ} :
    {A : Type ℓ} (xs : List A) → 0 < length xs → length (Fifo.get xs true).0 < length xs
get-shorter [] h = absurd (omega arith)
get-shorter (x ∷ xs) h = omega arith

fifo_done {ℓ} :
    {A : Type ℓ} (xs : List A) (out : Bool)
    → 0 < length xs
    → ((Fifo.get xs out).0, true, (Fifo.get xs out).2) ≡ Fifo.get xs out
fifo_done [] out h = absurd (omega arith)
fifo_done (x ∷ xs) out h = refl

fifo_parts {ℓ} :
    {A : Type ℓ} (xs : List A)
    → 0 < length xs
    → append_some (Fifo.get xs true).2 (Fifo.get xs true).0 ≡ xs
fifo_parts [] h = absurd (omega arith)
fifo_parts (x ∷ xs) h = refl

module _ {ℓ} {A : Type ℓ} {cap : ℕ} (d : A) (moved : A → A) (s : SyncQueue A)
    (v : IsValid cap s.queue) where
  -- `put` once it need not wait is the bounded list's, and refuses at the end of the stream.
  pub put_now_refines :
      (t : A)
      → let (s', done) = put_now cap d moved s t in
        (contents cap d s'.queue, done) ≡ (
          if s.eos
          then (contents cap d s.queue, false)
          else Fifo.put cap (contents cap d s.queue) t)
  unfolding put_now
  put_now_refines t = elim (Bool-cases s.eos) [
    | inl end ↦ rw end (ground arith)
    | inr more ↦ rw more (elim (dec_lt s.queue.size cap) [
      | yes room ↦
          rw
            (
              leb_of_lt s.queue.size cap room,
              length-tabulate s.queue.size (slot cap d s.queue),
              lt→ltb s.queue.size cap room,
            )
            (ap (λ xs. (xs, true)) (put_room d v room t))
      | no full ↦
          rw
            (
              le→leb cap s.queue.size (omega arith),
              length-tabulate s.queue.size (slot cap d s.queue),
              ltb_of_le cap s.queue.size (omega arith),
            )
            refl
    ])
  ]

  -- After a `get` there is room.
  shorter : 0 < s.queue.size → (CircularQueue.get cap d moved s.queue true).0.size < s.queue.size
  shorter h = omega (
    arith,
    ap (λ r. length r.0) (get_refines d v moved true),
    length-tabulate _ (slot cap d (CircularQueue.get cap d moved s.queue true).0),
    length-tabulate s.queue.size (slot cap d s.queue),
    get-shorter (contents cap d s.queue),
  )

  -- putForce on a valid queue that is not at the end of its stream: the oldest element of a full queue
  -- is disposed of, and the new one is put behind the others; no value is returned.
  pub put_force_refines :
      (t : A)
      → s.eos ≡ false
      → let (s', answer, old) = put_force cap d moved s t in
        let (xs, done, oldest) =
          if leb cap (length (contents cap d s.queue))
          then Fifo.get (contents cap d s.queue) true
          else (contents cap d s.queue, false, none) in
        (contents cap d s'.queue ≡ xs ++ t ∷ []) × (old ≡ oldest) × (answer ≡ none)
  unfolding put_force
  put_force_refines t at_end = elim (Bool-cases (leb cap s.queue.size)) [
    | inl full ↦
        rw (at_end, length-tabulate s.queue.size (slot cap d s.queue), full)
          (
            put_room d (get-IsValid d moved true v)
                  (omega (arith, v.fits, v.positive, shorter (ground (arith, v.positive)))) t
                ∙ ap (λ r. r.0 ++ t ∷ []) (get_refines d v moved true),
            ap (λ r. r.2) (get_refines d v moved true),
            refl,
          )
    | inr room ↦
        rw (at_end, length-tabulate s.queue.size (slot cap d s.queue), room)
          (put_room d v (ground arith) t, refl, refl)
  ]

  -- `get` once it need not wait is the list's, and hands out nothing at the end of the stream, even
  -- where elements are left.
  pub get_now_refines :
      (out : Bool)
      → let (s', done, t) = get_now cap d moved s out in
        (contents cap d s'.queue, done, t) ≡ (
          if s.eos
          then (contents cap d s.queue, false, none)
          else Fifo.get (contents cap d s.queue) out)
  unfolding get_now
  get_now_refines out = elim (Bool-cases s.eos) [
    | inl over ↦ rw over (ground arith)
    | inr more ↦ rw more (elim (dec_lt 0 s.queue.size) [
      | yes some_left ↦ rw (==_ne s.queue.size 0 (λ e. omega arith)) (
          ap (λ r. (r.0, true, r.2)) (get_refines d v moved out)
          ∙ fifo_done (contents cap d s.queue) out
              (omega (arith, length-tabulate s.queue.size (slot cap d s.queue))))
      | no none_left ↦ let e : s.queue.size ≡ 0 = omega arith in rw e refl
    ])
  ]

-- flush of a valid queue, with no other thread between and more fuel than elements, empties the queue
-- and disposes of its elements, oldest first.
pub flush_lem {ℓ} :
    {A : Type ℓ} {cap : ℕ} (d : A) (moved : A → A) (fuel : ℕ) (s : SyncQueue A)
    → IsValid cap s.queue
    → s.queue.size < fuel
    → let (s', old) = flush cap d moved fuel s in
      (old ≡ contents cap d s.queue) × (s'.queue.size ≡ 0) × (s'.eos ≡ s.eos)
unfolding flush
flush_lem d moved zero s v h = absurd (omega arith)
flush_lem {cap} d moved (suc fuel) s v h = elim (dec_lt 0 s.queue.size) [
  | yes some_left ↦
      let (q, done, t) = CircularQueue.get cap d moved s.queue true in
      let (old, none_left, same) =
        flush_lem d moved fuel (record s { queue = q }) (get-IsValid d moved true v)
          (omega (arith, shorter d moved s v some_left)) in
      rw (==_ne s.queue.size 0 (λ e. omega arith)) (
        ap (append_some t) old
            ∙ ap (λ r. append_some r.2 r.0) (get_refines d v moved true)
            ∙ fifo_parts (contents cap d s.queue)
                (omega (arith, length-tabulate s.queue.size (slot cap d s.queue))),
        none_left,
        same,
      )
  | no none_left ↦ let e : s.queue.size ≡ 0 = omega arith in rw e (refl, refl, refl)
]

-- Without a time limit put and get leave their loop with the first state that they may go on with,
-- and wait as long as there is none.
pub awaits-first_free {ℓ} :
    {A : Type ℓ} (blocked : SyncQueue A → Bool) (s : SyncQueue A) (ws : List (Wake A))
    → awaits blocked infinite s ws ≡ first_free blocked s ws
unfolding awaits
awaits-first_free blocked s [] = refl
awaits-first_free blocked s (w ∷ ws) =
    ap (λ rest. if blocked s then rest else some (s, true)) (awaits-first_free blocked w.found ws)
