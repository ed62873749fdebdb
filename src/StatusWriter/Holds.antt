-- ===== src/StatusWriter/Holds.antt =====
-- What it is for the ring to hold points, and that its operations are those of the queue.
use mathlib.Core.Path.{subst}
use mosona_manager.StatusWriter.Ring.{
  QueueOps, Ring, advance, push_locked, take_at_most, drop_points, new_ring, ring_ops, fifo_ops,
}
use mosona_manager.StatusWriter.Slots.{
  Holds, append_point-Holds, take_points-Holds, drop_points-Holds, advance-Holds, drop-all,
  take_over, drop_over,
}
use mosona_manager.Prelude.{
  Bool-cases, List, [], ap, arith, drop, false, inl, inr, length, length-replicate, ltb, none, refl,
  some, take, true, ℕ, ◌<◌, ◌==◌, ◌∙◌, ◌∷◌, ◌≡◌, ◌≤◌,
}

-- One queue behaves as the other, on related contents.
pub record Simulates {A Q P : Type 0} (a : QueueOps A Q) (b : QueueOps A P) (R : Q → P → Type 0)
    : Type 0 where
  pub pushes :
      (x : A) (q : Q) (p : P)
      → R q p
      → R (a.push x q).0 (b.push x p).0 × ((a.push x q).1 ≡ (b.push x p).1)
  pub pops :
      (k : ℕ) (q : Q) (p : P)
      → R q p
      → (xs : List A) × (q' : Q) × (p' : P) × (a.pop k q ≡ some (xs, q'))
        × (b.pop k p ≡ some (xs, p'))
        × R q' p'
  pub clears : (q : Q) (p : P) → R q p → R (a.clear q) (b.clear p)
  pub counts : (q : Q) (p : P) → R q p → a.count q ≡ b.count p

module _ {A : Type 0} (n : ℕ) (positive : 0 < n) where
  push_locked-Holds :
      (x : A) (r : Ring A) (xs : List A)
      → Holds n r xs
      → Holds n (push_locked x r).0 ((fifo_ops n).push x xs).0
        × ((push_locked x r).1 ≡ ((fifo_ops n).push x xs).1)
  unfolding push_locked
  push_locked-Holds x r [] h =
      let a : (r.size == length r.queue) ≡ false = ground (arith, h.sized, h.long) in
      let b : (length {A = A} [] == n) ≡ false = ground arith in
      rw (a, b) (append_point-Holds n r x [] h (omega arith), refl)
  push_locked-Holds x r (y ∷ ys) h = elim (Bool-cases (length (y ∷ ys) == n)) [
    | inl full ↦
        let a : (r.size == length r.queue) ≡ true = ground (arith, h.sized, h.long) in
        rw (a, full)
          (
            append_point-Holds n (advance r) x ys (advance-Holds n r y ys h)
                (omega (arith, h.bounded)),
            refl,
          )
    | inr room ↦
        let a : (r.size == length r.queue) ≡ false = ground (arith, h.sized, h.long) in
        rw (a, room) (append_point-Holds n r x (y ∷ ys) h (ground (arith, h.bounded)), refl)
  ]

  take_at_most-Holds :
      (k : ℕ) (r : Ring A) (xs : List A)
      → Holds n r xs
      → (r' : Ring A) × (take_at_most k r ≡ some (take k xs, r')) × Holds n r' (drop k xs)
  unfolding take_at_most
  take_at_most-Holds k r xs h = elim (Bool-cases (ltb k r.size)) [
    | inl less ↦ rw less (take_points-Holds n k r xs h (ground (arith, h.sized)))
    | inr more ↦
        let all : length xs ≤ k = ground (arith, h.sized) in
        let (r', taken, left) = take_points-Holds n r.size r xs h (omega (arith, h.sized)) in
        rw more (
          r',
          taken ∙ ap (λ ys. some (ys, r')) (ap (λ m. take m xs) h.sized ∙ take_over k xs all),
          subst (Holds n r') (ap (λ m. drop m xs) h.sized ∙ drop_over k xs all) left,
        )
  ]

  -- The ring behaves as a bounded first-in first-out queue: pushing drops the oldest point exactly
  -- when the ring is full, taking gives the oldest points in order and never meets an empty slot,
  -- and both count the same.
  pub ring-Simulates : Simulates ring_ops (fifo_ops n) (Holds {A = A} n)
  ring-Simulates = record {
    pushes = push_locked-Holds;
    pops = λ k r xs h.
        let (r', taken, left) = take_at_most-Holds k r xs h in
        (take k xs, r', drop k xs, taken, refl, left);
    clears = λ r xs h.
        subst (Holds n (drop_points r.size r)) (ap (λ m. drop m xs) h.sized ∙ drop-all xs)
          (drop_points-Holds n r.size r xs h (omega (arith, h.sized)));
    counts = λ r xs h. h.sized;
  }

  -- the ring that the processor starts with is empty
  pub new_ring-Holds : Holds {A = A} n (new_ring n) []
  unfolding new_ring
  new_ring-Holds = record {
    slots = tt;
    sized = refl;
    bounded = omega arith;
    within = positive;
    long = length-replicate n none;
  }
