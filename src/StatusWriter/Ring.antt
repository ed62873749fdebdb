-- ===== src/StatusWriter/Ring.antt =====
-- The circular buffer of `serverStatusProcessor`, and the bounded first-in first-out queue that it
-- stands for. A slot is `none` where the pointer is nil; a read that finds none is a fault.
use mosona_manager.Prelude.{
  Bool, List, Option, [], drop, false, get_elem?, if◌then◌else◌, length, ltb, none, replicate, set,
  some, suc, take, true, zero, ℕ, ◌%◌, ◌++◌, ◌+◌, ◌-◌, ◌==◌, ◌∷◌,
}

-- the operations on the queue of points that the processor uses
pub record QueueOps (A Q : Type 0) : Type 0 where
  -- whether the oldest point was dropped for room
  pub push : A → Q → Q × Bool
  -- at most so many points, oldest first; `none` is a fault
  pub pop : ℕ → Q → Option (List A × Q)
  pub clear : Q → Q
  pub count : Q → ℕ

pub record Ring (A : Type 0) : Type 0 where
  pub queue : List (Option A)
  pub head : ℕ
  pub size : ℕ

module _ {A : Type 0} where
  -- the three statements that empty the slot at the head
  unfoldable pub advance : Ring A → Ring A
  advance r = record {
    queue = set r.queue r.head none;
    head = (r.head + 1) % length r.queue;
    size = r.size - 1;
  }

  -- the end of `pushLocked`
  unfoldable pub append_point : A → Ring A → Ring A
  append_point x r = record r {
    queue = set r.queue ((r.head + r.size) % length r.queue) (some x);
    size = r.size + 1;
  }

  unfoldable pub push_locked : A → Ring A → Ring A × Bool
  unfolding advance append_point
  push_locked x r =
      if r.size == length r.queue
      then (append_point x (advance r), true)
      else (append_point x r, false)

  abbrev pub with_point : Option (Option A) → Option (List A × Ring A) → Option (List A × Ring A)
  with_point (some (some x)) (some (xs, r)) = some (x ∷ xs, r)
  with_point _ _ = none

  -- the loop of `take`
  unfoldable pub take_points : ℕ → Ring A → Option (List A × Ring A)
  unfolding advance
  take_points zero r = some ([], r)
  take_points (suc n) r = with_point (get_elem? r.queue r.head) (take_points n (advance r))

  -- the queue's part of `take`
  unfoldable pub take_at_most : ℕ → Ring A → Option (List A × Ring A)
  unfolding take_points
  take_at_most max r = take_points (if ltb max r.size then max else r.size) r

  -- the loop of `dropRemaining`
  unfoldable pub drop_points : ℕ → Ring A → Ring A
  unfolding advance
  drop_points zero r = r
  drop_points (suc n) r = drop_points n (advance r)

  unfoldable pub new_ring : ℕ → Ring A
  new_ring queue_size = record { queue = replicate queue_size none; head = 0; size = 0 }

abbrev pub ring_ops : {A : Type 0} → QueueOps A (Ring A)
ring_ops = record {
  push = push_locked;
  pop = take_at_most;
  clear = λ r. drop_points r.size r;
  count = λ r. r.size;
}

-- The queue as its users see it: the points in order of arrival, at most `capacity` of them.
abbrev pub fifo_ops : {A : Type 0} → ℕ → QueueOps A (List A)
fifo_ops capacity = record {
  push =
      λ x xs. if length xs == capacity then (drop 1 xs ++ x ∷ [], true) else (xs ++ x ∷ [], false);
  pop = λ max xs. some (take max xs, drop max xs);
  clear = λ xs. [];
  count = length;
}
