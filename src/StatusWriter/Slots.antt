-- ===== src/StatusWriter/Slots.antt =====
-- How the slots of a ring hold the points of a queue.
use native.Mathlib.Nat.{mod-lt, mod-add-mod, mod-eq_of_lt, mod-mod, add-mod_right}
use mosona_manager.StatusWriter.Ring.{Ring, advance, append_point, take_points, drop_points}
use mosona_manager.Prelude.{
  List, Option, [], ap, arith, drop, get_elem?, get_elem?-set_ne, get_elem?-set_self, length,
  length-append, length-set, none, refl, set, some, suc, sym, take, zero, ℕ, ◌%◌, ◌++◌, ◌+◌, ◌-◌,
  ◌<◌, ◌∙◌, ◌∷◌, ◌≡◌, ◌≢◌, ◌≤◌,
}

-- from the slot of the index on, around the buffer of `n` slots, stand the points
abbrev pub Slots : {A : Type 0} → ℕ → List (Option A) → ℕ → List A → Type 0
Slots n queue i [] = Unit
Slots n queue i (x ∷ xs) = (get_elem? queue (i % n) ≡ some (some x)) × Slots n queue (i + 1) xs

-- the ring holds the points, oldest first
pub record Holds {A : Type 0} (capacity : ℕ) (r : Ring A) (xs : List A) : Type 0 where
  pub slots : Slots capacity r.queue r.head xs
  pub sized : r.size ≡ length xs
  pub bounded : length xs ≤ capacity
  pub within : r.head < capacity
  pub long : length r.queue ≡ capacity

-- two indices less than a round apart are two slots
mod_apart : (n a d : ℕ) → 0 < d → d < n → (a + d) % n ≢ a % n
mod_apart n a d p h e = grind arith

module _ {A : Type 0} (n : ℕ) where
  -- only the slot of an index counts
  Slots-mod :
      (queue : List (Option A)) (i j : ℕ) (xs : List A)
      → i % n ≡ j % n
      → Slots n queue i xs
      → Slots n queue j xs
  Slots-mod queue i j [] e h = tt
  Slots-mod queue i j (x ∷ xs) e h = (
    ap (get_elem? queue) (sym e) ∙ h.0,
    Slots-mod queue (i + 1) (j + 1) xs
        (sym (mod-add-mod i n 1) ∙ ap (λ k. (k + 1) % n) e ∙ mod-add-mod j n 1) h.1,
  )

  -- writing a slot that is further on leaves the points alone
  Slots-set :
      (queue : List (Option A)) (i d k : ℕ) (v : Option A) (xs : List A)
      → k ≡ (i + d) % n
      → length xs ≤ d
      → d < n
      → Slots n queue i xs
      → Slots n (set queue k v) i xs
  Slots-set queue i d k v [] e p q h = tt
  Slots-set queue i d k v (x ∷ xs) e p q h = (
    get_elem?-set_ne queue v (λ c. mod_apart n i d (omega arith) q (sym e ∙ c)) ∙ h.0,
    Slots-set queue (i + 1) (d - 1) k v xs (e ∙ ap (λ m. m % n) (omega arith)) (omega arith)
        (omega arith) h.1,
  )

  Slots-append :
      (queue : List (Option A)) (i : ℕ) (xs : List A) (y : A)
      → Slots n queue i xs
      → get_elem? queue ((i + length xs) % n) ≡ some (some y)
      → Slots n queue i (xs ++ y ∷ [])
  Slots-append queue i [] y h e = (ap (λ k. get_elem? queue (k % n)) (omega arith) ∙ e, tt)
  Slots-append queue i (x ∷ xs) y h e = (
    h.0,
    Slots-append queue (i + 1) xs y h.1 (ap (λ k. get_elem? queue (k % n)) (omega arith) ∙ e),
  )

  pub advance-Holds :
      (r : Ring A) (x : A) (xs : List A) → Holds n r (x ∷ xs) → Holds n (advance r) xs
  unfolding advance
  advance-Holds r x xs h = record {
    slots =
        Slots-mod (set r.queue r.head none) (r.head + 1) ((r.head + 1) % length r.queue) xs
          (rw h.long (sym (mod-mod (r.head + 1) n)))
          (cleared xs h.slots.1 (omega (arith, h.bounded)));
    sized = omega (arith, h.sized);
    bounded = omega (arith, h.bounded);
    within = rw h.long (mod-lt (r.head + 1) (omega (arith, h.within)));
    long = length-set r.queue r.head none ∙ h.long;
  }
    where
      cleared :
          (ys : List A)
          → Slots n r.queue (r.head + 1) ys
          → length ys < n
          → Slots n (set r.queue r.head none) (r.head + 1) ys
      cleared ys s l =
          Slots-set r.queue (r.head + 1) (n - 1) r.head none ys
            (sym (mod-eq_of_lt h.within)
              ∙ sym (add-mod_right r.head n)
              ∙ ap (λ m. m % n) (omega (arith, h.within)))
            (omega arith) (omega (arith, h.within)) s

  pub append_point-Holds :
      (r : Ring A) (x : A) (xs : List A)
      → Holds n r xs
      → length xs < n
      → Holds n (append_point x r) (xs ++ x ∷ [])
  unfolding append_point
  append_point-Holds r x xs h room =
      let tail : ℕ = (r.head + r.size) % length r.queue in
      let e : tail ≡ (r.head + length xs) % n = rw (h.long, h.sized) refl in
      let inside : tail < length r.queue = mod-lt (r.head + r.size) (omega (arith, h.long)) in
      record {
        slots =
            Slots-append (set r.queue tail (some x)) r.head xs x
              (Slots-set r.queue r.head (length xs) tail (some x) xs e (omega arith) room h.slots)
              (ap (get_elem? (set r.queue tail (some x))) (sym e)
                ∙ get_elem?-set_self r.queue tail (some x) inside);
        sized = omega (arith, h.sized, length-append xs (x ∷ []));
        bounded = omega (arith, length-append xs (x ∷ []));
        within = h.within;
        long = length-set r.queue tail (some x) ∙ h.long;
      }

  pub take_points-Holds :
      (k : ℕ) (r : Ring A) (xs : List A)
      → Holds n r xs
      → k ≤ length xs
      → (r' : Ring A) × (take_points k r ≡ some (take k xs, r')) × Holds n r' (drop k xs)
  unfolding take_points
  take_points-Holds zero r xs h l = (r, refl, h)
  take_points-Holds (suc k) r [] h l = absurd (omega arith)
  take_points-Holds (suc k) r (x ∷ xs) h l =
      let (r', taken, left) =
        take_points-Holds k (advance r) xs (advance-Holds r x xs h) (omega arith) in
      let first : get_elem? r.queue r.head ≡ some (some x) =
        ap (get_elem? r.queue) (sym (mod-eq_of_lt h.within)) ∙ h.slots.0 in
      (r', rw (first, taken) refl, left)

  pub drop_points-Holds :
      (k : ℕ) (r : Ring A) (xs : List A)
      → Holds n r xs
      → k ≤ length xs
      → Holds n (drop_points k r) (drop k xs)
  unfolding drop_points
  drop_points-Holds zero r xs h l = h
  drop_points-Holds (suc k) r [] h l = absurd (omega arith)
  drop_points-Holds (suc k) r (x ∷ xs) h l =
      drop_points-Holds k (advance r) xs (advance-Holds r x xs h) (omega arith)

pub drop-all {ℓ} : {A : Type ℓ} (xs : List A) → drop (length xs) xs ≡ []
drop-all [] = refl
drop-all (x ∷ xs) = drop-all xs

pub take_over {ℓ} :
    {A : Type ℓ} (k : ℕ) (xs : List A) → length xs ≤ k → take (length xs) xs ≡ take k xs
take_over zero [] h = refl
take_over (suc k) [] h = refl
take_over zero (x ∷ xs) h = absurd (omega arith)
take_over (suc k) (x ∷ xs) h = ap (◌∷◌ x) (take_over k xs (omega arith))

pub drop_over {ℓ} :
    {A : Type ℓ} (k : ℕ) (xs : List A) → length xs ≤ k → drop (length xs) xs ≡ drop k xs
drop_over zero [] h = refl
drop_over (suc k) [] h = refl
drop_over zero (x ∷ xs) h = absurd (omega arith)
drop_over (suc k) (x ∷ xs) h = drop_over k xs (omega arith)
