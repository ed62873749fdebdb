-- ===== src/Logins/Window.antt =====
-- The window of seen sessions is kept in order, without repetition and within its size, and no
-- index into it is out of range.
use native.Mathlib.Numerals.{add-one}
use mathlib.Core.Path.{subst}
use mosona_manager.Logins.Scan.{
  ScanState, is_member, remove, evict_one, evict_loop, max_seen_keys, compact, evict_oldest,
  make_room, add, report, ingest_loop, new_scan_state, seed, ingest,
}
use mosona_manager.Logins.Records.{Record, key}
use mathlib.Core.Option
use mosona_manager.Prelude.{
  Bool, Bool-cases, List, List-cases, Option, [], ap, arith, drop, false, get_elem?, inl, inr,
  length, length-append, ltb, ltb-false, ltb→lt, none, refl, some, suc, sym, true, zero, ℕ, ◌++◌,
  ◌+◌, ◌<◌, ◌∙◌, ◌∷◌, ◌≡◌, ◌≢◌, ◌≤◌,
}

abbrev pub Distinct : List (List ℕ) → Type 0
Distinct [] = Unit
Distinct (k ∷ ks) = (is_member k ks ≡ false) × Distinct ks

-- what holds within a scan
pub record Window (s : ScanState) : Type 0 where
  pub in_order : s.seen ≡ drop s.head s.order
  pub distinct : Distinct s.seen
  pub in_range : s.head ≤ length s.order

remove_absent : (k : List ℕ) (ks : List (List ℕ)) → is_member k ks ≡ false → remove k ks ≡ ks
unfolding is_member remove
remove_absent k [] h = refl
remove_absent k (j ∷ ks) h = ground (arith, remove_absent k ks)

remove_head : (k : List ℕ) (ks : List (List ℕ)) → is_member k ks ≡ false → remove k (k ∷ ks) ≡ ks
unfolding remove
remove_head k ks h = ground (arith, remove_absent k ks h)

drop-suc {ℓ} :
    {A : Type ℓ} (n : ℕ) (xs : List A) (y : A) (ys : List A)
    → drop n xs ≡ y ∷ ys
    → (get_elem? xs n ≡ some y) × (drop (suc n) xs ≡ ys) × (suc n ≤ length xs)
drop-suc zero [] y ys h = absurd (ground arith)
drop-suc zero (x ∷ xs) y ys h = (cc, cc, omega arith)
drop-suc (suc n) [] y ys h = absurd (ground arith)
drop-suc (suc n) (x ∷ xs) y ys h =
    let (found, rest, fits) = drop-suc n xs y ys h in (found, rest, omega arith)

-- one eviction takes the oldest key
evict_one-Window :
    (s : ScanState) (k : List ℕ) (ks : List (List ℕ))
    → Window s
    → s.seen ≡ k ∷ ks
    → (s' : ScanState) × (evict_one s (get_elem? s.order s.head) ≡ some s')
      × Window s'
      × (s'.seen ≡ ks)
      × (s'.order ≡ s.order)
      × (s'.head ≡ s.head + 1)
      × (s'.seeded ≡ s.seeded)
evict_one-Window s k ks w h =
    let (found, rest, fits) = drop-suc s.head s.order k ks (sym w.in_order ∙ h) in
    let (absent, distinct) = subst Distinct h w.distinct in
    let gone : remove k s.seen ≡ ks = rw h (remove_head k ks absent) in
    let s' : ScanState = record s { seen = remove k s.seen; head = s.head + 1 } in
    (
      s',
      rw found,
      record {
        in_order = gone ∙ sym rest ∙ ap (λ n. drop n s.order) (sym (add-one s.head));
        distinct = rw gone distinct;
        in_range = omega arith;
      },
      gone,
      refl,
      refl,
      refl,
    )

evict_loop-Window :
    (n : ℕ) (s : ScanState)
    → Window s
    → n ≤ length s.seen
    → (s' : ScanState) × (evict_loop n s ≡ some s')
      × Window s'
      × (length s'.seen + n ≡ length s.seen)
      × (s'.seen ≡ drop n s.seen)
      × (s'.seeded ≡ s.seeded)
unfolding evict_loop
evict_loop-Window zero s w h = (s, refl, w, omega arith, refl, refl)
evict_loop-Window (suc n) s w h = elim (List-cases s.seen) [
  | inl e ↦ absurd (omega (arith, ap length e))
  | inr (k, ks, e) ↦
      let (s₁, done, w₁, seen, _, _, seeded) = evict_one-Window s k ks w e in
      let (s₂, rest, w₂, size, left, seeded') =
        evict_loop-Window n s₁ w₁ (omega (arith, ap length e, ap length seen)) in
      (
        s₂,
        rw (done, rest),
        w₂,
        omega (arith, ap length e, ap length seen),
        left ∙ ap (drop n) seen ∙ ap (drop (suc n)) (sym e),
        seeded' ∙ seeded,
      )
]

-- what holds between scans
pub record Inv (s : ScanState) : Type 0 where
  pub window : Window s
  pub size : length s.seen ≤ max_seen_keys
  pub head : s.head < max_seen_keys

compact-Window :
    (s : ScanState) → Window s → Window (compact s) × ((compact s).head < max_seen_keys)
unfolding compact
compact-Window s w = elim (Bool-cases (ltb s.head max_seen_keys)) [
  | inl e ↦ rw e (w, ltb→lt _ _ e)
  | inr e ↦
      rw e (
        record { in_order = w.in_order; distinct = w.distinct; in_range = omega arith },
        omega arith,
      )
]

compact_same : (s : ScanState) → ((compact s).seen ≡ s.seen) × ((compact s).seeded ≡ s.seeded)
unfolding compact
compact_same s = ground arith

is_member-drop :
    (k : List ℕ) (n : ℕ) (xs : List (List ℕ))
    → is_member k xs ≡ false
    → is_member k (drop n xs) ≡ false
unfolding is_member
is_member-drop k zero xs h = h
is_member-drop k (suc n) [] h = h
is_member-drop k (suc n) (x ∷ xs) h = is_member-drop k n xs (ground arith)

-- Making room never fails, and takes away at most the oldest keys.
make_room-Inv :
    (s : ScanState)
    → Inv s
    → (s' : ScanState) × (make_room s ≡ some s')
      × Window s'
      × (length s'.seen < max_seen_keys)
      × (s'.head < max_seen_keys)
      × (s'.seeded ≡ s.seeded)
      × ((k : List ℕ) → is_member k s.seen ≡ false → is_member k s'.seen ≡ false)
unfolding make_room
make_room-Inv s inv = elim (Bool-cases (ltb (length s.seen) max_seen_keys)) [
  | inl e ↦ (s, rw e, inv.window, ltb→lt _ _ e, inv.head, refl, λ k h. h)
  | inr e ↦
      let full = ltb-false _ _ e in
      let (s₁, done, w, size, left, seeded) = evict_loop-Window 1024 s inv.window (omega arith) in
      let (w', below) = compact-Window s₁ w in
      let (seen', seeded') = compact_same s₁ in
      (
        compact s₁,
        rw e (unfold evict_oldest in ap (Option.map compact) done),
        w',
        omega (arith, ap length seen'),
        below,
        seeded' ∙ seeded,
        λ k h. rw (seen', left) (is_member-drop k 1024 s.seen h),
      )
]

is_member-snoc :
    (k j : List ℕ) (xs : List (List ℕ))
    → is_member k xs ≡ false
    → j ≢ k
    → is_member k (xs ++ j ∷ []) ≡ false
unfolding is_member
is_member-snoc k j [] h n = ground arith
is_member-snoc k j (x ∷ xs) h n = ground (arith, is_member-snoc k j xs)

Distinct-snoc :
    (k : List ℕ) (xs : List (List ℕ))
    → Distinct xs
    → is_member k xs ≡ false
    → Distinct (xs ++ k ∷ [])
unfolding is_member
Distinct-snoc k [] d h = (refl, tt)
Distinct-snoc k (x ∷ xs) d h =
    (is_member-snoc x k xs d.0 (λ e. ground arith), Distinct-snoc k xs d.1 (ground arith))

drop-snoc {ℓ} :
    {A : Type ℓ} (n : ℕ) (xs : List A) (y : A)
    → n ≤ length xs
    → drop n xs ++ y ∷ [] ≡ drop n (xs ++ y ∷ [])
drop-snoc zero xs y h = refl
drop-snoc (suc n) [] y h = absurd (omega arith)
drop-snoc (suc n) (x ∷ xs) y h = drop-snoc n xs y (omega arith)

add-Inv :
    (k : List ℕ) (s : ScanState)
    → Window s
    → length s.seen < max_seen_keys
    → s.head < max_seen_keys
    → is_member k s.seen ≡ false
    → Inv (add k s)
add-Inv k s w size head h = record {
  window = record {
    in_order = ap (λ l. l ++ k ∷ []) w.in_order ∙ drop-snoc s.head s.order k w.in_range;
    distinct = Distinct-snoc k s.seen w.distinct h;
    in_range = omega (arith, length-append s.order (k ∷ []));
  };
  size = omega (arith, length-append s.seen (k ∷ []));
  head = head;
}

abbrev pub Ingested : ScanState → Option (List Record × ScanState) → Type 0
Ingested s none = ⊥
Ingested s (some (fresh, s')) = Inv s' × (s'.seeded ≡ s.seeded) × (s.seeded ≡ false → fresh ≡ [])

report-Ingested :
    (b : Bool) (s s₁ : ScanState) (r : Record) (o : Option (List Record × ScanState))
    → s.seeded ≡ b
    → s₁.seeded ≡ s.seeded
    → Ingested s₁ o
    → Ingested s (report b r o)
report-Ingested b s s₁ r none eb e h = absurd h
report-Ingested true s s₁ r (some (fresh, s')) eb e h = (h.0, h.1 ∙ e, λ f. absurd (cc (eb, f)))
report-Ingested false s s₁ r (some (fresh, s')) eb e h = (h.0, h.1 ∙ e, λ f. h.2 (e ∙ f))

ingest_loop-Inv : (rs : List Record) (s : ScanState) → Inv s → Ingested s (ingest_loop rs s)
unfolding ingest_loop
ingest_loop-Inv [] s inv = (inv, refl, λ e. refl)
ingest_loop-Inv (r ∷ rs) s inv = elim (Bool-cases (is_member (key r) s.seen)) [
  | inl e ↦ rw e (ingest_loop-Inv rs s inv)
  | inr e ↦
      let (s₁, made, w, size, head, seeded, keeps) = make_room-Inv s inv in
      let added = add-Inv (key r) s₁ w size head (keeps (key r) e) in
      rw (e, made)
        (report-Ingested s.seeded s (add (key r) s₁) r (ingest_loop rs (add (key r) s₁)) refl seeded
          (ingest_loop-Inv rs (add (key r) s₁) added))
]

-- A scan of any records never indexes out of range, and after it the
-- window holds no key twice, in the order of arrival, at most 4096 of them; the first scan, which
-- only seeds the window, reports nothing.
pub ingest-Inv :
    (rs : List Record) (s : ScanState)
    → Inv s
    → (fresh : List Record) × (s' : ScanState) × (ingest rs s ≡ some (fresh, s'))
      × Inv s'
      × (s'.seeded ≡ true)
      × (s.seeded ≡ false → fresh ≡ [])
unfolding ingest
ingest-Inv rs s inv = of_result (ingest_loop rs s) (ingest_loop-Inv rs s inv)
  where
    of_result :
        (o : Option (List Record × ScanState))
        → Ingested s o
        → (fresh : List Record) × (s' : ScanState) × (Option.map seed o ≡ some (fresh, s'))
          × Inv s'
          × (s'.seeded ≡ true)
          × (s.seeded ≡ false → fresh ≡ [])
    of_result none h = absurd h
    of_result (some (fresh, s')) h = (
      fresh,
      record s' { seeded = true },
      refl,
      record {
        window = record {
          in_order = h.0.window.in_order;
          distinct = h.0.window.distinct;
          in_range = h.0.window.in_range;
        };
        size = h.0.size;
        head = h.0.head;
      },
      refl,
      h.2,
    )

-- a new state satisfies the invariant
pub new-Inv : Inv new_scan_state
unfolding new_scan_state
new-Inv = record {
  window = record { in_order = refl; distinct = tt; in_range = omega arith };
  size = omega arith;
  head = omega arith;
}
