-- ===== src/Logins/Once.antt =====
-- Which logins a scan reports.
use mathlib.Core.Option
use mosona_manager.Logins.Records.{Record, key}
use mosona_manager.Logins.Scan.{
  max_seen_keys, ScanState, is_member, make_room, add, report, ingest_loop, seed, ingest,
}
use mosona_manager.Prelude.{
  Bool, Bool-cases, List, Option, [], ap, arith, false, inl, inr, length, length-append, lt→ltb,
  none, refl, some, true, ℕ, ◌++◌, ◌+◌, ◌∷◌, ◌≡◌, ◌≤◌,
}

-- none of the records was seen
abbrev pub AllUnseen : List (List ℕ) → List Record → Type 0
AllUnseen seen [] = Unit
AllUnseen seen (r ∷ rs) = (is_member (key r) seen ≡ false) × AllUnseen seen rs

-- all of the records were seen
abbrev pub AllSeen : List (List ℕ) → List Record → Type 0
AllSeen seen [] = Unit
AllSeen seen (r ∷ rs) = (is_member (key r) seen ≡ true) × AllSeen seen rs

member-snoc_keeps :
    (k j : List ℕ) (xs : List (List ℕ)) → is_member k xs ≡ true → is_member k (xs ++ j ∷ []) ≡ true
unfolding is_member
member-snoc_keeps k j [] h = cc
member-snoc_keeps k j (x ∷ xs) h = ground (arith, member-snoc_keeps k j xs)

member-snoc_self : (k : List ℕ) (xs : List (List ℕ)) → is_member k (xs ++ k ∷ []) ≡ true
unfolding is_member
member-snoc_self k [] = ground arith
member-snoc_self k (x ∷ xs) = ground (arith, member-snoc_self k xs)

unseen_before :
    (k j : List ℕ) (xs : List (List ℕ))
    → is_member k (xs ++ j ∷ []) ≡ false
    → is_member k xs ≡ false
unfolding is_member
unseen_before k j [] h = refl
unseen_before k j (x ∷ xs) h = ground (arith, unseen_before k j xs)

AllUnseen-before :
    (j : List ℕ) (seen : List (List ℕ)) (rs : List Record)
    → AllUnseen (seen ++ j ∷ []) rs
    → AllUnseen seen rs
AllUnseen-before j seen [] h = tt
AllUnseen-before j seen (r ∷ rs) h =
    (unseen_before (key r) j seen h.0, AllUnseen-before j seen rs h.1)

-- what a loop with enough room does
abbrev Reported : List Record → ScanState → Option (List Record × ScanState) → Type 0
Reported rs s none = ⊥
Reported rs s (some (fresh, s')) =
    AllUnseen s.seen fresh
    × AllSeen s'.seen rs
    × ((k : List ℕ) → is_member k s.seen ≡ true → is_member k s'.seen ≡ true)

report-Reported :
    (b : Bool) (r : Record) (rs : List Record) (s : ScanState)
    (o : Option (List Record × ScanState))
    → is_member (key r) s.seen ≡ false
    → Reported rs (add (key r) s) o
    → Reported (r ∷ rs) s (report b r o)
report-Reported b r rs s none n h = absurd h
report-Reported true r rs s (some (fresh, s')) n h = (
  (n, AllUnseen-before (key r) s.seen fresh h.0),
  (h.2 (key r) (member-snoc_self (key r) s.seen), h.1),
  λ k m. h.2 k (member-snoc_keeps k (key r) s.seen m),
)
report-Reported false r rs s (some (fresh, s')) n h = (
  AllUnseen-before (key r) s.seen fresh h.0,
  (h.2 (key r) (member-snoc_self (key r) s.seen), h.1),
  λ k m. h.2 k (member-snoc_keeps k (key r) s.seen m),
)

known-Reported :
    (r : Record) (rs : List Record) (s : ScanState) (o : Option (List Record × ScanState))
    → is_member (key r) s.seen ≡ true
    → Reported rs s o
    → Reported (r ∷ rs) s o
known-Reported r rs s none m h = absurd h
known-Reported r rs s (some (fresh, s')) m h = (h.0, (h.2 (key r) m, h.1), h.2)

ingest_loop-Reported :
    (rs : List Record) (s : ScanState)
    → length s.seen + length rs ≤ max_seen_keys
    → Reported rs s (ingest_loop rs s)
unfolding ingest_loop make_room
ingest_loop-Reported [] s h = (tt, tt, λ k m. m)
ingest_loop-Reported (r ∷ rs) s h = elim (Bool-cases (is_member (key r) s.seen)) [
  | inl e ↦
      rw e (known-Reported r rs s (ingest_loop rs s) e (ingest_loop-Reported rs s (omega arith)))
  | inr e ↦
      let grown = length-append s.seen (key r ∷ []) in
      rw (e, lt→ltb (length s.seen) max_seen_keys (omega arith))
        (report-Reported s.seeded r rs s (ingest_loop rs (add (key r) s)) e
          (ingest_loop-Reported rs (add (key r) s) (omega arith)))
]

seen_silent :
    (rs : List Record) (s : ScanState) → AllSeen s.seen rs → ingest_loop rs s ≡ some ([], s)
unfolding ingest_loop
seen_silent [] s h = refl
seen_silent (r ∷ rs) s h = rw h.0 (seen_silent rs s h.1)

-- As long as the window has room for the records, a scan reports only logins that were not seen
-- before, and scanning the same records again, as after a rotation, reports nothing and leaves
-- the state alone.
ingest_again :
    (rs : List Record) (s : ScanState)
    → length s.seen + length rs ≤ max_seen_keys
    → (fresh : List Record) × (s' : ScanState) × (ingest rs s ≡ some (fresh, s'))
      × AllUnseen s.seen fresh
      × (ingest rs s' ≡ some ([], s'))
unfolding ingest
ingest_again rs s h = of_result (ingest_loop rs s) (ingest_loop-Reported rs s h)
  where
    of_result :
        (o : Option (List Record × ScanState))
        → Reported rs s o
        → (fresh : List Record) × (s' : ScanState) × (Option.map seed o ≡ some (fresh, s'))
          × AllUnseen s.seen fresh
          × (Option.map seed (ingest_loop rs s') ≡ some ([], s'))
    of_result none r = absurd r
    of_result (some (fresh, s')) r = (
      fresh,
      record s' { seeded = true },
      refl,
      r.0,
      ap (Option.map seed) (seen_silent rs (record s' { seeded = true }) r.1),
    )
