-- ===== src/Alerts/Groups.antt =====
-- `alertDurationGroups` of internal/task/alerts/influx.go: the servers of a batch by the duration
-- of their rule, since a query has one branch for each duration.
use mathlib.Core.List.{append_assoc}
use native.Mathlib.Decide.{ℕ_discrete}
use mathlib.Core.List.{append-nil}
use mathlib.Core.Logic.{ite}
use mosona_manager.Alerts.Types.{AlertItem, AlertItem-discrete, AlertRule}
use mosona_manager.Prelude.{
  Bool, Bool-cases, List, Option, [], ap, arith, false, find, find-store, get_or, if◌then◌else◌,
  inl, inr, none, not, refl, some, store, sym, true, ℕ, ◌&&◌, ◌++◌, ◌+◌, ◌==◌, ◌∙◌, ◌∷◌, ◌≡◌,
}

pub record Grouping : Type 0 where
  pub groups : List (ℕ × List ℕ)
  pub requested : List ℕ
  pub invalid_durations : ℕ

-- `serverRules[serverID][item]`; a nil map has no entries
abbrev pub item_rule : AlertItem → Option (List (AlertItem × AlertRule)) → Option AlertRule
item_rule item none = none
item_rule item (some rules) = find AlertItem-discrete item rules

-- a turn of the loop
unfoldable pub group_server : ℕ → Option AlertRule → Grouping → Grouping
group_server id none g = g
group_server id (some rule) g =
    let d = rule.for_duration in
    if d == 0 then record g { invalid_durations = g.invalid_durations + 1 } else record g {
      groups = store ℕ_discrete d (get_or (find ℕ_discrete d g.groups) [] ++ id ∷ []) g.groups;
      requested = g.requested ++ id ∷ [];
    }

append_none : (xs ys : List ℕ) (b : Bool) → b ≡ false → xs ≡ xs ++ (if b then ys else [])
append_none xs ys b e = rw e (sym (append-nil xs))

appended :
    (d id n : ℕ) (gs : List (ℕ × List ℕ)) (dec : Dec (n ≡ d))
    → (n == 0) ≡ false
    → get_or
        (ite dec (some (get_or (find ℕ_discrete n gs) [] ++ id ∷ [])) (find ℕ_discrete d gs))
        []
      ≡ get_or (find ℕ_discrete d gs) [] ++ (if n == d && not (d == 0) then id ∷ [] else [])
appended d id n gs (yes p) t =
    let holds : (n == d && not (d == 0)) ≡ true = ground (arith, p, t) in
    ap (λ k. get_or (find ℕ_discrete k gs) [] ++ id ∷ []) p
    ∙ ap (λ b. get_or (find ℕ_discrete d gs) [] ++ (if b then id ∷ [] else [])) (sym holds)
appended d id n gs (no q) t =
    append_none (get_or (find ℕ_discrete d gs) []) (id ∷ []) (n == d && not (d == 0))
      (ground (arith, q))

joined :
    (xs : List ℕ) (id : ℕ) (rest : List ℕ) (b : Bool)
    → (xs ++ (if b then id ∷ [] else [])) ++ rest ≡ xs ++ (if b then id ∷ rest else rest)
joined xs id rest true = append_assoc xs (id ∷ []) rest
joined xs id rest false = ap (λ ys. ys ++ rest) (append-nil xs)

module _ (rules : List (ℕ × List (AlertItem × AlertRule))) (item : AlertItem) where
  abbrev pub rule_at : ℕ → Option AlertRule
  rule_at id = item_rule item (find ℕ_discrete id rules)

  unfoldable pub group_servers : List ℕ → Grouping → Grouping
  unfolding group_server
  group_servers [] g = g
  group_servers (id ∷ ids) g = group_servers ids (group_server id (rule_at id) g)

  unfoldable pub alert_duration_groups : List ℕ → Grouping
  unfolding group_servers
  alert_duration_groups ids =
      group_servers ids (record { groups = []; requested = []; invalid_durations = 0 })

  -- the servers whose rule passes a test on its duration, as it is meant
  abbrev pub passes : (ℕ → Bool) → Option AlertRule → Bool
  passes test none = false
  passes test (some rule) = test rule.for_duration

  unfoldable pub servers_where : (ℕ → Bool) → List ℕ → List ℕ
  servers_where test [] = []
  servers_where test (id ∷ ids) =
      let rest = servers_where test ids in if passes test (rule_at id) then id ∷ rest else rest

  -- a turn, as it is seen at one duration
  group_server-at :
      (d id : ℕ) (o : Option AlertRule) (g : Grouping)
      → get_or (find ℕ_discrete d (group_server id o g).groups) []
        ≡ get_or (find ℕ_discrete d g.groups) []
          ++ (if passes (λ n. n == d && not (d == 0)) o then id ∷ [] else [])
  unfolding group_server
  group_server-at d id none g = sym (append-nil (get_or (find ℕ_discrete d g.groups) []))
  group_server-at d id (some rule) g = elim (Bool-cases (rule.for_duration == 0)) [
    | inl t ↦ simp t (
        append_none (get_or (find ℕ_discrete d g.groups) []) (id ∷ [])
          (rule.for_duration == d && not (d == 0)) (ground (arith, t)))
    | inr t ↦ simp t (
        ap (λ o. get_or o [])
          (find-store ℕ_discrete rule.for_duration d
            (get_or (find ℕ_discrete rule.for_duration g.groups) [] ++ id ∷ []) g.groups)
        ∙ appended d id rule.for_duration g.groups (ℕ_discrete rule.for_duration d) t)
  ]

  group_servers-at :
      (d : ℕ) (ids : List ℕ) (g : Grouping)
      → get_or (find ℕ_discrete d (group_servers ids g).groups) []
        ≡ get_or (find ℕ_discrete d g.groups) [] ++ servers_where (λ n. n == d && not (d == 0)) ids
  unfolding group_servers servers_where
  group_servers-at d [] g = sym (append-nil (get_or (find ℕ_discrete d g.groups) []))
  group_servers-at d (id ∷ ids) g =
      group_servers-at d ids (group_server id (rule_at id) g)
      ∙ ap (λ xs. xs ++ servers_where (λ n. n == d && not (d == 0)) ids)
          (group_server-at d id (rule_at id) g)
      ∙ joined (get_or (find ℕ_discrete d g.groups) []) id
          (servers_where (λ n. n == d && not (d == 0)) ids)
          (passes (λ n. n == d && not (d == 0)) (rule_at id))

  group_server-requested :
      (id : ℕ) (o : Option AlertRule) (g : Grouping)
      → (group_server id o g).requested
        ≡ g.requested ++ (if passes (λ n. not (n == 0)) o then id ∷ [] else [])
  unfolding group_server
  group_server-requested id none g = sym (append-nil g.requested)
  group_server-requested id (some rule) g = elim (Bool-cases (rule.for_duration == 0)) [
    | inl t ↦ simp t (sym (append-nil g.requested))
    | inr t ↦ simp t refl
  ]

  group_servers-requested :
      (ids : List ℕ) (g : Grouping)
      → (group_servers ids g).requested ≡ g.requested ++ servers_where (λ n. not (n == 0)) ids
  unfolding group_servers servers_where
  group_servers-requested [] g = sym (append-nil g.requested)
  group_servers-requested (id ∷ ids) g =
      group_servers-requested ids (group_server id (rule_at id) g)
      ∙ ap (λ xs. xs ++ servers_where (λ n. not (n == 0)) ids)
          (group_server-requested id (rule_at id) g)
      ∙ joined g.requested id (servers_where (λ n. not (n == 0)) ids)
          (passes (λ n. not (n == 0)) (rule_at id))

  -- A duration's group has exactly the servers of the batch whose rule has that duration, in the
  -- batch's order, and none for the duration zero; the requested servers are exactly those whose
  -- rule has a positive duration, in the batch's order.
  pub alert_duration_groups_lem :
      (d : ℕ) (ids : List ℕ)
      → (get_or (find ℕ_discrete d (alert_duration_groups ids).groups) []
          ≡ servers_where (λ n. n == d && not (d == 0)) ids)
        × ((alert_duration_groups ids).requested ≡ servers_where (λ n. not (n == 0)) ids)
  unfolding alert_duration_groups find
  alert_duration_groups_lem d ids =
      let empty : Grouping = record { groups = []; requested = []; invalid_durations = 0 } in
      (group_servers-at d ids empty, group_servers-requested ids empty)
