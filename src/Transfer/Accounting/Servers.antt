-- ===== src/Transfer/Accounting/Servers.antt =====
-- The servers of an export: each is in the bundle or listed, whatever the queries answer.
use mosona_manager.Encrypt.{ssh_password_context, agent_private_key_context, Cipher}
use mosona_manager.Transfer.Bundle.{Ssh, Server, SkippedServer}
use mosona_manager.Transfer.Database.{
  ServerRow, SshRow, AgentRow, Attached, Database, Statement, TransferError, Result, and_then,
  Failures, query, rows_of, reads_ssh, reads_agent, reads_token, database_error, encryption_error,
  invalid_notification, invalid_public_page, no_category, invalid_import, agent_uid_conflict,
  unreadable_server, unreadable_key,
}
use mosona_manager.Transfer.Export.{Order}
use mosona_manager.Transfer.Export.Servers.{
  ServersRead, collect_server, skipped_or_error, has_unreadable_key, with_ssh_password, export_ssh,
  with_private_key, export_agent, export_server_connection, finish_server, export_server,
  export_each,
}
use mosona_manager.Transfer.Steps.{right_injective, query_then}
use mosona_manager.Transfer.Accounting.{Accounted, none_left, exported, left_out}
use mathlib.Core.Path.{subst}
use mathlib.Core.Bool.{true≢false}
use mosona_manager.Prelude.{
  Bool, Bool-cases, List, Option, [], ap, false, inl, inr, none, refl, some, sym, true, ℕ, ◌==◌,
  ◌||◌, ◌∙◌, ◌∷◌, ◌≡◌, ◌≢◌, ◌⊎◌,
}

-- an error that blames a server blames the one in hand
abbrev Blames : ℕ → TransferError → Type 0
Blames id (unreadable_server k) = k.server_id ≡ id
Blames id e = Unit

abbrev IsConnected : ℕ → Result Server → Type 0
IsConnected id (inl e) = Blames id e
IsConnected id (inr t) = t.ref_id ≡ id

IsConnected-and_then :
    {A : Type 0} (fails : Failures) (st : Statement) (db : Database) (a : A) (k : A → Result Server)
    (id : ℕ)
    → IsConnected id (k a)
    → IsConnected id (and_then (query fails st db a) k)
unfolding query and_then
IsConnected-and_then fails st db a k id h = elim (Bool-cases (fails st db)) [
  | inl t ↦ simp t tt
  | inr t ↦ simp t h
]

IsConnected-then :
    (m : Result Server) (k : Server → Result Server) (id : ℕ)
    → IsConnected id m
    → ((t : Server) → t.ref_id ≡ id → IsConnected id (k t))
    → IsConnected id (and_then m k)
unfolding and_then
IsConnected-then (inl e) k id h f = h
IsConnected-then (inr t) k id h f = f t h

module _ (cipher : Cipher) (order : Order) (fails : Failures) where
  IsConnected-export_ssh :
      (s : Server) (row : Option SshRow)
      → IsConnected s.ref_id (export_ssh cipher order fails s row)
  unfolding export_ssh
  IsConnected-export_ssh s none = tt
  IsConnected-export_ssh s (some row) =
      opened (cipher.decrypt_text row.password (ssh_password_context s.ref_id))
    where
      opened :
          (o : Option (List ℕ))
          → IsConnected s.ref_id (with_ssh_password cipher order fails s row o)
      opened none = refl
      opened (some p) = refl

  IsConnected-export_agent :
      (s : Server) (row : Option AgentRow)
      → IsConnected s.ref_id (export_agent cipher order fails s row)
  unfolding export_agent
  IsConnected-export_agent s none = refl
  IsConnected-export_agent s (some row) = elim (Bool-cases (s.type_ == 1)) [
    | inl t ↦
        simp t (opened (cipher.decrypt_text row.private_key (agent_private_key_context s.ref_id)))
    | inr t ↦ simp t refl
  ]
    where
      opened :
          (o : Option (List ℕ)) → IsConnected s.ref_id (with_private_key cipher order fails s row o)
      opened none = refl
      opened (some p) = refl

  IsConnected-export_server_connection :
      (db : Database) (rows : Attached) (s : Server)
      → IsConnected s.ref_id (export_server_connection cipher order fails db rows s)
  unfolding export_server_connection
  IsConnected-export_server_connection db rows s = elim (Bool-cases (s.type_ == 0)) [
    | inl t ↦ simp t (
        IsConnected-and_then fails (reads_ssh s.ref_id) db rows.ssh _ s.ref_id
          (IsConnected-export_ssh s rows.ssh))
    | inr t ↦ elim (Bool-cases (s.type_ == 1 || s.type_ == 2)) [
      | inr u ↦ simp (t, u) refl
      | inl u ↦
          simp (t, u)
            (IsConnected-and_then fails (reads_agent s.ref_id) db rows.agent _ s.ref_id (
              IsConnected-then (export_agent cipher order fails s rows.agent) _ s.ref_id
                (IsConnected-export_agent s rows.agent)
                (λ x q.
                  IsConnected-and_then fails (reads_token s.ref_id) db rows.enroll_token _ s.ref_id
                    q)))
    ]
  ]

  -- what one server of the loop gives
  abbrev IsOutcome : Bool → List ℕ → ServerRow → SkippedServer ⊎ Server → Type 0
  IsOutcome skip ids row (inl k) = (k.server_id ≡ row.id) × ((skip ≡ false) → ids ≢ [])
  IsOutcome skip ids row (inr s) = (s.ref_id ≡ row.id) × (has_unreadable_key ids s.ssh ≡ false)

  IsOutcome-skipped_or_error :
      (skip : Bool) (ids : List ℕ) (row : ServerRow) (e : TransferError)
      (o : SkippedServer ⊎ Server)
      → Blames row.id e
      → skipped_or_error skip e ≡ inr o
      → IsOutcome skip ids row o
  IsOutcome-skipped_or_error true ids row (unreadable_server k) o h q =
      subst (IsOutcome true ids row) (right_injective _ refl q) (h, λ e. absurd (true≢false e))
  IsOutcome-skipped_or_error true ids row database_error o h q = absurd (cc q)
  IsOutcome-skipped_or_error true ids row encryption_error o h q = absurd (cc q)
  IsOutcome-skipped_or_error true ids row invalid_notification o h q = absurd (cc q)
  IsOutcome-skipped_or_error true ids row invalid_public_page o h q = absurd (cc q)
  IsOutcome-skipped_or_error true ids row no_category o h q = absurd (cc q)
  IsOutcome-skipped_or_error true ids row (invalid_import s) o h q = absurd (cc q)
  IsOutcome-skipped_or_error true ids row (agent_uid_conflict s u v) o h q = absurd (cc q)
  IsOutcome-skipped_or_error true ids row (unreadable_key k) o h q = absurd (cc q)
  IsOutcome-skipped_or_error false ids row e o h q = absurd (cc q)

  no_key_unreadable : (ssh : Option Ssh) → has_unreadable_key [] ssh ≡ false
  no_key_unreadable none = refl
  no_key_unreadable (some ssh) = refl

  IsOutcome-finish_server :
      (db : Database) (skip : Bool) (ids : List ℕ) (rows : Attached) (row : ServerRow)
      (m : Result Server) (o : SkippedServer ⊎ Server)
      → IsConnected row.id m
      → finish_server cipher order fails db skip ids rows m ≡ inr o
      → IsOutcome skip ids row o
  unfolding finish_server
  IsOutcome-finish_server db skip ids rows row (inl e) o h q =
      IsOutcome-skipped_or_error skip ids row e o h q
  IsOutcome-finish_server db skip ids rows row (inr s) o h q =
      elim (Bool-cases (has_unreadable_key ids s.ssh)) [
        | inl t ↦ subst (IsOutcome skip ids row) (right_injective _ refl (simp t at q)) (
          h,
          λ _ e.
              true≢false (sym t ∙ ap (λ x. has_unreadable_key x s.ssh) e ∙ no_key_unreadable s.ssh),
        )
        | inr t ↦
            subst (IsOutcome skip ids row)
              (right_injective _ refl (query_then fails _ db _ _ o (simp t at q))) (h, t)
      ]

  IsOutcome-export_server :
      (db : Database) (skip : Bool) (ids : List ℕ) (row : ServerRow) (o : SkippedServer ⊎ Server)
      → export_server cipher order fails db skip ids row ≡ inr o
      → IsOutcome skip ids row o
  unfolding export_server
  IsOutcome-export_server db skip ids row o h =
      IsOutcome-finish_server db skip ids (rows_of row.id db.attached) row _ o
        (IsConnected-export_server_connection db (rows_of row.id db.attached) _)
        (query_then fails _ db _ _ o (query_then fails _ db _ _ o h))

  abbrev AreOutcomes : Bool → List ℕ → List ServerRow → ServersRead → Type 0
  AreOutcomes skip ids rows r =
      Accounted ids rows r.servers r.skipped_servers
      × (skip ≡ false → ids ≡ [] → r.skipped_servers ≡ [])

  collect_server_lem :
      (skip : Bool) (ids : List ℕ) (row : ServerRow) (rows : List ServerRow)
      (x : Result (SkippedServer ⊎ Server)) (rest : Result ServersRead) (r : ServersRead)
      → ((o : SkippedServer ⊎ Server) → x ≡ inr o → IsOutcome skip ids row o)
      → ((r' : ServersRead) → rest ≡ inr r' → AreOutcomes skip ids rows r')
      → collect_server x rest ≡ inr r
      → AreOutcomes skip ids (row ∷ rows) r
  collect_server_lem skip ids row rows (inl e) rest r own ih h = absurd (cc h)
  collect_server_lem skip ids row rows (inr x) (inl e) r own ih h = absurd (cc h)
  collect_server_lem skip ids row rows (inr (inl k)) (inr r') r own ih h =
      let (id, because) = own (inl k) refl in
      subst (AreOutcomes skip ids (row ∷ rows)) (right_injective _ refl h)
        (left_out id (ih r' refl).0, λ a b. absurd (because a b))
  collect_server_lem skip ids row rows (inr (inr s)) (inr r') r own ih h =
      let (id, free) = own (inr s) refl in
      subst (AreOutcomes skip ids (row ∷ rows)) (right_injective _ refl h)
        (exported id free (ih r' refl).0, (ih r' refl).1)

  pub export_each_lem :
      (db : Database) (skip : Bool) (ids : List ℕ) (rows : List ServerRow) (r : ServersRead)
      → export_each cipher order fails db skip ids rows ≡ inr r
      → AreOutcomes skip ids rows r
  unfolding export_each
  export_each_lem db skip ids [] r h =
      subst (AreOutcomes skip ids []) (right_injective _ refl h) (none_left, λ a b. refl)
  export_each_lem db skip ids (row ∷ rows) r h =
      collect_server_lem skip ids row rows _ _ r (IsOutcome-export_server db skip ids row)
        (export_each_lem db skip ids rows) h
