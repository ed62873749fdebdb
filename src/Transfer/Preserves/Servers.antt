-- ===== src/Transfer/Preserves/Servers.antt =====
-- What an import writes for a new server in the other tables preserves what every such write does.
use mosona_manager.Transfer.Preserves.{
  IsPreorder, Preserves, Preserves-pure, Preserves-lift, Preserves-bind, Preserves-exec,
}
use mosona_manager.Transfer.Page.{is_empty}
use mosona_manager.Encrypt.{Cipher}
use mosona_manager.Transfer.Bundle.{Alert, Ssh, Agent, EnrollToken, Server}
use mosona_manager.Transfer.Database.{
  AgentRow, Attached, Database, Statement, Failures, exec, attach, inserts_info, inserts_info_adv,
  inserts_ssh, inserts_agent, inserts_token, inserts_alert, invalid_import, Tx, ◌>>◌, pure,
}
use mosona_manager.Transfer.Checks.{Library}
use mosona_manager.Transfer.Import.{Renumbering}
use mosona_manager.Transfer.Import.Servers.{
  uid_taken, import_ssh, insert_agent, import_agent, import_token, import_server_connection,
  import_alerts, import_server_info, import_server_advanced_info,
}
use mosona_manager.Prelude.{
  Bool, Bool-cases, List, Option, [], inl, inr, none, not, some, ℕ, ◌&&◌, ◌==◌, ◌||◌, ◌∷◌,
}

module _ (R : Database → Database → Type 0) (laws : IsPreorder R) (Allowed : ℕ → Type 0)
    (attaches : (n : ℕ) (f : Attached → Attached) (db : Database)
      → Allowed n
      → R db (attach n f db))
    (team : ℕ) (lib : Library) (cipher : Cipher) (fails : Failures) (now : ℕ) (trust : Bool) where
  Preserves-attach :
      (st : Statement) (n : ℕ) (f : Attached → Attached)
      → Allowed n
      → Preserves R (exec fails st (attach n f))
  Preserves-attach st n f ne = Preserves-exec R fails st (attach n f) (λ db. attaches n f db ne)

  Preserves-insert_agent :
      (n : ℕ) (s : Server) (row : AgentRow)
      → Allowed n
      → Preserves R (insert_agent lib cipher fails now team trust n s row)
  Preserves-insert_agent n s row ne db b h =
      elim (Bool-cases
        (not (is_empty row.agent_uid) && uid_taken lib.same_uid row.agent_uid db.attached)) [
          | inl t ↦ absurd (cc (simp t at h))
          | inr t ↦ Preserves-attach (inserts_agent n) n _ ne db b (simp t at h)
        ]

  Preserves-import_ssh :
      (n : ℕ) (s : Server) (m : Renumbering) (ssh : Option Ssh)
      → Allowed n
      → Preserves R (import_ssh lib cipher fails now team trust n s m ssh)
  unfolding import_ssh
  Preserves-import_ssh n s m none ne = Preserves-lift R laws (inl (invalid_import s.name))
  Preserves-import_ssh n s m (some ssh) ne =
      elim (Bool-cases (is_empty ssh.host_key && not trust)) [
        | inl t ↦ simp t (Preserves-lift R laws (inl (invalid_import s.name)))
        | inr t ↦ simp t (
            Preserves-bind R laws _ _ (Preserves-lift R laws _) (λ p.
              Preserves-bind R laws _ _ (Preserves-lift R laws _)
                (λ k. Preserves-attach (inserts_ssh n) n _ ne)))
      ]

  Preserves-import_agent :
      (n : ℕ) (s : Server) (agent : Option Agent)
      → Allowed n
      → Preserves R (import_agent lib cipher fails now team trust n s agent)
  unfolding import_agent
  Preserves-import_agent n s none ne = Preserves-pure R laws tt
  Preserves-import_agent n s (some agent) ne =
      Preserves-bind R laws _ _ (Preserves-lift R laws _) (λ key. Preserves-insert_agent n s _ ne)

  Preserves-import_token :
      (n : ℕ) (token : Option EnrollToken)
      → Allowed n
      → Preserves R (import_token lib cipher fails now team trust n token)
  unfolding import_token
  Preserves-import_token n none ne = Preserves-pure R laws tt
  Preserves-import_token n (some t) ne = Preserves-attach (inserts_token n) n _ ne

  Preserves-import_server_connection :
      (n : ℕ) (s : Server) (m : Renumbering)
      → Allowed n
      → Preserves R (import_server_connection lib cipher fails now team trust n s m)
  unfolding import_server_connection
  Preserves-import_server_connection n s m ne = elim (Bool-cases (s.type_ == 0)) [
    | inl t ↦ simp t (Preserves-import_ssh n s m s.ssh ne)
    | inr t ↦ elim (Bool-cases (s.type_ == 1 || s.type_ == 2)) [
      | inl u ↦
          simp (t, u)
            (Preserves-bind R laws _ _ (Preserves-import_agent n s s.agent ne)
              (λ _. Preserves-import_token n s.enroll_token ne))
      | inr u ↦ simp (t, u) (Preserves-pure R laws tt)
    ]
  ]

  Preserves-import_alerts :
      (n : ℕ) (alerts : List Alert)
      → Allowed n
      → Preserves R (import_alerts lib cipher fails now team trust n alerts)
  unfolding import_alerts
  Preserves-import_alerts n [] ne = Preserves-pure R laws tt
  Preserves-import_alerts n (a ∷ rest) ne =
      Preserves-bind R laws _ _ (Preserves-attach (inserts_alert n) n _ ne)
        (λ _. Preserves-import_alerts n rest ne)

  -- all that follows the row of a server
  abbrev pub import_rest : ℕ → Server → Renumbering → Tx ℕ
  import_rest n s keys = do
    import_server_info lib cipher fails now team trust n s
    import_server_advanced_info lib cipher fails now team trust n s
    import_server_connection lib cipher fails now team trust n s keys
    import_alerts lib cipher fails now team trust n s.alerts
    pure n

  pub Preserves-import_rest :
      (n : ℕ) (s : Server) (keys : Renumbering) → Allowed n → Preserves R (import_rest n s keys)
  unfolding import_server_info import_server_advanced_info
  Preserves-import_rest n s keys ne =
      Preserves-bind R laws _ _ (Preserves-attach (inserts_info n) n _ ne) (λ _.
        Preserves-bind R laws _ _ (Preserves-attach (inserts_info_adv n) n _ ne) (λ _.
          Preserves-bind R laws _ _ (Preserves-import_server_connection n s keys ne) (λ _.
            Preserves-bind R laws _ _ (Preserves-import_alerts n s.alerts ne)
              (λ _. Preserves-pure R laws n))))
