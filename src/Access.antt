-- ===== src/Access.antt =====
-- Who may do what in a team: internal/access/team.go and internal/app/middleware/role.go. In
-- team.go an id is 0 where the code's int64 is not positive. A role is 0 for writing, 1 for terminals, and any
-- other for reading.
pub mod Laws
mod Tests
use mosona_manager.Prelude.{
  Bool, List, Option, [], false, if◌then◌else◌, none, not, pos, same_int, some, true, ℕ, ℤ, ◌&&◌,
  ◌==◌, ◌||◌, ◌∷◌,
}

-- what the database and the session store answer
pub data Lookup : Type 0 where
  found : ℕ → Lookup
  no_rows failed : Lookup

pub data Access : Type 0 where
  granted revoked session_error membership_error : Access

unfoldable pub is_allowed : ℕ → List ℕ → Bool
is_allowed role [] = false
is_allowed role (allowed ∷ rest) = if role == allowed then true else is_allowed role rest

unfoldable pub check_role : Lookup → List ℕ → Access
check_role no_rows allowed = revoked
check_role failed allowed = membership_error
check_role (found role) allowed = if is_allowed role allowed then granted else revoked

unfoldable pub check_session : Option Bool → Lookup → List ℕ → Access
unfolding check_role
check_session none role allowed = session_error
check_session (some false) role allowed = revoked
check_session (some true) role allowed = check_role role allowed

-- `ValidateTeamSession`; a session's existence is `none` where Redis fails
unfoldable pub validate_team_session : ℕ → ℕ → Bool → Option Bool → Lookup → List ℕ → Access
unfolding check_session
validate_team_session user_id team_id has_session_id session role allowed =
    if user_id == 0 || team_id == 0 || not has_session_id
    then revoked
    else check_session session role allowed

-- one wake-up of `WatchTeamSession`: its context is done, or the ticker fires and the session and
-- the role are looked up again
pub data Wake : Type 0 where
  done : Wake
  tick : Option Bool → Lookup → Wake

abbrev pub stop_unless_granted : Access → Option Access → Option Access
stop_unless_granted granted rest = rest
stop_unless_granted a rest = some a

-- the watcher's loop: the error that it reports, if it reports one
unfoldable pub watch_from : ℕ → ℕ → Bool → List ℕ → List Wake → Option Access
watch_from u t sid allowed [] = none
watch_from u t sid allowed (done ∷ wakes) = none
watch_from u t sid allowed (tick session role ∷ wakes) =
    stop_unless_granted (validate_team_session u t sid session role allowed)
      (watch_from u t sid allowed wakes)

-- `WatchTeamSession`, which checks once before it waits
unfoldable pub watch_team_session :
    ℕ → ℕ → Bool → List ℕ → Option Bool → Lookup → List Wake → Option Access
unfolding watch_from
watch_team_session u t sid allowed session role wakes =
    watch_from u t sid allowed (tick session role ∷ wakes)

-- What a request comes to: the status of the refusal, or the role with which the handler runs;
-- and the session's team afterwards.
pub data Response : Type 0 where
  refused : ℕ → Response
  handled : ℕ → Response

pub record Context : Type 0 where
  pub uid : ℤ
  pub tid : ℤ

unfoldable pub with_role : Lookup → Bool → Context → Response × Context
with_role no_rows clears c =
    if clears then (refused 403, record c { tid = pos 0 }) else (refused 500, c)
with_role failed clears c = (refused 500, c)
with_role (found role) clears c = (handled role, c)

-- `TeamAccess`; `clears` says whether `clearRevokedTeamContext` meets no error
unfoldable pub team_access : Lookup → Bool → Context → Response × Context
unfolding with_role
team_access role clears c =
    if same_int c.tid (pos 0) then (refused 409, c) else with_role role clears c

-- `WriteAuth` and `TerminalAuth`, behind `TeamAccess`
unfoldable pub write_auth : Response → Response
write_auth (refused n) = refused n
write_auth (handled role) = if not (role == 0) then refused 403 else handled role

unfoldable pub terminal_auth : Response → Response
terminal_auth (refused n) = refused n
terminal_auth (handled role) =
    if not (role == 0) && not (role == 1) then refused 403 else handled role
