-- ===== src/ServerManager.antt =====
-- ServerMng/ServerManager.c: the actions of the server on its users and groups. A connection record
-- is its descriptor. An action returns what it passes to `ServerManager_SendOrLog` and the server
-- after it; `none` is a read of a dead object, or past the end of an array. Each action gets the
-- 256 bytes of `m_value`, of which those after the payload are whatever the stack held; the strings
-- of a request are read before the call that takes them.
pub mod Names
pub mod GroupActions
pub mod Counted
pub mod Leaving
pub mod Sessions
pub mod Membership
pub mod Endpoint
pub mod Joining
pub mod Creating
pub mod Accounts
pub mod Runs
pub mod Sending
pub mod Lists
pub mod Receiving
use c_chat_rooms_app.Base.{
  ℕ, suc, ◌+◌, ◌%◌, ◌^◌, Bool, true, false, not, Option, none, some, List, [], ◌∷◌, ◌++◌,
  if◌then◌else◌, ◌>>=◌, length, ltb, drop, ◌==◌, Bytes, c_str, codes, ℤ,
}
use c_chat_rooms_app.Keys.{Library}
use c_chat_rooms_app.User.{Memory}
use c_chat_rooms_app.UserManager.{UserManager, UserManagerResult}
use c_chat_rooms_app.UserManager
use c_chat_rooms_app.GroupManager.{GroupManager, GroupManagerResult}
use c_chat_rooms_app.GroupManager
use c_chat_rooms_app.Group.{GroupEndpoint}
use c_chat_rooms_app.Protocol.{Encoded, serialize, chat_max_value, chat_header_size}
use c_chat_rooms_app.Protocol.Opcode
use c_chat_rooms_app.Protocol.Status

-- The actions of the table `s_actions`.
pub data Action : Type 0 where
  register login logout exit create_group join_group leave_group list_users list_groups : Action

abbrev pub actions : List (ℕ × Action)
actions =
    (Opcode.register, Action.register)
    ∷ (Opcode.login, Action.login)
    ∷ (Opcode.logout, Action.logout)
    ∷ (Opcode.exit, Action.exit)
    ∷ (Opcode.create_group, Action.create_group)
    ∷ (Opcode.join_group, Action.join_group)
    ∷ (Opcode.leave_group, Action.leave_group)
    ∷ (Opcode.list_users, Action.list_users)
    ∷ (Opcode.list_groups, Action.list_groups)
    ∷ []

unfoldable pub find_in : ℕ → List (ℕ × Action) → Option Action
find_in opcode [] = none
find_in opcode ((o, a) ∷ rest) = if o == opcode then some a else find_in opcode rest

-- `FindAction`
unfoldable pub find_action : ℕ → Option Action
unfolding find_in
find_action opcode = find_in opcode actions

-- The arguments of `ServerManager_SendOrLog`: `text` is the string at `a_message`, `none` for NULL.
pub record Reply : Type 0 where
  pub status : ℕ
  pub text : Option Bytes
  pub size : ℕ

-- A status without a message, and a string with its NUL.
abbrev pub bare : ℕ → Reply
bare status = record { status = status; text = none; size = 0 }

abbrev pub with_text : ℕ → Bytes → Reply
with_text status s = record { status = status; text = some s; size = length s + 1 }

-- The two strings of a request: the user's name and the password that follows its NUL.
unfoldable pub credentials : Bytes → Option (Bytes × Bytes)
credentials value = do
  username ← c_str value
  password ← c_str (drop (length username + 1) value)
  some (username, password)

abbrev pub is_success_user : UserManagerResult → Bool
is_success_user UserManagerResult.success = true
is_success_user _ = false

abbrev pub is_success_group : GroupManagerResult → Bool
is_success_group GroupManagerResult.success = true
is_success_group _ = false

module _ (lib : Library) where
  pub record ServerManager : Type 0 where
    pub users : UserManager lib
    pub groups : GroupManager lib

  -- `ServerManager_Create`, up to the creation of the TCP server.
  unfoldable pub create : Option ServerManager
  create = do
    users ← UserManager.create lib
    groups ← GroupManager.create lib
    some (record { users = users; groups = groups })

  -- The reply and the server after an action.
  abbrev pub Run : Type 0
  Run = Option (Reply × ServerManager)

  -- `ServerManager_ActionRegister`
  unfoldable pub action_register : ServerManager → Memory → ℤ → Bytes → Run
  unfolding credentials
  action_register s mem fd value = do
    (username, password) ← credentials value
    (r, users) ← UserManager.add_user lib s.users mem fd username password
    some (
      (if is_success_user r
          then bare Status.ok
          else with_text Status.err_bad_creds (Names.user_result r)),
      record s { users = users },
    )

  -- What `ServerManager_ActionLogin` replies; an error's text is sent with the request's length.
  unfoldable pub login_reply : UserManagerResult → ℕ → Reply
  login_reply UserManagerResult.success size = with_text Status.ok (codes "Login successful")
  login_reply UserManagerResult.already_log size = bare Status.err_already_logged_in
  login_reply r size = record {
    status = Status.err_bad_creds;
    text = some (Names.user_result r);
    size = size;
  }

  -- `ServerManager_ActionLogin`
  unfoldable pub action_login : ServerManager → ℤ → Bytes → ℕ → Run
  unfolding credentials login_reply
  action_login s fd value size = do
    (username, password) ← credentials value
    (r, users) ← UserManager.login lib s.users fd username password
    some (login_reply r size, record s { users = users })

  -- The loop of `ServerManager_LeaveAllGroups`.
  unfoldable pub leave_each : GroupManager lib → List Bytes → Option (GroupManager lib)
  leave_each g [] = some g
  leave_each g (name ∷ names) = do
    (r, g₁) ← GroupManager.decrease_group_ref_count lib g name
    (r₂, g₂) ← GroupManager.remove_group_if_empty lib g₁ name
    leave_each g₂ names

  -- `ServerManager_LeaveAllGroups`: a name that was not written is a fault.
  unfoldable pub leave_all_groups : ServerManager → ℤ → Option ServerManager
  unfolding leave_each
  leave_all_groups s fd = do
    (r, count) ← UserManager.get_user_group_count lib s.users fd
    let leave = do
      (r₂, names) ← UserManager.get_user_groups lib s.users fd count
      groups ← leave_each s.groups names
      if length names == count then some (record s { groups = groups }) else none
    if count == 0 then some s else leave

  -- What logout and the end of a session share: the groups, then the session.
  unfoldable pub leave_and_logout : ServerManager → ℤ → Option (UserManagerResult × ServerManager)
  unfolding leave_all_groups
  leave_and_logout s fd = do
    s₁ ← leave_all_groups s fd
    (r, users) ← UserManager.logout lib s₁.users fd
    some (r, record s₁ { users = users })

  -- `ServerManager_ActionLogout`
  unfoldable pub action_logout : ServerManager → ℤ → Run
  unfolding leave_and_logout
  action_logout s fd = do
    logged ← UserManager.is_user_logged_in lib s.users none fd
    let out = do
      (r, s₁) ← leave_and_logout s fd
      some (
        (if is_success_user r
            then with_text Status.ok (codes "Logout successful")
            else with_text Status.err_bad_creds (Names.user_result r)),
        s₁,
      )
    if logged then out else some (bare Status.err_not_logged_in, s)

  -- `ServerManager_CleanupSession`
  unfoldable pub cleanup_session : ServerManager → ℤ → Option ServerManager
  unfolding leave_and_logout
  cleanup_session s fd = do
    logged ← UserManager.is_user_logged_in lib s.users none fd
    let out = do (r, s₁) ← leave_and_logout s fd; some s₁
    if logged then out else some s

  -- `ServerManagerCallbackDisconnect`
  unfoldable pub callback_disconnect : ServerManager → ℤ → Option ServerManager
  unfolding cleanup_session
  callback_disconnect s fd = cleanup_session s fd

  -- `ServerManager_ActionExit`
  unfoldable pub action_exit : ServerManager → ℤ → Run
  unfolding cleanup_session
  action_exit s fd = do s₁ ← cleanup_session s fd; some (with_text Status.ok (codes "Goodbye"), s₁)
