-- ===== src/ServerManager/GroupActions.antt =====
-- ServerMng/ServerManager.c: the actions on groups, and the reply that carries a group's endpoint.
use c_chat_rooms_app.Base.{
  Bool, Option, none, some, ◌++◌, if◌then◌else◌, ◌>>=◌, length, ltb, Bytes, c_str, codes, ℤ,
}
use c_chat_rooms_app.Keys.{Library}
use c_chat_rooms_app.User.{Memory}
use c_chat_rooms_app.UserManager.{UserManagerResult}
use c_chat_rooms_app.UserManager
use c_chat_rooms_app.GroupManager.{GroupManagerResult}
use c_chat_rooms_app.GroupManager
use c_chat_rooms_app.Group.{GroupEndpoint}
use c_chat_rooms_app.Protocol.Status
use c_chat_rooms_app.ServerManager.Names
use c_chat_rooms_app.ServerManager.{
  ServerManager, Reply, Run, bare, with_text, is_success_user, is_success_group,
}

module _ (lib : Library) where
  -- The endpoint as `ip:port`; `none` if it does not fit into the buffer of 22 bytes.
  unfoldable pub endpoint_text : GroupEndpoint → Option Bytes
  endpoint_text e =
      let text = lib.inet_ntop e.multicast_addr ++ codes ":" ++ lib.print_unsigned e.port in
      if ltb (length text) 22 then some text else none

  unfoldable pub endpoint_reply : GroupManagerResult → Option GroupEndpoint → Reply
  unfolding endpoint_text
  endpoint_reply r none = with_text Status.err_generic (Names.group_result r)
  endpoint_reply r (some e) = elim (endpoint_text e) [
    | none ↦ with_text Status.err_generic (codes "Failed to format group endpoint")
    | some text ↦ with_text Status.ok text
  ]

  -- `ServerManager_SendGroupEndpoint`
  unfoldable pub send_group_endpoint : ServerManager lib → Bytes → Option Reply
  unfolding endpoint_reply
  send_group_endpoint s name = do
    (r, e) ← GroupManager.get_group_endpoint lib s.groups name
    some (endpoint_reply r e)

  -- `ServerManager_ActionCreateGroup`, after the group has been made.
  unfoldable pub enter_new_group : ServerManager lib → Memory → ℤ → Bytes → Run lib
  unfolding send_group_endpoint
  enter_new_group s mem fd name = do
    (r, users) ← UserManager.add_user_to_group lib s.users mem fd name
    let enter = do
      (r₁, groups) ← GroupManager.increase_group_ref_count lib s.groups name
      reply ← send_group_endpoint (record { users = users; groups = groups }) name
      some (reply, record { users = users; groups = groups })
    let give_up = do
      (r₁, groups₁) ← GroupManager.remove_group_if_empty lib s.groups name
      (r₂, groups₂) ← GroupManager.remove_group_if_empty lib groups₁ name
      some (
        with_text Status.err_generic (Names.user_result r),
        record { users = users; groups = groups₂ },
      )
    if is_success_user r then enter else give_up

  -- `ServerManager_ActionCreateGroup`; an error's text is sent without its NUL.
  unfoldable pub action_create_group : ServerManager lib → Memory → ℤ → Bytes → Run lib
  unfolding enter_new_group
  action_create_group s mem fd value = do
    name ← c_str value
    let (r, groups) = GroupManager.add_group lib s.groups mem name
    let enter = enter_new_group (record s { groups = groups }) mem fd name
    let refuse = some (
      record {
        status = Status.err_generic;
        text = some (Names.group_result r);
        size = length (Names.group_result r);
      },
      record s { groups = groups },
    )
    if is_success_group r then enter else refuse

  -- `ServerManager_ActionJoinGroup`, after the tests.
  unfoldable pub enter_group : ServerManager lib → Memory → ℤ → Bytes → Run lib
  unfolding send_group_endpoint
  enter_group s mem fd name = do
    (r, users) ← UserManager.add_user_to_group lib s.users mem fd name
    let enter = do
      (r₁, groups) ← GroupManager.increase_group_ref_count lib s.groups name
      reply ← send_group_endpoint (record { users = users; groups = groups }) name
      some (
        (if is_success_group r₁
            then reply
            else with_text Status.err_generic (Names.group_result r₁)),
        record { users = users; groups = groups },
      )
    let refuse =
        some (with_text Status.err_generic (Names.user_result r), record s { users = users })
    if is_success_user r then enter else refuse

  -- `ServerManager_ActionJoinGroup`
  unfoldable pub action_join_group : ServerManager lib → Memory → ℤ → Bytes → Run lib
  unfolding enter_group
  action_join_group s mem fd value = do
    name ← c_str value
    logged ← UserManager.is_user_logged_in lib s.users none fd
    let enter = enter_group s mem fd name
    elim (GroupManager.get_group lib s.groups name) [
      | none ↦
          some (with_text Status.err_generic (Names.group_result GroupManagerResult.not_found), s)
      | some p ↦ if logged then enter else some (bare Status.err_not_logged_in, s)
    ]

  -- `ServerManager_ActionLeaveGroup`, after the tests.
  unfoldable pub exit_group : ServerManager lib → ℤ → Bytes → Run lib
  exit_group s fd name = do
    (r, users) ← UserManager.remove_user_from_group lib s.users fd name
    let leave = do
      (r₁, groups₁) ← GroupManager.decrease_group_ref_count lib s.groups name
      (r₂, groups₂) ← GroupManager.remove_group_if_empty lib groups₁ name
      some (
          if is_success_group r₁
          then (bare Status.ok, record { users = users; groups = groups₂ })
          else (
            with_text Status.err_generic (Names.group_result r₁),
            record { users = users; groups = groups₁ },
          ))
    let refuse =
        some (with_text Status.err_generic (Names.user_result r), record s { users = users })
    if is_success_user r then leave else refuse

  -- What the answer of `UserManager_IsUserInGroup` makes of the request to leave.
  unfoldable pub leave_if_in :
      ServerManager lib → ℤ → Bytes → UserManagerResult → Option Bool → Run lib
  unfolding exit_group
  leave_if_in s fd name r is_in =
      let leave = exit_group s fd name in
      elim is_in [
        | none ↦ some (with_text Status.err_generic (Names.user_result r), s)
        | some b ↦ if b then leave else some (bare Status.err_not_in_group, s)
      ]

  -- `ServerManager_ActionLeaveGroup`
  unfoldable pub action_leave_group : ServerManager lib → ℤ → Bytes → Run lib
  unfolding leave_if_in
  action_leave_group s fd value = do
    name ← c_str value
    logged ← UserManager.is_user_logged_in lib s.users none fd
    (r, is_in) ← UserManager.is_user_in_group lib s.users fd name
    let leave = leave_if_in s fd name r is_in
    elim (GroupManager.get_group lib s.groups name) [
      | none ↦
          some (with_text Status.err_generic (Names.group_result GroupManagerResult.not_found), s)
      | some p ↦ if logged then leave else some (bare Status.err_not_logged_in, s)
    ]
