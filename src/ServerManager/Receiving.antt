-- ===== src/ServerManager/Receiving.antt =====
-- ServerMng/ServerManager.c: `ServerManagerCallbackRecv`, from the bytes of a client to the reply.
use c_chat_rooms_app.Base.{
  ℕ, ◌≤◌, ◌<◌, ◌^◌, ◌==◌, ◌≡◌, refl, ◌⊎◌, inl, inr, Option, some, none, ◌>>=◌, Option-cases, length,
  if◌then◌else◌, Bytes, c_str, ℤ,
}
use c_chat_rooms_app.Keys.{Library}
use c_chat_rooms_app.User.{Memory}
use c_chat_rooms_app.User.Groups.{Pushes}
use c_chat_rooms_app.Protocol.{ChatMessage, deserialize, chat_max_value}
use c_chat_rooms_app.Protocol.Errors.{Outcome, accepted, refused, deserialize-Outcome}
use c_chat_rooms_app.Protocol.Status
use c_chat_rooms_app.ServerManager.{
  ServerManager, Action, Reply, Run, bare, find_action, credentials, action_register, action_login,
  action_logout, action_exit,
}
use c_chat_rooms_app.ServerManager.GroupActions.{
  action_create_group, action_join_group, action_leave_group,
}
use c_chat_rooms_app.ServerManager.Lists.{action_list_users, action_list_groups, lists-Reply}
use c_chat_rooms_app.ServerManager.Counted.{IsValid}
use c_chat_rooms_app.ServerManager.Accounts.{action_register-IsValid, action_login-IsValid}
use c_chat_rooms_app.ServerManager.Sessions.{action_logout-IsValid, action_exit-IsValid}
use c_chat_rooms_app.ServerManager.Joining.{action_join_group-Joining}
use c_chat_rooms_app.ServerManager.Creating.{action_create_group-Joining}
use c_chat_rooms_app.ServerManager.Membership.{action_leave_group-Leaving}

module _ (lib : Library) where
  open lib use {char_signed, lists}

  -- The function of an entry of `s_actions`, on a decoded message.
  unfoldable pub perform : ServerManager lib → Memory → ℤ → Action → ChatMessage → Run lib
  perform s mem fd Action.register m = action_register lib s mem fd m.value
  perform s mem fd Action.login m = action_login lib s fd m.value m.size
  perform s mem fd Action.logout m = action_logout lib s fd
  perform s mem fd Action.exit m = action_exit lib s fd
  perform s mem fd Action.create_group m = action_create_group lib s mem fd m.value
  perform s mem fd Action.join_group m = action_join_group lib s mem fd m.value
  perform s mem fd Action.leave_group m = action_leave_group lib s fd m.value
  perform s mem fd Action.list_users m = action_list_users lib s
  perform s mem fd Action.list_groups m = action_list_groups lib s

  -- What follows the search of the table.
  unfoldable pub act_on : ServerManager lib → Memory → ℤ → ChatMessage → Option Action → Run lib
  unfolding perform
  act_on s mem fd m none = some (bare Status.err_generic, s)
  act_on s mem fd m (some a) = perform s mem fd a m

  -- What follows the decoding: `code` is what the decoder returned.
  unfoldable pub dispatch : ServerManager lib → Memory → ℤ → ℕ → ChatMessage → Run lib
  unfolding act_on find_action
  dispatch s mem fd code m =
      let act = act_on s mem fd m (find_action m.opcode) in
      if code == Status.ok then act else some (bare Status.err_malformed, s)

  -- `ServerManagerCallbackRecv` on the first `n` bytes of `buf`; `stack` is what the message on the
  -- stack holds before it is decoded.
  unfoldable pub callback_recv : ServerManager lib → Memory → ChatMessage → ℤ → Bytes → ℕ → Run lib
  unfolding dispatch
  callback_recv s mem stack fd buf n = do
    (code, m) ← deserialize char_signed (some buf) n stack
    dispatch s mem fd code m

  -- A request whose strings run past the array of 256 bytes.
  abbrev pub RunsOver : Action → Bytes → Type 0
  RunsOver Action.register value = credentials value ≡ none
  RunsOver Action.login value = credentials value ≡ none
  RunsOver Action.create_group value = c_str value ≡ none
  RunsOver Action.join_group value = c_str value ≡ none
  RunsOver Action.leave_group value = c_str value ≡ none
  RunsOver _ value = ⊥

  -- What becomes of a received message.
  pub data Received (s : ServerManager lib) (mem : Memory) (fd : ℤ) (code : ℕ) (m : ChatMessage)
      : Run lib → Type 0 where
    malformed :
        code ≡ Status.err_malformed → Received s mem fd code m (some (bare Status.err_malformed, s))
    unhandled :
        code ≡ Status.ok
        → find_action m.opcode ≡ none
        → Received s mem fd code m (some (bare Status.err_generic, s))
    acted :
        (a : Action) (reply : Reply) (s' : ServerManager lib)
        → code ≡ Status.ok
        → find_action m.opcode ≡ some a
        → perform s mem fd a m ≡ some (reply, s')
        → IsValid lib s'
        → Received s mem fd code m (some (reply, s'))
    runs_over :
        (a : Action)
        → code ≡ Status.ok
        → find_action m.opcode ≡ some a
        → RunsOver a m.value
        → Received s mem fd code m none

  module _ (pushes : Pushes lists) where
    -- The action of a valid server either returns, and the server stays valid, or overruns.
    perform-IsValid :
        (s : ServerManager lib) (mem : Memory) (fd : ℤ) (a : Action) (m : ChatMessage)
        → s.users.users.next < 2 ^ 64
        → IsValid lib s
        → ((perform s mem fd a m ≡ none) × RunsOver a m.value)
          ⊎ ((reply : Reply) × (s' : ServerManager lib) × (perform s mem fd a m ≡ some (reply, s'))
              × IsValid lib s')
    unfolding perform action_register action_login action_create_group action_join_group
        action_leave_group
    perform-IsValid s mem fd Action.register m few v = elim (Option-cases (credentials m.value)) [
      | inl out ↦ inl (rw (out, ◌>>=◌) refl, out)
      | inr ((name, password), there) ↦
          let (r, reply, t, run, _, _, w) =
            action_register-IsValid lib s mem fd m.value name password v there in
          inr (reply, t, run, w)
    ]
    perform-IsValid s mem fd Action.login m few v = elim (Option-cases (credentials m.value)) [
      | inl out ↦ inl (rw (out, ◌>>=◌) refl, out)
      | inr ((name, password), there) ↦
          let (r, reply, t, run, _, _, _, w) =
            action_login-IsValid lib s fd m.value name password m.size v there in
          inr (_, t, run, w)
    ]
    perform-IsValid s mem fd Action.logout m few v = elim (action_logout-IsValid lib s fd v) [
      | inl (out, run) ↦ inr (_, s, run, v)
      | inr (t, on, run, out, w) ↦ inr (_, t, run, w)
    ]
    perform-IsValid s mem fd Action.exit m few v =
        let (t, run, out, w) = action_exit-IsValid lib s fd v in inr (_, t, run, w)
    perform-IsValid s mem fd Action.create_group m few v = elim (Option-cases (c_str m.value)) [
      | inl out ↦ inl (rw (out, ◌>>=◌) refl, out)
      | inr (name, there) ↦
          let (reply, t, run, l, w) =
            action_create_group-Joining lib pushes s mem fd m.value name few v there in
          inr (reply, t, run, w)
    ]
    perform-IsValid s mem fd Action.join_group m few v = elim (Option-cases (c_str m.value)) [
      | inl out ↦ inl (rw (out, ◌>>=◌) refl, out)
      | inr (name, there) ↦
          let (reply, t, run, l, w) =
            action_join_group-Joining lib pushes s mem fd m.value name few v there in
          inr (reply, t, run, w)
    ]
    perform-IsValid s mem fd Action.leave_group m few v = elim (Option-cases (c_str m.value)) [
      | inl out ↦ inl (rw (out, ◌>>=◌) refl, out)
      | inr (name, there) ↦
          let (reply, t, run, l, w) = action_leave_group-Leaving lib s fd m.value name v there in
          inr (reply, t, run, w)
    ]
    perform-IsValid s mem fd Action.list_users m few v =
        let (users, groups, run, _, _, _, _, _) = lists-Reply lib s v in inr (users, s, run, v)
    perform-IsValid s mem fd Action.list_groups m few v =
        let (users, groups, _, run, _, _, _, _) = lists-Reply lib s v in inr (groups, s, run, v)

    dispatch-Received :
        (s : ServerManager lib) (mem : Memory) (fd : ℤ) (n : ℕ) (stack : ChatMessage) (code : ℕ)
        (m : ChatMessage)
        → s.users.users.next < 2 ^ 64
        → IsValid lib s
        → Outcome n stack code m
        → Received s mem fd code m (dispatch s mem fd code m)
    unfolding dispatch act_on
    dispatch-Received s mem fd n stack _ _ few v refused = malformed refl
    dispatch-Received s mem fd n stack _ m few v (accepted small fits whole) =
        elim (Option-cases (find_action m.opcode)) [
          | inl none_such ↦ rw none_such (unhandled refl none_such)
          | inr (a, there) ↦ elim (perform-IsValid s mem fd a m few v) [
            | inl (over, why) ↦ rw (there, over) (runs_over a refl there why)
            | inr (reply, t, run, w) ↦ rw (there, run) (acted a reply t refl there run w)
          ]
        ]

    pub callback_recv-Received :
        (s : ServerManager lib) (mem : Memory) (stack : ChatMessage) (fd : ℤ) (buf : Bytes) (n : ℕ)
        → s.users.users.next < 2 ^ 64
        → n ≤ length buf
        → length stack.value ≡ chat_max_value
        → IsValid lib s
        → (code : ℕ) × (m : ChatMessage) × (deserialize char_signed (some buf) n stack
            ≡ some (code, m))
          × Received s mem fd code m (callback_recv s mem stack fd buf n)
    unfolding callback_recv
    callback_recv-Received s mem stack fd buf n few given full v =
        let (code, m, decoded, o) = deserialize-Outcome char_signed buf n stack given full in
        (code, m, decoded, rw (decoded, ◌>>=◌) (dispatch-Received s mem fd n stack code m few v o))
