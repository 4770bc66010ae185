-- ===== src/Tests/Server.antt =====
-- The actions on the server of the run.
use c_chat_rooms_app.Base.{◌≡◌, refl, ◌⊎◌, ◌↔◌, true, false, some, none, pos, codes}
use c_chat_rooms_app.Tests.Example.{
  library, pushes, plenty, ann, secret, chess, credentials_value, group_value,
}
use c_chat_rooms_app.Tests.Run.{grouped, run, valid, few, credentials_value-ann, group_value-chess}
use c_chat_rooms_app.UserManager.{UserManagerResult, is_user_logged_in}
use c_chat_rooms_app.UserManager.Registration.{Register}
use c_chat_rooms_app.UserManager.Sessions.{Login}
use c_chat_rooms_app.ServerManager.{
  ServerManager, Reply, bare, with_text, is_success_user, login_reply, action_register,
  action_login, action_logout, action_exit, callback_disconnect,
}
use c_chat_rooms_app.ServerManager.GroupActions.{action_create_group, action_leave_group}
use c_chat_rooms_app.ServerManager.Sending.{send_message, response_frame, Sent, send_message-Sent}
use c_chat_rooms_app.ServerManager.Names
use c_chat_rooms_app.Protocol.{serialize}
use c_chat_rooms_app.ServerManager.Counted.{IsValid}
use c_chat_rooms_app.ServerManager.Runs.{Reachable-IsValid}
use c_chat_rooms_app.ServerManager.Sessions.{
  callback_disconnect-IsValid, action_logout-IsValid, action_exit-IsValid,
}
use c_chat_rooms_app.ServerManager.Membership.{Leaving, action_leave_group-Leaving}
use c_chat_rooms_app.ServerManager.Joining.{Joining}
use c_chat_rooms_app.ServerManager.Creating.{action_create_group-Joining}
use c_chat_rooms_app.ServerManager.Accounts.{
  LoginReply, action_register-IsValid, action_login-IsValid,
}
use c_chat_rooms_app.Protocol.Status

abbrev server : ServerManager library
server = grouped.0

Reachable-IsValid_example : IsValid library server
Reachable-IsValid_example = Reachable-IsValid library pushes server run

callback_disconnect-IsValid_example :
    (s' : ServerManager library) × (callback_disconnect library server (pos 4) ≡ some s')
    × (is_user_logged_in library s'.users none (pos 4) ≡ some false)
    × IsValid library s'
callback_disconnect-IsValid_example = callback_disconnect-IsValid library server (pos 4) valid

action_logout-IsValid_example :
    ((is_user_logged_in library server.users none (pos 4) ≡ some false)
      × (action_logout library server (pos 4) ≡ some (bare Status.err_not_logged_in, server)))
    ⊎ ((s' : ServerManager library) × (is_user_logged_in library server.users none (pos 4)
          ≡ some true)
        × (action_logout library server (pos 4)
            ≡ some (with_text Status.ok (codes "Logout successful"), s'))
        × (is_user_logged_in library s'.users none (pos 4) ≡ some false)
        × IsValid library s')
action_logout-IsValid_example = action_logout-IsValid library server (pos 4) valid

action_exit-IsValid_example :
    (s' : ServerManager library) × (action_exit library server (pos 4)
      ≡ some (with_text Status.ok (codes "Goodbye"), s'))
    × (is_user_logged_in library s'.users none (pos 4) ≡ some false)
    × IsValid library s'
action_exit-IsValid_example = action_exit-IsValid library server (pos 4) valid

action_create_group-Joining_example :
    (reply : Reply) × (s' : ServerManager library) × (action_create_group library server plenty
        (pos 4)
        group_value
      ≡ some (reply, s'))
    × Joining library pushes server s' chess reply
    × IsValid library s'
action_create_group-Joining_example =
    action_create_group-Joining library pushes server plenty (pos 4) group_value chess few valid
      group_value-chess

action_leave_group-Leaving_example :
    (reply : Reply) × (s' : ServerManager library) × (action_leave_group library server
        (pos 4)
        group_value
      ≡ some (reply, s'))
    × Leaving library server (pos 4) chess reply s'
    × IsValid library s'
action_leave_group-Leaving_example =
    action_leave_group-Leaving library server (pos 4) group_value chess valid group_value-chess

action_register-IsValid_example :
    (r : UserManagerResult) × (reply : Reply) × (s' : ServerManager library) × (action_register
        library server plenty
        (pos 5)
        credentials_value
      ≡ some (reply, s'))
    × Register library server.users plenty (pos 5) ann secret r s'.users
    × ((reply.status ≡ Status.ok) ↔ (is_success_user r ≡ true))
    × IsValid library s'
action_register-IsValid_example =
    action_register-IsValid library server plenty (pos 5) credentials_value ann secret valid
      credentials_value-ann

action_login-IsValid_example :
    (r : UserManagerResult) × (reply : Reply) × (s' : ServerManager library) × (action_login library
        server
        (pos 5)
        credentials_value
        11
      ≡ some (reply, s'))
    × LoginReply library 11 r reply
    × Login library server.users (pos 5) ann secret r s'.users
    × (s'.groups ≡ server.groups)
    × IsValid library s'
action_login-IsValid_example =
    action_login-IsValid library server (pos 5) credentials_value ann secret 11 valid
      credentials_value-ann

-- The reply to a login with an unknown name, in a request of 40 bytes.
abbrev long_error : Reply
long_error = login_reply library UserManagerResult.not_found 40

send_message-Sent_example : Sent true long_error (send_message true long_error)
send_message-Sent_example = send_message-Sent true long_error

-- It reads past the text of the error.
long_error-over_read : send_message true long_error ≡ none
unfolding login_reply send_message response_frame serialize Names.user_result
long_error-over_read = refl
