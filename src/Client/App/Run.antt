-- ===== src/Client/App/Run.antt =====
-- Client/ClientApp.c: `ClientApp_Run`.
use c_chat_rooms_app.Base.{ℕ, zero, suc, Bool, Option, none, some, Bytes}
use c_chat_rooms_app.Protocol.Opcode
use c_chat_rooms_app.Client.Menu.{
  SessionState, MenuChoice, menu_none, menu_connect, menu_register, menu_login, menu_logout,
  menu_create_group, menu_join_group, menu_leave_group, menu_display_users, menu_display_groups,
  menu_exit, parse, read_line,
}
use c_chat_rooms_app.Client.App.{
  Windows, Network, ClientApp, menu_line_max, read_credentials, read_group_name,
}
use c_chat_rooms_app.Client.App.Handlers.{
  handle_connect, send_credentials, send_group, handle_logout, handle_list_action, handle_exit,
}

module _ (char_signed : Bool) (wins : Windows) where
  -- What a round of the menu leads to.
  pub data Next : Type 0 where
    ended : ClientApp char_signed wins → Next
    goes_on : ClientApp char_signed wins → Bytes → Next
    faulted : Next

  -- The application and the input after a choice, if nothing is read outside an array.
  unfoldable pub after : Option (ClientApp char_signed wins) → Bytes → Next
  after none rest = faulted
  after (some app) rest = goes_on app rest

  -- The `switch` of `ClientApp_Run`.
  unfoldable pub perform : Network → ClientApp char_signed wins → Bytes → MenuChoice → Next
  unfolding after read_credentials read_group_name handle_connect send_credentials send_group
      handle_logout handle_list_action handle_exit
  perform net app input menu_connect = goes_on (handle_connect char_signed wins net app) input
  perform net app input menu_register =
      let (given, rest) = read_credentials input in
      after (send_credentials char_signed wins net Opcode.register SessionState.logged_in app given)
        rest
  perform net app input menu_login =
      let (given, rest) = read_credentials input in
      after (send_credentials char_signed wins net Opcode.login SessionState.logged_in app given)
        rest
  perform net app input menu_logout = after (handle_logout char_signed wins net app) input
  perform net app input menu_create_group =
      let (name, rest) = read_group_name input in
      after (send_group char_signed wins net Opcode.create_group app name) rest
  perform net app input menu_join_group =
      let (name, rest) = read_group_name input in
      after (send_group char_signed wins net Opcode.join_group app name) rest
  perform net app input menu_leave_group =
      let (name, rest) = read_group_name input in
      after (send_group char_signed wins net Opcode.leave_group app name) rest
  perform net app input menu_display_users =
      after (handle_list_action char_signed wins net Opcode.list_users app) input
  perform net app input menu_display_groups =
      after (handle_list_action char_signed wins net Opcode.list_groups app) input
  perform net app input menu_exit = ended (handle_exit char_signed wins app)
  perform net app input menu_none = goes_on app input

  -- The body of the loop of `ClientApp_Run`, given the line that is read.
  unfoldable pub step : Network → ClientApp char_signed wins → Option (Bytes × Bytes) → Next
  unfolding perform parse handle_exit
  step net app none = ended (handle_exit char_signed wins app)
  step net app (some (line, rest)) = perform net app rest (parse line app.state)

  -- How a run ends; `no_fuel` is a run that has more rounds.
  pub data Outcome : Type 0 where
    finished : ClientApp char_signed wins → Outcome
    stuck no_fuel : Outcome

  -- `ClientApp_Run`, for a number of rounds; `nets` is what the system answers in each.
  unfoldable pub run : ℕ → (ℕ → Network) → ClientApp char_signed wins → Bytes → Outcome
  unfolding step read_line
  run zero nets app input = no_fuel
  run (suc fuel) nets app input = elim (step (nets 0) app (read_line menu_line_max input)) [
    | ended app' ↦ finished app'
    | goes_on app' rest ↦ run fuel (λ i. nets (suc i)) app' rest
    | faulted ↦ stuck
  ]
