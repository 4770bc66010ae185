-- ===== src/Client/App/Handlers.antt =====
-- Client/ClientApp.c: the handlers of the choices.
use c_chat_rooms_app.Base.{
  ℕ, Bool, Option, none, some, List, [], ◌∷◌, ◌++◌, ◌==◌, if◌then◌else◌, ◌>>=◌, Bytes, c_str, ℤ,
}
use c_chat_rooms_app.Protocol.{ChatMessage}
use c_chat_rooms_app.Protocol.Opcode
use c_chat_rooms_app.Protocol.Status
use c_chat_rooms_app.Client.Menu.{SessionState}
use c_chat_rooms_app.Client.Controller.{ClientController, ClientResult, Received, arrived}
use c_chat_rooms_app.Client.Controller
use c_chat_rooms_app.Client.Requests.{
  empty_request, memcpy_at, credentials_request, group_request, parse_endpoint,
}
use c_chat_rooms_app.Client.App.{Windows, Network, Exchange, lost, got, ClientApp, exchange_message}

module _ (char_signed : Bool) (wins : Windows) where
  abbrev App : Type 0
  App = ClientApp char_signed wins

  -- What every handler makes of a failed exchange.
  unfoldable pub lose : Bool → App → App
  lose closed app = if closed then record app { state = SessionState.disconnected } else app

  -- `HandleConnect`
  unfoldable pub handle_connect : Network → App → App
  handle_connect net app =
      let (r, c) = Controller.start net.socket net.connects app.controller in
      if Controller.is_success r
      then record app { controller = c; state = SessionState.connected }
      else record app { controller = c }

  -- `strdup`
  abbrev pub strdup : Bool → Bytes → Option Bytes
  strdup memory s = if memory then some s else none

  -- `HandleCredentialedAction`, after the exchange.
  unfoldable pub take_session : Network → Bytes → Bytes → SessionState → App → Exchange → App
  unfolding lose
  take_session net name password on_ok app (lost closed) = lose closed app
  take_session net name password on_ok app (got m) =
      if m.status == Status.ok
      then record app {
        username = strdup net.name_memory name;
        password = strdup net.password_memory password;
        state = on_ok;
      }
      else app

  -- `HandleCredentialedAction`, after the dialogue.
  unfoldable pub send_credentials :
      Network → ℕ → SessionState → App → Option (Bytes × Bytes) → Option App
  unfolding exchange_message take_session credentials_request
  send_credentials net opcode on_ok app none = some app
  send_credentials net opcode on_ok app (some (name, password)) = do
    request ← credentials_request opcode name password
    elim request [
      | none ↦ some app
      | some req ↦ do
        answer ← exchange_message char_signed wins net app.controller req
        some (take_session net name password on_ok app answer)
    ]

  -- `HandleGroupAction`, after a response with CHAT_OK; a text without a NUL in its array is a fault.
  unfoldable pub change_windows : ℕ → Bytes → ChatMessage → App → Option App
  unfolding parse_endpoint
  change_windows opcode name m app =
      let open_them = (do
        text ← c_str m.value
        some (elim (parse_endpoint 22 text) [
          | none ↦ app
          | some (ip, port) ↦ record app {
            windows = (wins.open_window app.windows name ip port app.username).1;
          }
        ])) in
      if opcode == Opcode.create_group
      then open_them
      else if opcode == Opcode.join_group
      then open_them
      else if opcode == Opcode.leave_group
      then some (record app { windows = wins.close_window app.windows name })
      else some app

  -- `HandleGroupAction`, after the exchange.
  unfoldable pub take_group : ℕ → Bytes → App → Exchange → Option App
  unfolding change_windows lose
  take_group opcode name app (lost closed) = some (lose closed app)
  take_group opcode name app (got m) =
      let change = change_windows opcode name m app in
      if m.status == Status.ok then change else some app

  -- `HandleGroupAction`, after the dialogue.
  unfoldable pub send_group : Network → ℕ → App → Option Bytes → Option App
  unfolding exchange_message take_group group_request
  send_group net opcode app none = some app
  send_group net opcode app (some name) = do
    request ← group_request opcode name
    elim request [
      | none ↦ some app
      | some req ↦ do
        answer ← exchange_message char_signed wins net app.controller req
        take_group opcode name app answer
    ]

  -- `HandleLogout`, after the exchange.
  unfoldable pub leave_session : App → Exchange → App
  unfolding lose
  leave_session app (lost closed) = lose closed app
  leave_session app (got m) =
      if m.status == Status.ok
      then record app { windows = wins.close_all app.windows; state = SessionState.connected }
      else app

  -- `HandleLogout`: `strlen` of a NULL name is a fault.
  unfoldable pub handle_logout : Network → App → Option App
  unfolding exchange_message leave_session memcpy_at
  handle_logout net app = do
    username ← app.username
    value ← memcpy_at (empty_request Opcode.logout).value 0 (username ++ 0 ∷ [])
    answer ←
        exchange_message char_signed wins net app.controller
          (record (empty_request Opcode.logout) { value = value })
    some (leave_session app answer)

  -- `HandleListAction`
  unfoldable pub handle_list_action : Network → ℕ → App → Option App
  unfolding exchange_message lose
  handle_list_action net opcode app = do
    answer ← exchange_message char_signed wins net app.controller (empty_request opcode)
    some (elim answer [ lost closed ↦ lose closed app | got m ↦ app ])

  -- `HandleExit`; whether the message is sent makes no difference.
  unfoldable pub handle_exit : App → App
  handle_exit app = elim app.state [
    | SessionState.disconnected ↦ app
    | _ ↦ record app {
      windows = wins.close_all app.windows;
      controller = (Controller.stop app.controller).1;
      state = SessionState.disconnected;
    }
  ]

  -- `ClientApp_Destroy`: the descriptors that it closes, besides those of the windows.
  unfoldable pub destroy : App → List ℤ
  destroy app = elim app.state [
    | SessionState.disconnected ↦ []
    | _ ↦ (Controller.stop app.controller).2
  ]
