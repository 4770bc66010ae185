-- ===== src/Client/App.antt =====
-- Client/ClientApp.c: the state and the exchange of messages. What the network answers in a round is an
-- argument; the input is the bytes that are left on stdin; what is printed is left out.
pub mod Handlers
pub mod Run
pub mod Exchanges
pub mod Sessions
pub mod Ending
use c_chat_rooms_app.Base.{
  ℕ, zero, suc, ◌+◌, ◌-◌, ◌%◌, ◌^◌, Bool, true, false, not, ◌&&◌, Option, none, some, List, [], ◌∷◌,
  ◌++◌, ◌==◌, ltb, leb, if◌then◌else◌, ◌>>=◌, length, drop, Bytes, c_str, ℤ,
}
use c_chat_rooms_app.Protocol.{
  ChatMessage, Encoded, serialize, deserialize, chat_max_value, chat_max_total,
}
use c_chat_rooms_app.Protocol.Opcode
use c_chat_rooms_app.Protocol.Status
use c_chat_rooms_app.Client.Menu.{SessionState, MenuChoice, parse, read_line}
use c_chat_rooms_app.Client.Controller.{ClientController, ClientResult, Received, arrived}
use c_chat_rooms_app.Client.Controller
use c_chat_rooms_app.Client.Requests.{
  empty_request, memcpy_at, credentials_request, group_request, parse_endpoint,
}

-- Client/GroupWindows.h: the windows of the groups that the user is in.
pub record Windows : Type 1 where
  pub Rep : Type 0
  -- GroupWindows_Create: NULL on failure.
  pub create : Option Rep
  pub open_window : Rep → Bytes → Bytes → ℕ → Option Bytes → Bool × Rep
  pub close_window : Rep → Bytes → Rep
  pub close_all : Rep → Rep

-- CONF_RECV_BUF_SIZE
abbrev pub recv_buf_size : ℕ
recv_buf_size = 4096

abbrev pub menu_line_max : ℕ
menu_line_max = 64

-- What the system answers in one round of the menu: the socket and its connection, `send`, `recv`,
-- what the buffer and the message on the stack held before, and whether `strdup` finds memory.
pub record Network : Type 0 where
  pub socket : Option ℕ
  pub connects : Bool
  pub sent : Bool
  pub recv : Received
  pub buffer : Bytes
  pub response : ChatMessage
  pub name_memory : Bool
  pub password_memory : Bool

-- What `ExchangeMessage` returns: false, with `*a_outClosed`, or the response.
pub data Exchange : Type 0 where
  lost : (closed : Bool) → Exchange
  got : ChatMessage → Exchange

-- `ReadCredentials`, with the input that it leaves; the arrays have 64 bytes.
unfoldable pub read_password : Bytes → Bytes → Option (Bytes × Bytes) × Bytes
read_password name input = elim (read_line 64 input) [
  | none ↦ (none, input)
  | some ([], rest) ↦ (none, rest)
  | some (c ∷ cs, rest) ↦ (some (name, c ∷ cs), rest)
]

unfoldable pub read_credentials : Bytes → Option (Bytes × Bytes) × Bytes
unfolding read_password
read_credentials input = elim (read_line 64 input) [
  | none ↦ (none, input)
  | some ([], rest) ↦ (none, rest)
  | some (c ∷ cs, rest) ↦ read_password (c ∷ cs) rest
]

-- `ReadGroupName` into an array of 128 bytes.
unfoldable pub read_group_name : Bytes → Option Bytes × Bytes
read_group_name input = elim (read_line 128 input) [
  | none ↦ (none, input)
  | some ([], rest) ↦ (none, rest)
  | some (c ∷ cs, rest) ↦ (some (c ∷ cs), rest)
]

module _ (char_signed : Bool) (wins : Windows) where
  pub record ClientApp : Type 0 where
    pub controller : ClientController
    pub windows : wins.Rep
    pub state : SessionState
    pub username : Option Bytes
    pub password : Option Bytes

  -- `ClientApp_Create`, given whether it finds memory, the controller, and the length of the address.
  unfoldable pub create : Bool → Option ClientController → ℕ → Option ClientApp
  create memory controller ip_length =
      let make = (do
        c ← controller
        w ← wins.create
        some (record {
          controller = c;
          windows = w;
          state = SessionState.disconnected;
          username = none;
          password = none;
        })) in
      if leb 16 ip_length then none else if memory then make else none

  -- `ExchangeMessage`, from the response on; `sizeof(recvBuf)` is what the decoder is told.
  unfoldable pub decode : Network → Bytes → Option Exchange
  decode net bytes = do
    (code, m) ←
        deserialize char_signed (some (bytes ++ drop (length bytes) net.buffer)) recv_buf_size
          net.response
    some (if code == Status.ok && m.opcode == Opcode.response then got m else lost false)

  -- `ExchangeMessage`, from `ClientController_Receive` on.
  unfoldable pub receive_answer : Network → ClientController → Received → Option Exchange
  unfolding decode
  receive_answer net c (arrived bytes) = elim (Controller.receive (arrived bytes) c) [
    | ClientResult.success ↦ decode net bytes
    | _ ↦ some (lost false)
  ]
  receive_answer net c answer = elim (Controller.receive answer c) [
    | ClientResult.connection_closed ↦ some (lost true)
    | _ ↦ some (lost false)
  ]

  -- `ExchangeMessage`, from `ClientController_Send` on.
  unfoldable pub send_request : Network → ClientController → Encoded → Option Exchange
  unfolding receive_answer
  send_request net c Encoded.failed = some (lost false)
  send_request net c (Encoded.wrote bytes) = elim (Controller.send net.sent (length bytes) c) [
    | ClientResult.success ↦ receive_answer net c net.recv
    | ClientResult.not_connected ↦ some (lost true)
    | _ ↦ some (lost false)
  ]

  -- `ExchangeMessage`; `none` is a read outside an array.
  unfoldable pub exchange_message : Network → ClientController → ChatMessage → Option Exchange
  unfolding send_request
  exchange_message net c req = do e ← serialize req chat_max_total; send_request net c e
