-- ===== src/Client/Controller.antt =====
-- ClientNet/ClientController.c: the connection of the client. What the system calls answer is an
-- argument.
use c_chat_rooms_app.Base.{
  ℕ, Bool, true, false, Option, none, some, List, [], ◌∷◌, leb, if◌then◌else◌, ℤ, pos, negsuc,
  Bytes, codes,
}

-- ClientResult
pub data ClientResult : Type 0 where
  success null_ptr invalid_argument allocation_failed socket_error : ClientResult
  connect_error not_connected receive_error connection_closed send_error : ClientResult

-- `ClientResultStr` of Client/ClientApp.c
unfoldable pub client_result_str : ClientResult → Bytes
client_result_str ClientResult.success = codes "success"
client_result_str ClientResult.null_ptr = codes "null pointer"
client_result_str ClientResult.invalid_argument = codes "invalid argument"
client_result_str ClientResult.allocation_failed = codes "allocation failed"
client_result_str ClientResult.socket_error = codes "socket error"
client_result_str ClientResult.connect_error = codes "connect error"
client_result_str ClientResult.not_connected = codes "not connected"
client_result_str ClientResult.receive_error = codes "receive error"
client_result_str ClientResult.connection_closed = codes "connection closed"
client_result_str ClientResult.send_error = codes "send error"

-- ClientState
pub data ClientState : Type 0 where
  stopped running : ClientState

abbrev pub is_running : ClientState → Bool
is_running ClientState.running = true
is_running ClientState.stopped = false

pub record ClientController : Type 0 where
  pub fd : ℤ
  pub ip : ℕ
  pub port : ℕ
  pub state : ClientState

-- `ClientController_Create`, given whether it finds memory and the address of the text, if it is one.
unfoldable pub create : Bool → Option ℕ → ℕ → Option ClientController
create false ip port = none
create true none port = none
create true (some ip) port =
    some (record { fd = negsuc 0; ip = ip; port = port; state = ClientState.stopped })

-- `ConnectSocket`, given the descriptor of the socket, if there is one, and whether it connects.
unfoldable pub connect_socket : Option ℕ → Bool → ClientController → ClientResult × ClientController
connect_socket none connects c = (ClientResult.socket_error, c)
connect_socket (some fd) false c = (ClientResult.connect_error, c)
connect_socket (some fd) true c = (ClientResult.success, record c { fd = pos fd })

abbrev pub is_success : ClientResult → Bool
is_success ClientResult.success = true
is_success _ = false

-- `ClientController_Start`
unfoldable pub start : Option ℕ → Bool → ClientController → ClientResult × ClientController
unfolding connect_socket
start socket connects c =
    let (r, c₁) = connect_socket socket connects c in
    if is_running c.state
    then (ClientResult.success, c)
    else if is_success r
    then (ClientResult.success, record c₁ { state = ClientState.running })
    else (r, c₁)

-- `ClientController_Stop`, with the descriptors that it closes.
unfoldable pub stop : ClientController → ClientResult × ClientController × List ℤ
stop c =
    if is_running c.state
    then (ClientResult.success, record c { state = ClientState.stopped; fd = negsuc 0 }, c.fd ∷ [])
    else (ClientResult.success, c, [])

-- `ClientController_Send` of `size` bytes, given whether `send` succeeds.
unfoldable pub send : Bool → ℕ → ClientController → ClientResult
send sent size c =
    if leb size 0
    then ClientResult.null_ptr
    else if is_running c.state
    then if sent then ClientResult.success else ClientResult.send_error
    else ClientResult.not_connected

-- What `recv` answers: -1, 0, or the bytes that it puts into the buffer.
pub data Received : Type 0 where
  failed ended : Received
  arrived : Bytes → Received

-- `ClientController_Receive` into a buffer that is not empty.
unfoldable pub receive : Received → ClientController → ClientResult
receive answer c =
    let r : ClientResult = elim answer [
      | failed ↦ ClientResult.socket_error
      | ended ↦ ClientResult.connection_closed
      | arrived bytes ↦ ClientResult.success
    ] in
    if is_running c.state then r else ClientResult.not_connected
