-- ===== src/TcpServer.antt =====
-- ServerNet: the TCP server under the server manager. What the threads do to the world (the calls of
-- the callbacks and the closing of descriptors) is a list of events in their order; what the system
-- calls answer is an argument.
pub mod Handler
pub mod Acceptor
pub mod Controller
pub mod Accepting
use c_chat_rooms_app.Base.{
  ℕ, Bool, true, Option, none, some, List, [], ◌∷◌, ◌++◌, if◌then◌else◌, length, Bytes, codes,
}
use c_chat_rooms_app.DList.{DList}

-- TcpResult
pub data TcpResult : Type 0 where
  success null_ptr invalid_argument allocation_failed socket_error bind_error : TcpResult
  listen_error accept_error connection_closed thread_creation_failed : TcpResult

unfoldable pub to_string : TcpResult → Bytes
to_string TcpResult.success = codes "success"
to_string TcpResult.null_ptr = codes "null pointer"
to_string TcpResult.allocation_failed = codes "allocation failed"
to_string TcpResult.socket_error = codes "socket error"
to_string TcpResult.bind_error = codes "bind error"
to_string TcpResult.listen_error = codes "listen error"
to_string TcpResult.accept_error = codes "accept error"
to_string TcpResult.connection_closed = codes "connection closed"
to_string TcpResult.thread_creation_failed = codes "thread creation failed"
to_string _ = codes "unknown"

-- TcpConnectionRecord: the descriptor is one that `accept` returned, so not negative.
pub record ConnectionRecord : Type 0 where
  pub fd : ℕ
  pub ip : Bytes
  pub port : ℕ

-- `TcpConnectionRecord_Create`: NULL without memory.
unfoldable pub create_record : Bool → ℕ → Bytes → ℕ → Option ConnectionRecord
create_record memory fd ip port =
    if memory then some (record { fd = fd; ip = ip; port = port }) else none

-- What a thread does to the world.
pub data Event : Type 0 where
  connected : ConnectionRecord → Event
  received : ConnectionRecord → Bytes → Event
  disconnected : ConnectionRecord → Event
  closed : ℕ → Event

-- `TcpConnectionRecord_Destroy`
unfoldable pub destroy_record : ConnectionRecord → List Event
destroy_record r = closed r.fd ∷ []

-- Which of the callbacks of a controller are not NULL.
pub record Callbacks : Type 0 where
  pub new_connection : Bool
  pub disconnect : Bool
  pub message_received : Bool

-- `TcpServerController_NotifyNewConnection`
unfoldable pub notify_new_connection : Callbacks → ConnectionRecord → List Event
notify_new_connection calls r = if calls.new_connection then connected r ∷ [] else []

-- `TcpServerController_ProcessMessage`
unfoldable pub process_message : Callbacks → ConnectionRecord → Bytes → TcpResult × List Event
process_message calls r [] = (TcpResult.invalid_argument, [])
process_message calls r (b ∷ bytes) =
    (TcpResult.success, if calls.message_received then received r (b ∷ bytes) ∷ [] else [])

-- `TcpServerController_ProcessDisconnect`: the callback, then the end of the record.
unfoldable pub process_disconnect : Callbacks → ConnectionRecord → TcpResult × List Event
unfolding destroy_record
process_disconnect calls r =
    (TcpResult.success, (if calls.disconnect then disconnected r ∷ [] else []) ++ destroy_record r)

-- What the server takes from db/ and from the system.
pub record System : Type 1 where
  pub lists : DList ConnectionRecord
  pub fd_setsize : ℕ
