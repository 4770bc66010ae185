-- ===== src/TcpServer/Acceptor.antt =====
-- ServerNet/TcpConnectionAcceptor.c: the listening socket and the thread that accepts connections.
use c_chat_rooms_app.Base.{
  ℕ, Bool, true, false, Option, none, some, List, [], ◌∷◌, if◌then◌else◌, Bytes,
}
use c_chat_rooms_app.TcpServer.{
  TcpResult, ConnectionRecord, Event, System, create_record, destroy_record,
}
use c_chat_rooms_app.TcpServer.Handler.{Handler, add_connection}

-- AcceptorState
pub data AcceptorState : Type 0 where
  stopped running : AcceptorState

abbrev pub is_running : AcceptorState → Bool
is_running AcceptorState.running = true
is_running AcceptorState.stopped = false

-- `listening` says whether the descriptor is open.
pub record Acceptor : Type 0 where
  pub state : AcceptorState
  pub listen_fd : ℕ
  pub listening : Bool

-- What the calls of `TcpConnectionAcceptor_Create` answer.
pub record Opening : Type 0 where
  pub memory : Bool
  pub socket : Option ℕ
  pub reuse_address : Bool
  pub bind : Bool
  pub listen : Bool

-- `TcpConnectionAcceptor_Create` from the socket on: the acceptor, or the closing of the socket.
unfoldable pub open_socket : Opening → ℕ → Option Acceptor × List Event
open_socket o fd =
    let refuse : Option Acceptor × List Event = (none, Event.closed fd ∷ []) in
    if o.reuse_address
    then if o.bind
      then if o.listen
        then (some (record { state = AcceptorState.stopped; listen_fd = fd; listening = true }), [])
        else refuse
      else refuse
    else refuse

-- `TcpConnectionAcceptor_Create`
unfoldable pub create : Opening → Option Acceptor × List Event
unfolding open_socket
create o =
    if o.memory
    then elim o.socket [ none ↦ (none, []) | some fd ↦ open_socket o fd ]
    else (none, [])

-- `TcpConnectionAcceptor_Start`, given whether `pthread_create` succeeds.
unfoldable pub start : Bool → Acceptor → TcpResult × Acceptor
start thread a =
    if is_running a.state
    then (TcpResult.success, a)
    else if thread
    then (TcpResult.success, record a { state = AcceptorState.running })
    else (TcpResult.thread_creation_failed, record a { state = AcceptorState.stopped })

-- `TcpConnectionAcceptor_Stop`; its thread has been joined when the socket is closed.
unfoldable pub stop : Acceptor → Acceptor × List Event
stop a =
    if is_running a.state
    then (
      record a { state = AcceptorState.stopped; listening = false },
      Event.closed a.listen_fd ∷ [],
    )
    else (a, [])

-- `TcpConnectionAcceptor_Destroy`
unfoldable pub destroy : Acceptor → List Event
unfolding stop
destroy a = (stop a).1

-- What `accept` answers: an error, or a connection with its address, of which the record may find
-- memory and the pipe may take the pointer.
pub data Accepted : Type 0 where
  failed : Accepted
  connection : (fd : ℕ) (ip : Bytes) (port : ℕ) (memory written : Bool) → Accepted

module _ (sys : System) where
  -- `TcpServerController_ProcessConnection`
  unfoldable pub process_connection :
      Bool → Handler sys → ConnectionRecord → TcpResult × Handler sys
  process_connection written h r = add_connection sys written h r

  -- What `TcpConnectionAcceptor_AcceptLoop` does with a record.
  unfoldable pub hand_over : Bool → Handler sys → ConnectionRecord → Handler sys × List Event
  unfolding process_connection
  hand_over written h r =
      let (result, h') = process_connection written h r in
      elim result [ TcpResult.success ↦ (h', []) | _ ↦ (h', destroy_record r) ]

  -- One round of `TcpConnectionAcceptor_AcceptLoop` after the test of its condition, when the state
  -- is `state` at the second test; `none` ends the loop.
  unfoldable pub accept_round :
      AcceptorState → Accepted → Handler sys → Option (Handler sys × List Event)
  unfolding hand_over
  accept_round state failed h = if is_running state then some (h, []) else none
  accept_round state (connection fd ip port memory written) h =
      some (elim (create_record memory fd ip port) [
        | none ↦ (h, Event.closed fd ∷ [])
        | some r ↦ hand_over written h r
      ])
