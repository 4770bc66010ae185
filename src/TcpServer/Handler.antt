-- ===== src/TcpServer/Handler.antt =====
-- ServerNet/TcpConnectionHandler.c: the connections and the worker thread that serves them. An
-- `fd_set` is the test of FD_ISSET.
pub mod Serving
pub mod Loop
pub mod Invariant
pub mod Rounds
pub mod Whole
use c_chat_rooms_app.Base.{
  ℕ, suc, ◌+◌, ◌-◌, Bool, true, false, Option, none, some, List, [], ◌∷◌, ◌++◌, ◌==◌, ltb, leb,
  if◌then◌else◌, ◌>>=◌, Bytes,
}
use c_chat_rooms_app.DList.{DList}
use c_chat_rooms_app.TcpServer.{
  TcpResult, ConnectionRecord, Event, Callbacks, System, notify_new_connection, process_message,
  process_disconnect, destroy_record,
}

-- HandlerState
pub data HandlerState : Type 0 where
  stopped running : HandlerState

abbrev pub is_running : HandlerState → Bool
is_running HandlerState.running = true
is_running HandlerState.stopped = false

-- What `select` answers: an error, an interrupt, or a number and the set that it leaves.
pub data Selected : Type 0 where
  failed interrupted : Selected
  ready : ℕ → (ℕ → Bool) → Selected

-- What `recv` answers: 0 or -1, or the bytes.
pub data Received : Type 0 where
  ended : Received
  arrived : Bytes → Received

-- What `select` and `recv` answer in one round of the worker.
pub record Round : Type 0 where
  pub answer : Selected
  pub recv : ℕ → Received

-- FD_SET and FD_CLR.
abbrev pub set : ℕ → (ℕ → Bool) → ℕ → Bool
set fd s j = if j == fd then true else s j

abbrev pub clear : ℕ → (ℕ → Bool) → ℕ → Bool
clear fd s j = if j == fd then false else s j

abbrev pub update_max_fd : ℕ → ℕ → ℕ
update_max_fd current_max new_fd = if ltb current_max new_fd then new_fd else current_max

module _ (sys : System) where
  open sys use {lists, fd_setsize}

  -- The pipe is what has been written to it and not yet read; `none` is the NULL of a stop. `worker`
  -- says whether the thread is in its loop, which a failed `select` ends while the state stays RUNNING.
  pub record Handler : Type 0 where
    pub state : HandlerState
    pub worker : Bool
    pub connections : lists.Rep
    pub max_fd : ℕ
    pub active : ℕ → Bool
    pub copy : ℕ → Bool
    pub pipe : List (Option ConnectionRecord)
    pub pipe_read : ℕ
    pub pipe_write : ℕ

  -- `TcpConnectionHandler_Create`, given whether the two allocations find memory, and the ends of
  -- the pipe if `pipe` makes one.
  unfoldable pub create : Bool → Bool → Option (ℕ × ℕ) → Option Handler
  create false list fd = none
  create true false fd = none
  create true true none = none
  create true true (some (fd, write)) = some (record {
    state = HandlerState.stopped;
    worker = false;
    connections = lists.create;
    max_fd = fd;
    active = set fd (λ j. false);
    copy = λ j. false;
    pipe = [];
    pipe_read = fd;
    pipe_write = write;
  })

  -- `TcpConnectionHandler_Start`, given whether `pthread_create` succeeds.
  unfoldable pub start : Bool → Handler → TcpResult × Handler
  start thread h =
      if is_running h.state
      then (TcpResult.success, h)
      else if thread
      then (TcpResult.success, record h { state = HandlerState.running; worker = true })
      else (TcpResult.thread_creation_failed, record h { state = HandlerState.stopped })

  -- `TcpConnectionHandler_Stop`, up to the call of `pthread_join`.
  unfoldable pub stop : Handler → Handler
  stop h =
      if is_running h.state
      then record h { state = HandlerState.stopped; pipe = h.pipe ++ none ∷ [] }
      else h

  -- `TcpConnectionHandler_AddConnection`, given whether `write` takes the whole pointer.
  unfoldable pub add_connection : Bool → Handler → ConnectionRecord → TcpResult × Handler
  add_connection written h r =
      if written
      then (TcpResult.success, record h { pipe = h.pipe ++ some r ∷ [] })
      else (TcpResult.socket_error, h)

  -- `ProcessNewConnection` on a record that is not NULL; the result of `ListPushTail` is dropped.
  unfoldable pub register_record : Callbacks → Handler → ConnectionRecord → Handler × List Event
  register_record calls h r = if leb fd_setsize r.fd then (h, (process_disconnect calls r).1) else (
    record h {
      connections = (lists.push_tail h.connections r).1;
      active = set r.fd h.active;
      max_fd = update_max_fd h.max_fd r.fd;
    },
    notify_new_connection calls r,
  )

  -- `ProcessNewConnection`, given what the pipe holds; a read of an empty pipe gives no pointer.
  unfoldable pub read_pipe :
      Callbacks → Handler → List (Option ConnectionRecord) → Handler × List Event
  unfolding register_record
  read_pipe calls h [] = (h, [])
  read_pipe calls h (none ∷ rest) = (record h { pipe = rest }, [])
  read_pipe calls h (some r ∷ rest) = register_record calls (record h { pipe = rest }) r

  -- `ProcessNewConnection`
  unfoldable pub process_new_connection : Callbacks → Handler → Handler × List Event
  unfolding read_pipe
  process_new_connection calls h = read_pipe calls h h.pipe

  -- `ProcessClientData`
  unfoldable pub process_client_data :
      Callbacks → Handler → ConnectionRecord → lists.Itr → Received → Handler × List Event
  process_client_data calls h r itr ended = (
    record h { active = clear r.fd h.active; connections = (lists.itr_remove h.connections itr).1 },
    (process_disconnect calls r).1,
  )
  process_client_data calls h r itr (arrived bytes) = (h, (process_message calls r bytes).1)

  -- How many records have been passed after `ProcessClientData` on the one after `k`.
  abbrev pub passed : Received → ℕ → ℕ
  passed ended k = k
  passed (arrived bytes) k = suc k

  -- The loop of `ServiceExistingConnections`: `k` records have been passed that are still in the
  -- list, and `todo` are the ones after them.
  unfoldable pub service :
      Callbacks → (ℕ → Received) → ℕ → List ConnectionRecord → ℕ → Handler → Handler × List Event
  unfolding process_client_data
  service calls recv k [] n h = (h, [])
  service calls recv k (r ∷ todo) n h = elim (n == 0) [
    | true ↦ (h, [])
    | false ↦ elim (h.copy r.fd) [
      | false ↦ service calls recv (suc k) todo n h
      | true ↦
          let (h₁, before) =
            process_client_data calls h r (lists.itr_at h.connections k) (recv r.fd) in
          let (h₂, after) = service calls recv (passed (recv r.fd) k) todo (n - 1) h₁ in
          (h₂, before ++ after)
    ]
  ]

  -- `ServiceExistingConnections`
  unfoldable pub service_existing_connections :
      Callbacks → (ℕ → Received) → ℕ → Handler → Handler × List Event
  unfolding service
  service_existing_connections calls recv n h = service calls recv 0 (lists.items h.connections) n h

  -- `RegisterNewConnectionsFromAcceptor`, with the number that it leaves.
  unfoldable pub register_new_connections : Callbacks → ℕ → Handler → Handler × List Event × ℕ
  unfolding process_new_connection
  register_new_connections calls n h =
      let (h₁, events) = process_new_connection calls h in
      if h.copy h.pipe_read then (h₁, events, n - 1) else (h, [], n)

  -- One round of `ClientHandlerIOLoop` after the test of its condition; `none` ends the loop.
  unfoldable pub io_round :
      Callbacks → Selected → (ℕ → Received) → Handler → Option (Handler × List Event)
  unfolding service_existing_connections register_new_connections
  io_round calls failed recv h = none
  io_round calls interrupted recv h = some (record h { copy = h.active }, [])
  io_round calls (ready n fds) recv h =
      let (h₁, events, m) = register_new_connections calls n (record h { copy = fds }) in
      let (h₂, more) = service_existing_connections calls recv m h₁ in
      if n == 0
      then some (record h { copy = fds }, [])
      else if ltb 0 m
      then some (h₂, events ++ more)
      else some (h₁, events)

  -- The rounds of `ClientHandlerIOLoop`, as long as it goes on.
  unfoldable pub io_rounds : Callbacks → List Round → Handler → Handler × List Event
  unfolding io_round
  io_rounds calls [] h = (h, [])
  io_rounds calls (r ∷ rest) h = elim (io_round calls r.answer r.recv h) [
    | none ↦ (h, [])
    | some (h₁, events) ↦ let (h₂, more) = io_rounds calls rest h₁ in (h₂, events ++ more)
  ]

  -- `DestroyRecord` on each record of the list.
  unfoldable pub destroy_records : List ConnectionRecord → List Event
  unfolding destroy_record
  destroy_records [] = []
  destroy_records (r ∷ rs) = destroy_record r ++ destroy_records rs

  -- `TcpConnectionHandler_Stop` with the rounds that the worker completes before it is joined; a
  -- worker that is not in its loop does nothing.
  unfoldable pub stop_and_join : Callbacks → List Round → Handler → Handler × List Event
  unfolding stop io_rounds
  stop_and_join calls rounds h =
      if is_running h.state
      then if h.worker then io_rounds calls rounds (stop h) else (stop h, [])
      else (h, [])

  -- `TcpConnectionHandler_Destroy`; the records that are still in the pipe are not closed.
  unfoldable pub destroy : Callbacks → List Round → Handler → List Event
  unfolding stop_and_join destroy_records
  destroy calls rounds h =
      let (h₁, served) = stop_and_join calls rounds h in
      served
      ++ destroy_records (lists.items h₁.connections)
      ++ Event.closed h₁.pipe_read ∷ Event.closed h₁.pipe_write ∷ []
