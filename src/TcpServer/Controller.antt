-- ===== src/TcpServer/Controller.antt =====
-- ServerNet/TcpServerController.c: the life cycle of the server. The lock makes each of these
-- functions one step; what the threads still do while the owner waits for them is an argument.
pub mod Lifecycle
pub mod Starting
pub mod Runs
pub mod Ends
use c_chat_rooms_app.Base.{
  ℕ, Bool, true, false, Option, none, some, List, [], ◌∷◌, ◌++◌, ltb, leb, ◌&&◌, if◌then◌else◌,
  ◌>>=◌, Bytes, ℤ, pos, negsuc, length,
}
use c_chat_rooms_app.TcpServer.{TcpResult, ConnectionRecord, Event, System, Callbacks}
use c_chat_rooms_app.TcpServer.Handler.{Handler, HandlerState, Round, io_rounds}
use c_chat_rooms_app.TcpServer.Handler
use c_chat_rooms_app.TcpServer.Acceptor.{Acceptor, AcceptorState, Accepted, accept_round}
use c_chat_rooms_app.TcpServer.Acceptor

-- ServerState
pub data ServerState : Type 0 where
  stopped running : ServerState

abbrev pub is_running : ServerState → Bool
is_running ServerState.running = true
is_running ServerState.stopped = false

abbrev pub is_success : TcpResult → Bool
is_success TcpResult.success = true
is_success _ = false

-- What the threads still do while `Stop` waits for them: the connections that the acceptor hands
-- over, and the rounds that the worker completes.
pub record Ending : Type 0 where
  pub accepts : List Accepted
  pub rounds : List Round

-- Whether the calls of `TcpServerController_Create` succeed, and what its subsystems get.
pub record Resources : Type 0 where
  pub memory : Bool
  pub name : Bool
  pub mutex : Bool
  pub opening : Acceptor.Opening
  pub handler : Bool
  pub list : Bool
  pub pipe : Option (ℕ × ℕ)

-- `TcpServerController_SendMessage`, given whether `send` succeeds; the arguments `none` are NULL.
unfoldable pub send_message : Bool → Bool → ℤ → Option Bytes → ℕ → TcpResult
send_message false sent fd text size = TcpResult.null_ptr
send_message true sent fd none size = TcpResult.null_ptr
send_message true sent (negsuc n) (some text) size = TcpResult.invalid_argument
send_message true sent (pos fd) (some text) size =
    if leb size 0
    then TcpResult.invalid_argument
    else if sent
    then TcpResult.success
    else TcpResult.socket_error

module _ (sys : System) where
  pub record Controller : Type 0 where
    pub ip : ℕ
    pub port : ℕ
    pub state : ServerState
    pub acceptor : Acceptor
    pub handler : Handler sys
    pub callbacks : Callbacks

  abbrev pub no_callbacks : Callbacks
  no_callbacks = record { new_connection = false; disconnect = false; message_received = false }

  -- `TcpServerController_Destroy` on what `TcpServerController_Create` has made when one of the
  -- subsystems is missing.
  unfoldable pub assemble :
      ℕ → ℕ → Option Acceptor × List Event → Option (Handler sys) → Option Controller × List Event
  assemble ip port (some a, events) (some h) = (
    some (record {
      ip = ip;
      port = port;
      state = ServerState.stopped;
      acceptor = a;
      handler = h;
      callbacks = no_callbacks;
    }),
    events,
  )
  assemble ip port (some a, events) none = (none, events ++ Acceptor.destroy a)
  assemble ip port (none, events) (some h) = (none, events ++ Handler.destroy sys no_callbacks [] h)
  assemble ip port (none, events) none = (none, events)

  -- `TcpServerController_Create`
  unfoldable pub create : Resources → ℕ → ℕ → Option Controller × List Event
  unfolding assemble
  create res ip port =
      if res.memory
      then if res.name
        then if res.mutex
          then assemble ip port (Acceptor.create res.opening)
              (Handler.create sys res.handler res.list res.pipe)
          else (none, [])
        else (none, [])
      else (none, [])

  -- The rounds of the acceptor's thread, as long as its loop goes on.
  unfoldable pub accept_rounds :
      AcceptorState → List Accepted → Handler sys → Handler sys × List Event
  accept_rounds state [] h = (h, [])
  accept_rounds state (a ∷ rest) h = elim (accept_round sys state a h) [
    | none ↦ (h, [])
    | some (h₁, events) ↦ let (h₂, more) = accept_rounds state rest h₁ in (h₂, events ++ more)
  ]

  -- `TcpConnectionAcceptor_Stop` and `TcpConnectionHandler_Stop`, with what the threads do before
  -- they are joined; a thread that is not in its loop does nothing.
  unfoldable pub stop_both :
      Callbacks → Ending → Acceptor → Handler sys → Acceptor × Handler sys × List Event
  unfolding accept_rounds
  stop_both calls e a h =
      let (h₁, accepted) = accept_rounds AcceptorState.stopped e.accepts h in
      let h₂ = if Acceptor.is_running a.state then h₁ else h in
      let (a', closing) = Acceptor.stop a in
      let (h₃, served) = io_rounds sys calls e.rounds (Handler.stop sys h₂) in
      let alive = Handler.is_running h.state && h.worker in
      (
        a',
        if alive then h₃ else Handler.stop sys h₂,
        (if Acceptor.is_running a.state then accepted else [])
            ++ closing
            ++ (if alive then served else []),
      )

  -- `StopUnlocked`
  unfoldable pub stop_unlocked : Ending → Controller → Controller × List Event
  unfolding stop_both
  stop_unlocked e c =
      let (a, h, events) = stop_both c.callbacks e c.acceptor c.handler in
      if is_running c.state
      then (record c { state = ServerState.stopped; acceptor = a; handler = h }, events)
      else (c, [])

  -- `TcpServerController_Stop`
  unfoldable pub stop : Ending → Controller → Controller × List Event
  unfolding stop_unlocked
  stop e c = if is_running c.state then stop_unlocked e c else (c, [])

  -- The part of `TcpServerController_Start` that takes a failed start back.
  unfoldable pub roll_back :
      Ending → Controller → Acceptor → Handler sys → TcpResult × Controller × List Event
  unfolding stop_both
  roll_back e c a h =
      let (a', h', events) = stop_both c.callbacks e a h in
      (TcpResult.thread_creation_failed, record c { acceptor = a'; handler = h' }, events)

  -- `TcpServerController_Start`, given whether each of the threads can be made; `e` is what a thread
  -- does that has to be stopped again.
  unfoldable pub start : Bool → Bool → Ending → Controller → TcpResult × Controller × List Event
  unfolding roll_back
  start acceptor_thread handler_thread e c =
      let (ra, a) = Acceptor.start acceptor_thread c.acceptor in
      let (rh, h) = Handler.start sys handler_thread c.handler in
      let up : TcpResult × Controller × List Event = (
        TcpResult.success,
        record c { acceptor = a; handler = h; state = ServerState.running },
        [],
      ) in
      if is_running c.state
      then (TcpResult.success, c, [])
      else if is_success ra
      then if is_success rh then up else roll_back e c a h
      else roll_back e c a c.handler

  -- `TcpServerController_Destroy`
  unfoldable pub destroy : Ending → Controller → List Event
  unfolding stop_unlocked
  destroy e c =
      let (c₁, events) = stop_unlocked e c in
      events ++ Acceptor.destroy c₁.acceptor ++ Handler.destroy sys c₁.callbacks e.rounds c₁.handler

  -- `TcpServerController_SetCallbacks`
  unfoldable pub set_callbacks : Callbacks → Controller → TcpResult × Controller
  set_callbacks calls c =
      if is_running c.state
      then (TcpResult.invalid_argument, c)
      else (TcpResult.success, record c { callbacks = calls })
