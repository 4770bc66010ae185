-- ===== src/Tests/Tcp.antt =====
-- A TCP server that is created, started, accepts a connection and serves it.
use c_chat_rooms_app.Base.{
  ℕ, ◌+◌, ◌≤◌, ◌≡◌, refl, Bool, true, false, some, List, [], ◌∷◌, ◌==◌, to_nat, arith, codes,
}
use c_chat_rooms_app.DList.Plain.{boundless}
use c_chat_rooms_app.TcpServer.{
  TcpResult, ConnectionRecord, Event, Callbacks, System, create_record, process_message,
  process_disconnect, destroy_record, notify_new_connection,
}
use c_chat_rooms_app.TcpServer.Handler.{
  Handler, Selected, Received, arrived, ended, ready, io_round, service_existing_connections,
  service, Round, stop_and_join,
}
use c_chat_rooms_app.TcpServer.Handler
use c_chat_rooms_app.TcpServer.Handler.Invariant.{owned, closings, count_pipe}
use c_chat_rooms_app.TcpServer.Handler.Serving.{events_of, kept, count_ready}
use c_chat_rooms_app.TcpServer.Handler.Rounds.{Pushes, Keeps, io_round-Keeps}
use c_chat_rooms_app.TcpServer.Handler.Whole.{service_existing_connections-all}
use c_chat_rooms_app.TcpServer.Acceptor.{
  AcceptorState, connection, accept_round, hand_over, process_connection,
}
use c_chat_rooms_app.TcpServer.Acceptor
use c_chat_rooms_app.TcpServer.Accepting.{Takes, accept_round-Takes}
use c_chat_rooms_app.TcpServer.Controller.{
  Controller, Ending, Resources, is_running, create, start, stop, set_callbacks,
}
use c_chat_rooms_app.TcpServer.Controller.Lifecycle.{Agrees}
use c_chat_rooms_app.TcpServer.Controller.Runs.{
  Reachable, made, next, accepts, starts, sets, Reachable-Agrees,
}
use c_chat_rooms_app.TcpServer.Controller.Ends.{handler_destroy-closes, start-stop_deaf}

abbrev sys : System
sys = record { lists = boundless ConnectionRecord; fd_setsize = 1024 }

pushes : Pushes sys
unfolding boundless
pushes l r e = cc

abbrev resources : Resources
resources = record {
  memory = true;
  name = true;
  mutex = true;
  opening = record {
    memory = true;
    socket = some 3;
    reuse_address = true;
    bind = true;
    listen = true;
  };
  handler = true;
  list = true;
  pipe = some (4, 5);
}

abbrev quiet : Ending
quiet = record { accepts = []; rounds = [] }

abbrev calls : Callbacks
calls = record { new_connection = true; disconnect = true; message_received = true }

created : (c : Controller sys) × ((create sys resources 127 8080).0 ≡ some c)
unfolding create Acceptor.create Handler.create
created = (_, refl)

-- With callbacks, and started.
abbrev started : Controller sys
started = (start sys true true quiet (set_callbacks sys calls created.0).1).1

started_run : Reachable sys started
started_run =
    next (next (made resources 127 8080 created.1) (sets calls)) (starts true true quiet tt)

-- A connection is accepted, and registered by the worker.
abbrev peer : ConnectionRecord
peer = record { fd = 7; ip = codes "127.0.0.1"; port = 40000 }

taken :
    (h : Handler sys) × (accept_round sys started.acceptor.state
        (connection 7 peer.ip peer.port true true)
        started.handler
      ≡ some (h, []))
    × (Acceptor.is_running started.acceptor.state ≡ true)
    × (owned sys started.handler 7 ≡ 0)
unfolding accept_round hand_over process_connection Handler.add_connection create_record start
    Acceptor.start Handler.start set_callbacks created create Acceptor.create Handler.create
    boundless
taken = (_, refl, refl, refl)

abbrev on_the_way : Controller sys
on_the_way = record started { handler = taken.0 }

on_the_way_run : Reachable sys on_the_way
on_the_way_run =
    next started_run
      (accepts (connection 7 peer.ip peer.port true true) taken.0 [] taken.2 taken.3 taken.1)

Reachable-Agrees_example : Agrees sys on_the_way
Reachable-Agrees_example = Reachable-Agrees sys pushes on_the_way on_the_way_run

-- `select` finds the pipe ready, and then the connection, on which a byte has come.
abbrev only : ℕ → ℕ → Bool
only fd j = j == fd

served :
    (h : Handler sys) × (io_round sys calls (ready 1 (only 4)) (λ fd. ended) taken.0
      ≡ some (h, Event.connected peer ∷ []))
unfolding io_round taken accept_round hand_over process_connection Handler.add_connection
    create_record start Acceptor.start Handler.start set_callbacks created create Acceptor.create
    Handler.create boundless notify_new_connection service
served = (_, refl)

io_round-Keeps_example : Keeps sys taken.0 served.0 (Event.connected peer ∷ [])
io_round-Keeps_example =
    io_round-Keeps sys pushes calls (ready 1 (only 4)) (λ fd. ended) taken.0 served.0
      (Event.connected peer ∷ []) served.1

accept_round-Takes_example :
    Takes sys (connection 7 peer.ip peer.port true true) started.handler taken.0 []
accept_round-Takes_example =
    accept_round-Takes sys started.acceptor.state (connection 7 peer.ip peer.port true true)
      started.handler taken.0 [] taken.1

-- Three connections, of which the first ends and the third sends two bytes.
abbrev record_of : ℕ → ConnectionRecord
record_of fd = record { fd = fd; ip = codes "127.0.0.1"; port = 40000 + fd }

abbrev answers : ℕ → Received
answers fd = elim (fd == 7) [ true ↦ ended | false ↦ arrived (1 ∷ 2 ∷ []) ]

abbrev busy : Handler sys
unfolding boundless
busy = record {
  state = Handler.HandlerState.running;
  worker = true;
  connections = record_of 7 ∷ record_of 8 ∷ record_of 9 ∷ [];
  max_fd = 9;
  active = λ j. true;
  copy = λ j. elim (j == 8) [ true ↦ false | false ↦ true ];
  pipe = some peer ∷ [];
  pipe_read = 4;
  pipe_write = 5;
}

enough : count_ready calls busy.copy answers (sys.lists.items busy.connections) ≤ 2
unfolding boundless
enough = omega arith

service_existing_connections-all_example :
    ((service_existing_connections sys calls answers 2 busy).1
      ≡ events_of calls busy.copy answers (sys.lists.items busy.connections))
    × (sys.lists.items (service_existing_connections sys calls answers 2 busy).0.connections
        ≡ kept calls busy.copy answers (sys.lists.items busy.connections))
service_existing_connections-all_example =
    service_existing_connections-all sys calls answers 2 busy enough

busy_events :
    (service_existing_connections sys calls answers 2 busy).1
    ≡ Event.disconnected (record_of 7)
      ∷ Event.closed 7
      ∷ Event.received (record_of 9) (1 ∷ 2 ∷ [])
      ∷ []
unfolding service_existing_connections service boundless process_message process_disconnect
    destroy_record
busy_events = refl

-- The worker still takes the connection out of the pipe, and then the stop signal.
abbrev last_rounds : List Round
last_rounds =
    record { answer = ready 1 (only 4); recv = answers }
    ∷ record { answer = ready 1 (only 4); recv = answers }
    ∷ []

handler_destroy-closes_example :
    closings 7 (Handler.destroy sys calls last_rounds busy)
      + count_pipe 7 (stop_and_join sys calls last_rounds busy).0.pipe
    ≡ owned sys busy 7 + to_nat (7 == (stop_and_join sys calls last_rounds busy).0.pipe_write)
handler_destroy-closes_example = handler_destroy-closes sys pushes calls last_rounds busy 7

start-stop_deaf_example :
    ((start sys true true quiet (stop sys quiet on_the_way).0).0 ≡ TcpResult.success)
    × (is_running (start sys true true quiet (stop sys quiet on_the_way).0).1.state ≡ true)
    × ((start sys true true quiet (stop sys quiet on_the_way).0).1.acceptor.listening ≡ false)
unfolding start set_callbacks created create Acceptor.start Handler.start
start-stop_deaf_example =
    start-stop_deaf sys quiet quiet on_the_way
      (Reachable-Agrees sys pushes on_the_way on_the_way_run) refl
