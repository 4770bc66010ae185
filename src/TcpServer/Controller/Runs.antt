-- ===== src/TcpServer/Controller/Runs.antt =====
-- The server under its owner's calls and the rounds of its two threads, in whatever order they come.
use c_chat_rooms_app.Base.{
  ℕ, ◌≡◌, refl, ap, sym, ◌∙◌, inl, inr, Bool, true, false, Option, none, some, List, Bool-cases,
  arith,
}
use mathlib.Core.Path.{subst}
use mathlib.Core.Option.{some-injective}
use c_chat_rooms_app.TcpServer.{Event, System, Callbacks}
use c_chat_rooms_app.TcpServer.Handler.{Handler, Selected, Received, io_round, destroy_records}
use c_chat_rooms_app.TcpServer.Handler
use c_chat_rooms_app.TcpServer.Handler.Invariant
use c_chat_rooms_app.TcpServer.Handler.Invariant.{
  owned, closings, closings-append, count_fd, count_pipe, count_pipe-append,
}
use c_chat_rooms_app.TcpServer.Handler.Rounds.{Pushes, io_round-Keeps}
use c_chat_rooms_app.TcpServer.Acceptor.{Acceptor, AcceptorState, Accepted, accept_round}
use c_chat_rooms_app.TcpServer.Acceptor
use c_chat_rooms_app.TcpServer.Accepting.{IsFresh, AllFresh, accept_round-Takes}
use c_chat_rooms_app.TcpServer.Controller.{
  Controller, Ending, Resources, is_running, assemble, create, stop, start, set_callbacks,
}
use c_chat_rooms_app.TcpServer.Controller.Lifecycle.{Agrees, stop_all-Agrees}
use c_chat_rooms_app.TcpServer.Controller.Starting.{start-Started}

module _ (sys : System) where
  open sys use {lists}

  -- A call of the owner, or a round of a thread that runs.
  pub data Step (c : Controller sys) : Controller sys → Type 0 where
    accepts :
        (a : Accepted) (h' : Handler sys) (events : List Event)
        → Acceptor.is_running c.acceptor.state ≡ true
        → IsFresh sys a c.handler
        → accept_round sys c.acceptor.state a c.handler ≡ some (h', events)
        → Step c (record c { handler = h' })
    serves :
        (answer : Selected) (recv : ℕ → Received) (h' : Handler sys) (events : List Event)
        → Handler.is_running c.handler.state ≡ true
        → c.handler.worker ≡ true
        → io_round sys c.callbacks answer recv c.handler ≡ some (h', events)
        → Step c (record c { handler = h' })
    -- A failed `select` ends the loop of the worker.
    gives_up :
        (answer : Selected) (recv : ℕ → Received)
        → Handler.is_running c.handler.state ≡ true
        → c.handler.worker ≡ true
        → io_round sys c.callbacks answer recv c.handler ≡ none
        → Step c (record c { handler = record c.handler { worker = false } })
    starts :
        (acceptor_thread handler_thread : Bool) (e : Ending)
        → AllFresh sys AcceptorState.stopped e.accepts
            (Handler.start sys handler_thread c.handler).1
        → Step c (start sys acceptor_thread handler_thread e c).1
    stops :
        (e : Ending)
        → AllFresh sys AcceptorState.stopped e.accepts c.handler
        → Step c (stop sys e c).0
    sets : (calls : Callbacks) → Step c (set_callbacks sys calls c).1

  pub data Reachable : Controller sys → Type 0 where
    made :
        {c : Controller sys} (res : Resources) (ip port : ℕ)
        → (create sys res ip port).0 ≡ some c
        → Reachable c
    next : {c c' : Controller sys} → Reachable c → Step c c' → Reachable c'

  handler_create-IsValid :
      (memory list : Bool) (pipe : Option (ℕ × ℕ)) (h : Handler sys)
      → Handler.create sys memory list pipe ≡ some h
      → Handler.Invariant.IsValid sys h × (Handler.is_running h.state ≡ false)
  unfolding Handler.create
  handler_create-IsValid false list pipe h e = cc
  handler_create-IsValid true false pipe h e = cc
  handler_create-IsValid true true none h e = cc
  handler_create-IsValid true true (some (fd, write)) h e =
      let none_yet : (j : ℕ) → count_fd j (lists.items lists.create) ≡ 0 =
        λ j. ap (count_fd j) lists.items-create in
      subst (λ k. Handler.Invariant.IsValid sys k × (Handler.is_running k.state ≡ false))
        (some-injective _ _ e)
        (
          record {
            once = λ j. ground (arith, none_yet j);
            watched = λ j. ground (arith, none_yet j);
            bound = λ j on. ground (arith, on);
          },
          refl,
        )

  acceptor_create-off :
      (o : Acceptor.Opening) (a : Acceptor)
      → (Acceptor.create o).0 ≡ some a
      → Acceptor.is_running a.state ≡ false
  unfolding Acceptor.create
  acceptor_create-off o a e = ground (arith, e)

  assemble-Agrees :
      (ip port : ℕ) (a : Option Acceptor × List Event) (h : Option (Handler sys))
      (c : Controller sys)
      → ((b : Acceptor) → a.0 ≡ some b → Acceptor.is_running b.state ≡ false)
      → ((k : Handler sys)
          → h ≡ some k
          → Handler.Invariant.IsValid sys k × (Handler.is_running k.state ≡ false))
      → (assemble sys ip port a h).0 ≡ some c
      → Agrees sys c
  unfolding assemble
  assemble-Agrees ip port (some b, events) (some k) c off ready e =
      let (valid, idle) = ready k refl in
      subst (Agrees sys) (some-injective _ _ e)
        (record { acceptor = off b refl; handler = idle; connections = valid })
  assemble-Agrees ip port (some b, events) none c off ready e = cc
  assemble-Agrees ip port (none, events) (some k) c off ready e = cc
  assemble-Agrees ip port (none, events) none c off ready e = cc

  create-Agrees :
      (res : Resources) (ip port : ℕ) (c : Controller sys)
      → (create sys res ip port).0 ≡ some c
      → Agrees sys c
  unfolding create
  create-Agrees res ip port c e = elim (Bool-cases res.memory) [
    | inr no_memory ↦ cc (rw no_memory at e)
    | inl memory ↦ elim (Bool-cases res.name) [
      | inr no_name ↦ cc (rw (memory, no_name) at e)
      | inl name ↦ elim (Bool-cases res.mutex) [
        | inr no_mutex ↦ cc (rw (memory, name, no_mutex) at e)
        | inl mutex ↦
            assemble-Agrees ip port (Acceptor.create res.opening)
              (Handler.create sys res.handler res.list res.pipe) c (acceptor_create-off res.opening)
              (handler_create-IsValid res.handler res.list res.pipe) (rw (memory, name, mutex) at e)
      ]
    ]
  ]

  set_callbacks-Agrees :
      (calls : Callbacks) (c : Controller sys)
      → Agrees sys c
      → Agrees sys (set_callbacks sys calls c).1
  unfolding set_callbacks
  set_callbacks-Agrees calls c v = elim (Bool-cases (is_running c.state)) [
    | inl on ↦
        let run : (set_callbacks sys calls c).1 ≡ c = rw (set_callbacks, on) refl in
        subst (Agrees sys) (sym run) v
    | inr off ↦
        let run : (set_callbacks sys calls c).1 ≡ record c { callbacks = calls } =
          rw (set_callbacks, off) refl in
        subst (Agrees sys) (sym run)
          (record { acceptor = v.acceptor; handler = v.handler; connections = v.connections })
  ]

  module _ (pushes : Pushes sys) where
    Step-Agrees : (c c' : Controller sys) → Step c c' → Agrees sys c → Agrees sys c'
    Step-Agrees c _ (accepts a h' events on fresh run) v =
        let t = accept_round-Takes sys c.acceptor.state a c.handler h' events run in
        record {
          acceptor = v.acceptor;
          handler = ap Handler.is_running t.state ∙ v.handler;
          connections = t.valid fresh v.connections;
        }
    Step-Agrees c _ (serves answer recv h' events on looping run) v =
        let k = io_round-Keeps sys pushes c.callbacks answer recv c.handler h' events run in
        record {
          acceptor = v.acceptor;
          handler = ap Handler.is_running k.state ∙ v.handler;
          connections = k.valid v.connections;
        }
    Step-Agrees c _ (gives_up answer recv on looping run) v =
        let w = v.connections in
        record {
          acceptor = v.acceptor;
          handler = v.handler;
          connections = record { once = w.once; watched = w.watched; bound = w.bound };
        }
    Step-Agrees c _ (starts ta th e fresh) v = (start-Started sys pushes ta th e c fresh v).0
    Step-Agrees c _ (stops e fresh) v = (stop_all-Agrees sys pushes e c fresh v).0
    Step-Agrees c _ (sets calls) v = set_callbacks-Agrees calls c v

    -- Whatever the order of the owner's calls and of the rounds of the two threads, whatever the
    -- system calls answer as long as `accept` hands out descriptors that are not open, and if
    -- `ListPushTail` finds memory: the state of the controller is RUNNING exactly when the states of its
    -- two threads are (a worker whose `select` failed has left its loop in the state RUNNING); no
    -- descriptor is owned twice; and `select` watches the pipe and exactly the registered
    -- connections.
    pub Reachable-Agrees : (c : Controller sys) → Reachable c → Agrees sys c
    Reachable-Agrees c (made res ip port e) = create-Agrees res ip port c e
    Reachable-Agrees c' (next {c = c} r step) = Step-Agrees c c' step (Reachable-Agrees c r)
