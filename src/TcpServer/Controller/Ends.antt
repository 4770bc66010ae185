-- ===== src/TcpServer/Controller/Ends.antt =====
-- The end of a server: what a stop leaves for the next start, and what the destruction closes.
use c_chat_rooms_app.Base.{
  ℕ, ◌+◌, ◌≡◌, refl, ap, ◌∙◌, inl, inr, true, false, none, List, [], ◌∷◌, ◌++◌, Bool-cases, ◌==◌,
  to_nat, arith,
}
use c_chat_rooms_app.TcpServer.{
  TcpResult, Event, System, Callbacks, ConnectionRecord, destroy_record,
}
use c_chat_rooms_app.TcpServer.Handler.{Handler, Round, io_rounds, stop_and_join, destroy_records}
use c_chat_rooms_app.TcpServer.Handler.Rounds.{Pushes}
use c_chat_rooms_app.TcpServer.Accepting.{io_rounds-Keeps}
use c_chat_rooms_app.TcpServer.Handler
use c_chat_rooms_app.TcpServer.Handler.Invariant.{
  owned, closings, closings-append, count_fd, count_pipe, count_pipe-append,
}
use c_chat_rooms_app.TcpServer.Acceptor
use c_chat_rooms_app.TcpServer.Controller.{
  Controller, Ending, ServerState, is_running, stop_both, stop_unlocked, stop, start,
}
use c_chat_rooms_app.TcpServer.Controller.Lifecycle.{Agrees}

module _ (sys : System) where
  open sys use {lists}

  closings-destroy_records :
      (j : ℕ) (rs : List ConnectionRecord) → closings j (destroy_records sys rs) ≡ count_fd j rs
  unfolding destroy_records destroy_record
  closings-destroy_records j [] = refl
  closings-destroy_records j (r ∷ rs) = omega (arith, closings-destroy_records j rs)

  stop_and_join-balance :
      (pushes : Pushes sys) (calls : Callbacks) (rounds : List Round) (h : Handler sys) (j : ℕ)
      → owned sys (stop_and_join sys calls rounds h).0 j
          + closings j (stop_and_join sys calls rounds h).1
        ≡ owned sys h j
  unfolding stop_and_join Handler.stop
  stop_and_join-balance pushes calls rounds h j = elim (Bool-cases (Handler.is_running h.state)) [
    | inr off ↦ rw off (omega arith)
    | inl on ↦ elim (Bool-cases h.worker) [
      | inr idle ↦
          let woken = count_pipe-append j h.pipe (none ∷ []) in rw (on, idle) (omega (arith, woken))
      | inl looping ↦
          let k = io_rounds-Keeps sys pushes calls rounds (Handler.stop sys h) in
          let woken = count_pipe-append j h.pipe (none ∷ []) in
          let b = rw (on, looping) at k.balance j in rw (on, looping) (omega (arith, b, woken))
    ]
  ]

  -- `TcpConnectionHandler_Destroy`, whatever the worker still does before it is joined, and if
  -- `ListPushTail` finds memory for what it registers: each connection that the handler owned, the
  -- read end of the pipe among them, and the write end of the pipe is closed as often as it was owned,
  -- but for the connections that are then still in the pipe, which are never closed.
  pub handler_destroy-closes :
      (pushes : Pushes sys) (calls : Callbacks) (rounds : List Round) (h : Handler sys) (j : ℕ)
      → closings j (Handler.destroy sys calls rounds h)
          + count_pipe j (stop_and_join sys calls rounds h).0.pipe
        ≡ owned sys h j + to_nat (j == (stop_and_join sys calls rounds h).0.pipe_write)
  unfolding Handler.destroy
  handler_destroy-closes pushes calls rounds h j =
      let g = (stop_and_join sys calls rounds h).0 in
      let served = (stop_and_join sys calls rounds h).1 in
      let ends = Event.closed g.pipe_read ∷ Event.closed g.pipe_write ∷ [] in
      let kept = stop_and_join-balance pushes calls rounds h j in
      let records = closings-destroy_records j (lists.items g.connections) in
      let all =
        closings-append j (served ++ destroy_records sys (lists.items g.connections)) ends in
      let first = closings-append j served (destroy_records sys (lists.items g.connections)) in
      omega (arith, kept, records, all, first)

  acceptor_start-listening :
      (a : Acceptor.Acceptor)
      → ((Acceptor.start true a).0 ≡ TcpResult.success)
        × ((Acceptor.start true a).1.listening ≡ a.listening)
  unfolding Acceptor.start
  acceptor_start-listening a = ground arith

  handler_start-success : (h : Handler sys) → (Handler.start sys true h).0 ≡ TcpResult.success
  unfolding Handler.start
  handler_start-success h = ground arith

  start-listening :
      (e : Ending) (c : Controller sys)
      → is_running c.state ≡ false
      → ((start sys true true e c).0 ≡ TcpResult.success)
        × (is_running (start sys true true e c).1.state ≡ true)
        × ((start sys true true e c).1.acceptor.listening ≡ c.acceptor.listening)
  unfolding start
  start-listening e c off =
      let (ra, same) = acceptor_start-listening c.acceptor in
      let rh = handler_start-success c.handler in
      let run : start sys true true e c ≡ (
        TcpResult.success,
        record c {
          acceptor = (Acceptor.start true c.acceptor).1;
          handler = (Handler.start sys true c.handler).1;
          state = ServerState.running;
        },
        [],
      ) =
        rw (start, off, ra, rh) refl in
      (
        ap (λ t. t.0) run,
        ap (λ t. is_running t.1.state) run,
        ap (λ t. t.1.acceptor.listening) run ∙ same,
      )

  stop-deaf :
      (e : Ending) (c : Controller sys)
      → Agrees sys c
      → is_running c.state ≡ true
      → (is_running (stop sys e c).0.state ≡ false) × ((stop sys e c).0.acceptor.listening ≡ false)
  unfolding stop stop_unlocked stop_both Acceptor.stop
  stop-deaf e c v on = rw (on, v.acceptor ∙ on) (refl, refl)

  -- `TcpServerController_Stop` closes the listening socket and nothing opens it again: if a server
  -- that runs is stopped, and then started with threads to be had, `TcpServerController_Start`
  -- reports success and the server is RUNNING, with its listening descriptor closed.
  pub start-stop_deaf :
      (e e' : Ending) (c : Controller sys)
      → Agrees sys c
      → is_running c.state ≡ true
      → ((start sys true true e' (stop sys e c).0).0 ≡ TcpResult.success)
        × (is_running (start sys true true e' (stop sys e c).0).1.state ≡ true)
        × ((start sys true true e' (stop sys e c).0).1.acceptor.listening ≡ false)
  start-stop_deaf e e' c v on =
      let (off, deaf) = stop-deaf e c v on in
      let (success, running, same) = start-listening e' (stop sys e c).0 off in
      (success, running, same ∙ deaf)
