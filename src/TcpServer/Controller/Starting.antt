-- ===== src/TcpServer/Controller/Starting.antt =====
-- What `TcpServerController_Start` leads to.
use c_chat_rooms_app.Base.{
  ◌≡◌, refl, sym, ◌∙◌, inl, inr, Bool, true, false, List, [], if◌then◌else◌, Bool-cases, ◌↔◌,
}
use mathlib.Core.Path.{subst}
use c_chat_rooms_app.TcpServer.{TcpResult, Event, System}
use c_chat_rooms_app.TcpServer.Handler.{Handler, io_round}
use c_chat_rooms_app.TcpServer.Handler
use c_chat_rooms_app.TcpServer.Handler.Invariant
use c_chat_rooms_app.TcpServer.Handler.Invariant.{owned, count_pipe-append}
use c_chat_rooms_app.TcpServer.Handler.Rounds.{Pushes}
use c_chat_rooms_app.TcpServer.Acceptor.{Acceptor, AcceptorState, Accepted, accept_round}
use c_chat_rooms_app.TcpServer.Acceptor
use c_chat_rooms_app.TcpServer.Accepting.{AllFresh}
use c_chat_rooms_app.TcpServer.Controller.{
  Controller, Ending, is_running, start, roll_back, ServerState,
}
use c_chat_rooms_app.TcpServer.Controller.Lifecycle.{Agrees, stop_both-IsOff}

module _ (sys : System) (pushes : Pushes sys) where
  handler_start-IsValid :
      (thread : Bool) (h : Handler sys)
      → Handler.Invariant.IsValid sys h
      → Handler.Invariant.IsValid sys (Handler.start sys thread h).1
  unfolding Handler.start
  handler_start-IsValid thread h v =
      let stopped : Handler.Invariant.IsValid sys
          (record h { state = Handler.HandlerState.stopped }) =
        record { once = v.once; watched = v.watched; bound = v.bound } in
      let running : Handler.Invariant.IsValid sys
          (record h { state = Handler.HandlerState.running; worker = true }) =
        record { once = v.once; watched = v.watched; bound = v.bound } in
      elim (Bool-cases (Handler.is_running h.state)) [
        | inl on ↦ rw on v
        | inr off ↦ elim (Bool-cases thread) [
          | inl made ↦ rw (off, made) running
          | inr lost ↦ rw (off, lost) stopped
        ]
      ]

  roll_back-Agrees :
      (e : Ending) (c : Controller sys) (a : Acceptor) (h : Handler sys)
      → (Acceptor.is_running a.state ≡ true → AllFresh sys AcceptorState.stopped e.accepts h)
      → Handler.Invariant.IsValid sys h
      → is_running c.state ≡ false
      → Agrees sys (roll_back sys e c a h).1
  unfolding roll_back
  roll_back-Agrees e c a h fresh v off =
      let (a_off, (connections, h_off)) = stop_both-IsOff sys pushes c.callbacks e a h fresh v in
      record { acceptor = a_off ∙ sym off; handler = h_off ∙ sym off; connections = connections }

  -- What a start leads to: a server that runs, or one that does not.
  abbrev pub Started : TcpResult × Controller sys × List Event → Type 0
  Started t = Agrees sys t.1 × ((t.0 ≡ TcpResult.success) ↔ (is_running t.1.state ≡ true))

  acceptor_start :
      (thread : Bool) (a : Acceptor)
      → Acceptor.is_running a.state ≡ false
      → ((Acceptor.start thread a).0
          ≡ (if thread then TcpResult.success else TcpResult.thread_creation_failed))
        × (Acceptor.is_running (Acceptor.start thread a).1.state ≡ thread)
  unfolding Acceptor.start
  acceptor_start true a off = rw off (refl, refl)
  acceptor_start false a off = rw off (refl, refl)

  handler_start :
      (thread : Bool) (h : Handler sys)
      → Handler.is_running h.state ≡ false
      → ((Handler.start sys thread h).0
          ≡ (if thread then TcpResult.success else TcpResult.thread_creation_failed))
        × (Handler.is_running (Handler.start sys thread h).1.state ≡ thread)
  unfolding Handler.start
  handler_start true h off = rw off (refl, refl)
  handler_start false h off = rw off (refl, refl)

  -- `TcpServerController_Start` on a server that does not run.
  start_stopped-Agrees :
      (acceptor_thread handler_thread : Bool) (e : Ending) (c : Controller sys)
      → AllFresh sys AcceptorState.stopped e.accepts (Handler.start sys handler_thread c.handler).1
      → Agrees sys c
      → is_running c.state ≡ false
      → Started (start sys acceptor_thread handler_thread e c)
  unfolding start
  start_stopped-Agrees false handler_thread e c fresh v off =
      let (ra, idle) = acceptor_start false c.acceptor (v.acceptor ∙ off) in
      let run : start sys false handler_thread e c
          ≡ roll_back sys e c (Acceptor.start false c.acceptor).1 c.handler =
        rw (start, off, ra) refl in
      subst Started (sym run) (
        roll_back-Agrees e c (Acceptor.start false c.acceptor).1 c.handler (λ on. cc (idle, on))
            v.connections off,
        unfold roll_back in (λ x. cc, λ x. cc (off, x)),
      )
  start_stopped-Agrees true false e c fresh v off =
      let (ra, busy) = acceptor_start true c.acceptor (v.acceptor ∙ off) in
      let (rh, idle) = handler_start false c.handler (v.handler ∙ off) in
      let run : start sys true false e c
          ≡ roll_back sys e c (Acceptor.start true c.acceptor).1
              (Handler.start sys false c.handler).1 =
        rw (start, off, ra, rh) refl in
      subst Started (sym run) (
        roll_back-Agrees e c (Acceptor.start true c.acceptor).1
            (Handler.start sys false c.handler).1 (λ on. fresh)
            (handler_start-IsValid false c.handler v.connections) off,
        unfold roll_back in (λ x. cc, λ x. cc (off, x)),
      )
  start_stopped-Agrees true true e c fresh v off =
      let (ra, a_on) = acceptor_start true c.acceptor (v.acceptor ∙ off) in
      let (rh, h_on) = handler_start true c.handler (v.handler ∙ off) in
      let up : Controller sys = record c {
        acceptor = (Acceptor.start true c.acceptor).1;
        handler = (Handler.start sys true c.handler).1;
        state = ServerState.running;
      } in
      let run : start sys true true e c ≡ (TcpResult.success, up, []) =
        rw (start, off, ra, rh) refl in
      subst Started (sym run) (
        record {
          acceptor = a_on;
          handler = h_on;
          connections = handler_start-IsValid true c.handler v.connections;
        },
        (λ x. refl, λ x. refl),
      )

  -- `TcpServerController_Start` on a well-formed server.
  pub start-Started :
      (acceptor_thread handler_thread : Bool) (e : Ending) (c : Controller sys)
      → AllFresh sys AcceptorState.stopped e.accepts (Handler.start sys handler_thread c.handler).1
      → Agrees sys c
      → Started (start sys acceptor_thread handler_thread e c)
  unfolding start
  start-Started acceptor_thread handler_thread e c fresh v =
      elim (Bool-cases (is_running c.state)) [
        | inr off ↦ start_stopped-Agrees acceptor_thread handler_thread e c fresh v off
        | inl on ↦
            let run : start sys acceptor_thread handler_thread e c ≡ (TcpResult.success, c, []) =
              rw (start, on) refl in
            subst Started (sym run) (v, (λ x. on, λ x. refl))
      ]
