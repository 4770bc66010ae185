-- ===== src/TcpServer/Controller/Lifecycle.antt =====
-- When a server is well formed: the states of the controller and of its two threads agree, and the
-- handler's book-keeping is right.
use c_chat_rooms_app.Base.{
  ◌≡◌, refl, ap, sym, ◌∙◌, inl, inr, Bool, true, false, ◌&&◌, none, List, [], ◌∷◌, if◌then◌else◌,
  Bool-cases, arith,
}
use mathlib.Core.Path.{subst}
use c_chat_rooms_app.TcpServer.{Event, System, Callbacks}
use c_chat_rooms_app.TcpServer.Handler.{Handler, Round, io_rounds}
use c_chat_rooms_app.TcpServer.Handler
use c_chat_rooms_app.TcpServer.Handler.Invariant
use c_chat_rooms_app.TcpServer.Handler.Invariant.{owned, count_pipe-append}
use c_chat_rooms_app.TcpServer.Handler.Rounds.{Pushes}
use c_chat_rooms_app.TcpServer.Acceptor.{Acceptor, AcceptorState, Accepted, accept_round}
use c_chat_rooms_app.TcpServer.Acceptor
use c_chat_rooms_app.TcpServer.Accepting.{AllFresh, accept_rounds-IsValid, io_rounds-Keeps}
use c_chat_rooms_app.TcpServer.Controller.{
  Controller, Ending, is_running, stop_both, stop_unlocked, stop, accept_rounds,
}

module _ (sys : System) where
  pub record Agrees (c : Controller sys) : Type 0 where
    pub acceptor : Acceptor.is_running c.acceptor.state ≡ is_running c.state
    pub handler : Handler.is_running c.handler.state ≡ is_running c.state
    pub connections : Handler.Invariant.IsValid sys c.handler

  stop-IsValid :
      (h : Handler sys)
      → Handler.Invariant.IsValid sys h
      → Handler.Invariant.IsValid sys (Handler.stop sys h)
        × (Handler.is_running (Handler.stop sys h).state ≡ false)
  unfolding Handler.stop
  stop-IsValid h v = elim (Bool-cases (Handler.is_running h.state)) [
    | inr off ↦ rw off (v, off)
    | inl on ↦ rw on (
      record {
        once = λ j. rw (count_pipe-append j h.pipe (none ∷ [])) (ground (arith, v.once j));
        watched = v.watched;
        bound = v.bound;
      },
      refl,
    )
  ]

  acceptor_stop-off : (a : Acceptor) → Acceptor.is_running (Acceptor.stop a).0.state ≡ false
  unfolding Acceptor.stop
  acceptor_stop-off a = ground arith

  -- A handler that is well formed and whose worker is to end.
  abbrev pub IsOff : Handler sys → Type 0
  IsOff h = Handler.Invariant.IsValid sys h × (Handler.is_running h.state ≡ false)

  abbrev IsStopped : Controller sys × List Event → Type 0
  IsStopped t = Agrees t.0 × (is_running t.0.state ≡ false)

  choose {ℓ κ} :
      {A : Type ℓ} (P : A → Type κ) (b : Bool) (x y : A) → P x → P y → P (if b then x else y)
  choose P true x y p q = p
  choose P false x y p q = q

  module _ (pushes : Pushes sys) where
    io_rounds-IsOff :
        (calls : Callbacks) (rounds : List Round) (h : Handler sys)
        → IsOff h
        → IsOff (io_rounds sys calls rounds h).0
    io_rounds-IsOff calls rounds h (v, off) =
        let k = io_rounds-Keeps sys pushes calls rounds h in
        (k.valid v, ap Handler.is_running k.state ∙ off)

    -- Both threads are stopped, whatever they still do.
    pub stop_both-IsOff :
        (calls : Callbacks) (e : Ending) (a : Acceptor) (h : Handler sys)
        → (Acceptor.is_running a.state ≡ true → AllFresh sys AcceptorState.stopped e.accepts h)
        → Handler.Invariant.IsValid sys h
        → (Acceptor.is_running (stop_both sys calls e a h).0.state ≡ false)
          × IsOff (stop_both sys calls e a h).1
    unfolding stop_both
    stop_both-IsOff calls e a h fresh v =
        let h₂ : Handler sys =
          if Acceptor.is_running a.state
          then (accept_rounds sys AcceptorState.stopped e.accepts h).0
          else h in
        let valid₂ : Handler.Invariant.IsValid sys h₂ =
          elim (Bool-cases (Acceptor.is_running a.state)) [
            | inl on ↦
                rw on (accept_rounds-IsValid sys AcceptorState.stopped e.accepts h (fresh on) v).0
            | inr off ↦ rw off v
          ] in
        let off = stop-IsValid h₂ valid₂ in
        (
          acceptor_stop-off a,
          choose IsOff (Handler.is_running h.state && h.worker) _ (Handler.stop sys h₂)
              (io_rounds-IsOff calls e.rounds (Handler.stop sys h₂) off) off,
        )

    stop_unlocked-Agrees :
        (e : Ending) (c : Controller sys)
        → AllFresh sys AcceptorState.stopped e.accepts c.handler
        → Agrees c
        → Agrees (stop_unlocked sys e c).0 × (is_running (stop_unlocked sys e c).0.state ≡ false)
    unfolding stop_unlocked
    stop_unlocked-Agrees e c fresh v = elim (Bool-cases (is_running c.state)) [
      | inr off ↦ rw off (v, off)
      | inl on ↦
          let (a, h) =
            stop_both-IsOff c.callbacks e c.acceptor c.handler (λ on. fresh) v.connections in
          rw on (record { acceptor = a; handler = h.1; connections = h.0 }, refl)
    ]

    pub stop_all-Agrees :
        (e : Ending) (c : Controller sys)
        → AllFresh sys AcceptorState.stopped e.accepts c.handler
        → Agrees c
        → Agrees (stop sys e c).0 × (is_running (stop sys e c).0.state ≡ false)
    unfolding stop
    stop_all-Agrees e c fresh v = elim (Bool-cases (is_running c.state)) [
      | inr off ↦ rw off (v, off)
      | inl on ↦
          subst (λ b. IsStopped (if b then stop_unlocked sys e c else (c, []))) (sym on)
            (stop_unlocked-Agrees e c fresh v)
    ]
