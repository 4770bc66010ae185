-- ===== src/TcpServer/Accepting.antt =====
-- What the rounds of the acceptor and of the worker do to the descriptors that the handler owns.
use c_chat_rooms_app.Base.{
  ℕ, ◌+◌, ◌≡◌, refl, ◌∙◌, inl, inr, Bool, true, false, some, List, [], ◌∷◌, ◌++◌, ◌==◌, to_nat,
  Option-cases, arith, Bytes,
}
use mathlib.Core.Option.{some-injective}
use mathlib.Core.Path.{subst}
use c_chat_rooms_app.TcpServer.{
  ConnectionRecord, Event, System, Callbacks, create_record, destroy_record,
}
use c_chat_rooms_app.TcpServer.Handler.{Handler, add_connection, io_round}
use c_chat_rooms_app.TcpServer.Handler.Invariant.{
  count_pipe, closings, count_pipe-append, owned, IsValid,
}
use c_chat_rooms_app.TcpServer.Handler.Rounds.{
  Pushes, Keeps, Keeps-same, Keeps-then, io_round-Keeps,
}
use c_chat_rooms_app.TcpServer.Acceptor.{
  AcceptorState, Accepted, failed, connection, accept_round, hand_over, process_connection,
}
use c_chat_rooms_app.TcpServer.Controller.{accept_rounds}
use c_chat_rooms_app.TcpServer.Handler.{Round, io_rounds}

-- How often `accept` has handed out a descriptor.
abbrev pub opened : ℕ → Accepted → ℕ
opened j failed = 0
opened j (connection fd ip port memory written) = to_nat (j == fd)

module _ (sys : System) where
  -- `accept` hands out a descriptor that is not open.
  abbrev pub IsFresh : Accepted → Handler sys → Type 0
  IsFresh failed h = Unit
  IsFresh (connection fd ip port memory written) h = owned sys h fd ≡ 0

  -- What a round of the acceptor does: a descriptor that it gets is closed or on its way.
  pub record Takes (a : Accepted) (h h' : Handler sys) (events : List Event) : Type 0 where
    pub balance : (j : ℕ) → owned sys h' j + closings j events ≡ owned sys h j + opened j a
    pub valid : IsFresh a h → IsValid sys h → IsValid sys h'
    pub state : h'.state ≡ h.state
    pub pipe_read : h'.pipe_read ≡ h.pipe_read

  Takes-close :
      (fd : ℕ) (ip : Bytes) (port : ℕ) (memory written : Bool) (h : Handler sys)
      → Takes (connection fd ip port memory written) h h (Event.closed fd ∷ [])
  Takes-close fd ip port memory written h = record {
    balance = λ j. omega arith;
    valid = λ f v. v;
    state = refl;
    pipe_read = refl;
  }

  Takes-push :
      (fd : ℕ) (ip : Bytes) (port : ℕ) (memory written : Bool) (h : Handler sys)
      (r : ConnectionRecord)
      → r.fd ≡ fd
      → Takes
          (connection fd ip port memory written)
          h
          (record h { pipe = h.pipe ++ some r ∷ [] })
          []
  Takes-push fd ip port memory written h r e =
      let more : (j : ℕ)
          → count_pipe j (h.pipe ++ some r ∷ []) ≡ count_pipe j h.pipe + to_nat (j == fd) =
        λ j. count_pipe-append j h.pipe (some r ∷ []) ∙ rw e (omega arith) in
      record {
        balance = λ j. omega (arith, more j);
        valid = λ f v. record {
          once = λ j. ground (arith, more j, v.once j, f);
          watched = v.watched;
          bound = v.bound;
        };
        state = refl;
        pipe_read = refl;
      }

  -- One round of the acceptor, whatever `accept` answers: the descriptor that it gets is closed or on
  -- its way to the worker, no other changes hands, and if the descriptor was not open before, the
  -- handler's book-keeping stays right.
  pub accept_round-Takes :
      (s : AcceptorState) (a : Accepted) (h h' : Handler sys) (events : List Event)
      → accept_round sys s a h ≡ some (h', events)
      → Takes a h h' events
  unfolding accept_round create_record hand_over process_connection add_connection destroy_record
  accept_round-Takes AcceptorState.stopped failed h h' events e = cc
  accept_round-Takes AcceptorState.running failed h h' events e =
      subst (λ t. Takes failed h t.0 t.1) (some-injective _ _ e)
        (record { balance = λ j. refl; valid = λ f v. v; state = refl; pipe_read = refl })
  accept_round-Takes s (connection fd ip port false w) h h' events e =
      subst (λ t. Takes (connection fd ip port false w) h t.0 t.1) (some-injective _ _ e)
        (Takes-close fd ip port false w h)
  accept_round-Takes s (connection fd ip port true false) h h' events e =
      subst (λ t. Takes (connection fd ip port true false) h t.0 t.1) (some-injective _ _ e)
        (Takes-close fd ip port true false h)
  accept_round-Takes s (connection fd ip port true true) h h' events e =
      subst (λ t. Takes (connection fd ip port true true) h t.0 t.1) (some-injective _ _ e)
        (Takes-push fd ip port true true h (record { fd = fd; ip = ip; port = port }) refl)

  -- Each of the descriptors is fresh when it is handed out.
  abbrev pub AllFresh : AcceptorState → List Accepted → Handler sys → Type 0
  AllFresh s [] h = Unit
  AllFresh s (a ∷ rest) h =
      IsFresh a h
      × ((h' : Handler sys) (events : List Event)
          → accept_round sys s a h ≡ some (h', events)
          → AllFresh s rest h')

  pub accept_rounds-IsValid :
      (s : AcceptorState) (accepts : List Accepted) (h : Handler sys)
      → AllFresh s accepts h
      → IsValid sys h
      → IsValid sys (accept_rounds sys s accepts h).0
        × ((accept_rounds sys s accepts h).0.state ≡ h.state)
  unfolding accept_rounds
  accept_rounds-IsValid s [] h f v = (v, refl)
  accept_rounds-IsValid s (a ∷ rest) h (f, more) v = elim (Option-cases (accept_round sys s a h)) [
    | inl out ↦
        let end : accept_rounds sys s (a ∷ rest) h ≡ (h, []) = rw (accept_rounds, out) refl in
        rw end (v, refl)
    | inr ((h₁, events), run) ↦
        let t = accept_round-Takes s a h h₁ events run in
        let (w, same) = accept_rounds-IsValid s rest h₁ (more h₁ events run) (t.valid f v) in
        let step : accept_rounds sys s (a ∷ rest) h
            ≡ (let next = accept_rounds sys s rest h₁ in (next.0, events ++ next.1)) =
          rw (accept_rounds, run) refl in
        rw step (w, same ∙ t.state)
  ]

  pub io_rounds-Keeps :
      (pushes : Pushes sys) (calls : Callbacks) (rounds : List Round) (h : Handler sys)
      → Keeps sys h (io_rounds sys calls rounds h).0 (io_rounds sys calls rounds h).1
  unfolding io_rounds
  io_rounds-Keeps pushes calls [] h = Keeps-same sys h h.copy
  io_rounds-Keeps pushes calls (r ∷ rest) h =
      elim (Option-cases (io_round sys calls r.answer r.recv h)) [
        | inl out ↦
            let end : io_rounds sys calls (r ∷ rest) h ≡ (h, []) = rw (io_rounds, out) refl in
            rw end (Keeps-same sys h h.copy)
        | inr ((h₁, events), run) ↦
            let step : io_rounds sys calls (r ∷ rest) h
                ≡ (let next = io_rounds sys calls rest h₁ in (next.0, events ++ next.1)) =
              rw (io_rounds, run) refl in
            rw step (
              Keeps-then sys h h₁ _ events _
                (io_round-Keeps sys pushes calls r.answer r.recv h h₁ events run)
                (io_rounds-Keeps pushes calls rest h₁))
      ]
