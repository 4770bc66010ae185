-- ===== src/TcpServer/Handler/Rounds.antt =====
-- What one round of the worker does to the descriptors that the handler owns.
use c_chat_rooms_app.Base.{
  ℕ, ◌+◌, ◌≡◌, ◌≢◌, refl, ap, ◌∙◌, inl, inr, Bool, false, Option, none, some, List, [], ◌∷◌, ◌++◌,
  ◌==◌, ltb, leb, if◌then◌else◌, to_nat, Bool-cases, arith,
}
use mathlib.Core.Option.{some-injective}
use mathlib.Core.Path.{subst}
use c_chat_rooms_app.TcpServer.{
  ConnectionRecord, Event, Callbacks, System, process_disconnect, notify_new_connection,
}
use c_chat_rooms_app.TcpServer.Handler.{
  Handler, Received, Selected, failed, interrupted, ready, set, update_max_fd, register_record,
  read_pipe, process_new_connection, service_existing_connections, register_new_connections,
  io_round,
}
use c_chat_rooms_app.TcpServer.Handler.Serving.{kept, Serves}
use c_chat_rooms_app.TcpServer.Handler.Loop.{service-Serves}
use c_chat_rooms_app.TcpServer.Handler.Invariant.{
  count_fd, count_pipe, closings, count_fd-append, closings-append, closings-disconnect,
  closings-notify, count_fd-kept, ending-closings, owned, IsValid,
}

module _ (sys : System) where
  open sys use {lists, fd_setsize}

  -- Every `ListPushTail` finds memory.
  abbrev pub Pushes : Type 0
  Pushes = (l : lists.Rep) (r : ConnectionRecord) → (lists.push_tail l r).0 ≢ none

  -- What a step does to the descriptors: each is closed as often as it is given up, and the
  -- book-keeping stays right.
  pub record Keeps (h h' : Handler sys) (events : List Event) : Type 0 where
    pub balance : (j : ℕ) → owned sys h' j + closings j events ≡ owned sys h j
    pub valid : IsValid sys h → IsValid sys h'
    pub state : h'.state ≡ h.state
    pub pipe_read : h'.pipe_read ≡ h.pipe_read

  Serves-Keeps :
      (calls : Callbacks) (flags : ℕ → Bool) (recv : ℕ → Received)
      (done later : List ConnectionRecord) (h h' : Handler sys) (events : List Event)
      → lists.items h.connections ≡ done ++ later
      → Serves calls flags recv sys [] done later h h' events
      → Keeps h h' events
  Serves-Keeps calls flags recv done later h h' events e s =
      let before : (j : ℕ)
          → count_fd j (lists.items h.connections) ≡ count_fd j done + count_fd j later =
        λ j. ap (count_fd j) e ∙ count_fd-append j done later in
      let after : (j : ℕ)
          → count_fd j (lists.items h'.connections)
            ≡ count_fd j (kept calls flags recv done) + count_fd j later =
        λ j. ap (count_fd j) s.items ∙ count_fd-append j (kept calls flags recv done) later in
      let closes : (j : ℕ)
          → count_fd j done ≡ count_fd j (kept calls flags recv done) + closings j events =
        λ j. rw s.events_are (count_fd-kept calls flags recv j done) in
      let gone : (j : ℕ) → h'.active j ≡ (if ltb 0 (closings j events) then false else h.active j) =
        λ j.
          s.active j
          ∙ ap (λ b. if b then false else h.active j)
              (rw s.events_are (ending-closings calls flags recv j done)) in
      record {
        balance = λ j. rw (s.pipe, s.pipe_read) (omega (arith, before j, after j, closes j));
        valid = λ v. record {
          once =
              λ j. rw (s.pipe, s.pipe_read) (omega (arith, before j, after j, closes j, v.once j));
          watched = λ j.
              rw s.pipe_read
                (ground (arith, before j, after j, closes j, gone j, v.watched j, v.once j));
          bound = λ j on. rw s.max_fd (ground (arith, gone j, on, v.bound j));
        };
        state = s.state;
        pipe_read = s.pipe_read;
      }

  pub Keeps-same : (h : Handler sys) (copy : ℕ → Bool) → Keeps h (record h { copy = copy }) []
  Keeps-same h copy = record {
    balance = λ j. omega arith;
    valid = λ v. record { once = v.once; watched = v.watched; bound = v.bound };
    state = refl;
    pipe_read = refl;
  }

  pub Keeps-then :
      (h h₁ h₂ : Handler sys) (es fs : List Event)
      → Keeps h h₁ es
      → Keeps h₁ h₂ fs
      → Keeps h h₂ (es ++ fs)
  Keeps-then h h₁ h₂ es fs a b = record {
    balance = λ j. omega (arith, a.balance j, b.balance j, closings-append j es fs);
    valid = λ v. b.valid (a.valid v);
    state = b.state ∙ a.state;
    pipe_read = b.pipe_read ∙ a.pipe_read;
  }

  -- The NULL of a stop is read.
  Keeps-wake :
      (h : Handler sys) (rest : List (Option ConnectionRecord))
      → h.pipe ≡ none ∷ rest
      → Keeps h (record h { pipe = rest }) []
  Keeps-wake h rest e =
      let less : (j : ℕ) → count_pipe j h.pipe ≡ count_pipe j rest = λ j. ap (count_pipe j) e in
      record {
        balance = λ j. omega (arith, less j);
        valid = λ v. record {
          once = λ j. omega (arith, less j, v.once j);
          watched = v.watched;
          bound = v.bound;
        };
        state = refl;
        pipe_read = refl;
      }

  -- A descriptor too large for an `fd_set` is closed.
  Keeps-refuse :
      (calls : Callbacks) (h : Handler sys) (r : ConnectionRecord)
      (rest : List (Option ConnectionRecord))
      → h.pipe ≡ some r ∷ rest
      → Keeps h (record h { pipe = rest }) (process_disconnect calls r).1
  Keeps-refuse calls h r rest e =
      let less : (j : ℕ) → count_pipe j h.pipe ≡ to_nat (j == r.fd) + count_pipe j rest =
        λ j. ap (count_pipe j) e in
      record {
        balance = λ j. omega (arith, less j, closings-disconnect j calls r);
        valid = λ v. record {
          once = λ j. omega (arith, less j, v.once j);
          watched = v.watched;
          bound = v.bound;
        };
        state = refl;
        pipe_read = refl;
      }

  -- A new connection is registered.
  Keeps-register :
      (calls : Callbacks) (h : Handler sys) (r : ConnectionRecord)
      (rest : List (Option ConnectionRecord)) (l : lists.Rep)
      → h.pipe ≡ some r ∷ rest
      → lists.items l ≡ lists.items h.connections ++ r ∷ []
      → Keeps h
          (record h {
            pipe = rest;
            connections = l;
            active = set r.fd h.active;
            max_fd = update_max_fd h.max_fd r.fd;
          })
          (notify_new_connection calls r)
  Keeps-register calls h r rest l e more =
      let less : (j : ℕ) → count_pipe j h.pipe ≡ to_nat (j == r.fd) + count_pipe j rest =
        λ j. ap (count_pipe j) e in
      let grown : (j : ℕ)
          → count_fd j (lists.items l)
            ≡ count_fd j (lists.items h.connections) + to_nat (j == r.fd) =
        λ j.
          ap (count_fd j) more
          ∙ count_fd-append j (lists.items h.connections) (r ∷ [])
          ∙ omega arith in
      record {
        balance = λ j. omega (arith, less j, grown j, closings-notify j calls r);
        valid = λ v. record {
          once = λ j. omega (arith, less j, grown j, v.once j);
          watched = λ j. ground (arith, grown j, v.watched j);
          bound = λ j on. ground (arith, on, v.bound j);
        };
        state = refl;
        pipe_read = refl;
      }

  module _ (pushes : Pushes) (calls : Callbacks) where
    register_record-Keeps :
        (h : Handler sys) (r : ConnectionRecord) (rest : List (Option ConnectionRecord))
        → h.pipe ≡ some r ∷ rest
        → Keeps h
            (register_record sys calls (record h { pipe = rest }) r).0
            (register_record sys calls (record h { pipe = rest }) r).1
    unfolding register_record
    register_record-Keeps h r rest e = elim (Bool-cases (leb fd_setsize r.fd)) [
      | inl large ↦ rw large (Keeps-refuse calls h r rest e)
      | inr fits ↦ elim (lists.push_tail_lem h.connections r) [
        | inl full ↦ absurd (pushes h.connections r (ap (λ t. t.0) full))
        | inr (i, l, pushed, more) ↦ rw (fits, pushed) (Keeps-register calls h r rest l e more)
      ]
    ]

    read_pipe-Keeps :
        (h : Handler sys) (pipe : List (Option ConnectionRecord))
        → h.pipe ≡ pipe
        → Keeps h (read_pipe sys calls h pipe).0 (read_pipe sys calls h pipe).1
    unfolding read_pipe
    read_pipe-Keeps h [] e = Keeps-same h h.copy
    read_pipe-Keeps h (none ∷ rest) e = Keeps-wake h rest e
    read_pipe-Keeps h (some r ∷ rest) e = register_record-Keeps h r rest e

    register_new_connections-Keeps :
        (n : ℕ) (h : Handler sys)
        → Keeps h
            (register_new_connections sys calls n h).0
            (register_new_connections sys calls n h).1
    unfolding register_new_connections process_new_connection
    register_new_connections-Keeps n h = elim (Bool-cases (h.copy h.pipe_read)) [
      | inl woken ↦ rw woken (read_pipe-Keeps h h.pipe refl)
      | inr quiet ↦ rw quiet (Keeps-same h h.copy)
    ]

    service_existing_connections-Keeps :
        (recv : ℕ → Received) (n : ℕ) (h : Handler sys)
        → Keeps h
            (service_existing_connections sys calls recv n h).0
            (service_existing_connections sys calls recv n h).1
    unfolding service_existing_connections
    service_existing_connections-Keeps recv n h =
        let (done, later, split, s, end) =
          service-Serves calls h.copy recv sys [] (lists.items h.connections) 0 n h refl refl
            (λ j. refl) in
        Serves-Keeps calls h.copy recv done later h _ _ split s

    -- One round of the worker, whatever `select` and `recv` answer, and if `ListPushTail` finds memory:
    -- every descriptor is closed exactly as often as it is given up, so none is leaked and none is
    -- closed twice; no descriptor comes to be owned twice; and `select` goes on watching the pipe and
    -- exactly the registered connections, with a bound above them all.
    pub io_round-Keeps :
        (answer : Selected) (recv : ℕ → Received) (h h' : Handler sys) (events : List Event)
        → io_round sys calls answer recv h ≡ some (h', events)
        → Keeps h h' events
    unfolding io_round
    io_round-Keeps failed recv h h' events e = cc
    io_round-Keeps interrupted recv h h' events e =
        subst (λ t. Keeps h t.0 t.1) (some-injective _ _ e) (Keeps-same h h.active)
    io_round-Keeps (ready n fds) recv h h' events e =
        let h₀ : Handler sys = record h { copy = fds } in
        let a = register_new_connections-Keeps n h₀ in
        let first = Keeps-then h h₀ _ [] _ (Keeps-same h fds) a in
        let b =
          service_existing_connections-Keeps recv (register_new_connections sys calls n h₀).2
            (register_new_connections sys calls n h₀).0 in
        elim (Bool-cases (n == 0)) [
          | inl z ↦ subst (λ t. Keeps h t.0 t.1) (some-injective _ _ (rw z at e)) (Keeps-same h fds)
          | inr nz ↦ elim (Bool-cases (ltb 0 (register_new_connections sys calls n h₀).2)) [
            | inl more ↦
                subst (λ t. Keeps h t.0 t.1) (some-injective _ _ (rw (nz, more) at e))
                  (Keeps-then h _ _ _ _ first b)
            | inr served ↦
                subst (λ t. Keeps h t.0 t.1) (some-injective _ _ (rw (nz, served) at e)) first
          ]
        ]
