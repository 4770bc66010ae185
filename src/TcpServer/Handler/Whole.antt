-- ===== src/TcpServer/Handler/Whole.antt =====
-- `ServiceExistingConnections` stops early only when there is nothing left to serve.
use c_chat_rooms_app.Base.{
  ℕ, ◌+◌, ◌≤◌, ◌≡◌, refl, sym, ap, ◌∙◌, inl, inr, Bool, List, [], ◌∷◌, ◌++◌, if◌then◌else◌,
  Bool-cases, arith, append_assoc, append-nil,
}
use c_chat_rooms_app.TcpServer.{ConnectionRecord, Callbacks, System}
use c_chat_rooms_app.TcpServer.Handler.{Handler, Received, service, service_existing_connections}
use c_chat_rooms_app.TcpServer.Handler.Serving.{events_at, events_of, kept, ends, count_ready}
use c_chat_rooms_app.TcpServer.Handler.Loop.{service-Serves}

module _ (calls : Callbacks) (ready : ℕ → Bool) (recv : ℕ → Received) (sys : System) where
  open sys use {lists}

  -- Records that are not ready.
  idle_all :
      (rs : List ConnectionRecord)
      → count_ready calls ready recv rs ≡ 0
      → (kept calls ready recv rs ≡ rs) × (events_of calls ready recv rs ≡ [])
  idle_all [] e = (refl, refl)
  idle_all (r ∷ rs) e = elim (Bool-cases (ready r.fd)) [
    | inl busy ↦ absurd (ground (arith, e, busy))
    | inr idle ↦
        let (same, none) = idle_all rs (rw idle at e) in (rw idle (ap (◌∷◌ r) same), rw idle none)
  ]

  count_ready-append :
      (rs ss : List ConnectionRecord)
      → count_ready calls ready recv (rs ++ ss)
        ≡ count_ready calls ready recv rs + count_ready calls ready recv ss
  count_ready-append [] ss = omega arith
  count_ready-append (r ∷ rs) ss = ground (arith, count_ready-append rs ss)

  kept-append :
      (rs ss : List ConnectionRecord)
      → kept calls ready recv (rs ++ ss) ≡ kept calls ready recv rs ++ kept calls ready recv ss
  kept-append [] ss = refl
  kept-append (r ∷ rs) ss = elim (Bool-cases (ends calls ready recv r)) [
    | inl e ↦ rw e (kept-append rs ss)
    | inr e ↦ rw e (ap (◌∷◌ r) (kept-append rs ss))
  ]

  events_of-append :
      (rs ss : List ConnectionRecord)
      → events_of calls ready recv (rs ++ ss)
        ≡ events_of calls ready recv rs ++ events_of calls ready recv ss
  events_of-append [] ss = refl
  events_of-append (r ∷ rs) ss =
      let here = if ready r.fd then events_at calls r (recv r.fd) else [] in
      ap (λ es. here ++ es) (events_of-append rs ss)
      ∙ sym (append_assoc here (events_of calls ready recv rs) (events_of calls ready recv ss))

  -- With a count of at least the number of ready records, nothing is missed.
  service-all :
      (n : ℕ) (h : Handler sys)
      → ((j : ℕ) → h.copy j ≡ ready j)
      → count_ready calls ready recv (lists.items h.connections) ≤ n
      → ((service sys calls recv 0 (lists.items h.connections) n h).1
          ≡ events_of calls ready recv (lists.items h.connections))
        × (lists.items (service sys calls recv 0 (lists.items h.connections) n h).0.connections
            ≡ kept calls ready recv (lists.items h.connections))
  service-all n h c enough =
      let (done, later, split, s, end) =
        service-Serves calls ready recv sys [] (lists.items h.connections) 0 n h refl refl c in
      let none_left : count_ready calls ready recv later ≡ 0 = elim end [
        | inl e ↦ ap (count_ready calls ready recv) e
        | inr e ↦
            let total = ap (count_ready calls ready recv) split ∙ count_ready-append done later in
            omega (arith, total, e, enough)
      ] in
      let (same, quiet) = idle_all later none_left in
      let all_events =
        ap (events_of calls ready recv) split
        ∙ events_of-append done later
        ∙ ap (λ es. events_of calls ready recv done ++ es) quiet
        ∙ append-nil (events_of calls ready recv done) in
      let all_kept =
        ap (kept calls ready recv) split
        ∙ kept-append done later
        ∙ ap (λ rs. kept calls ready recv done ++ rs) same in
      (s.events_are ∙ sym all_events, s.items ∙ sym all_kept)

module _ (sys : System) where
  open sys use {lists}

  -- The loop ends early when it has served as many connections as `select` counted. If the count is
  -- at least the number of the connections that are ready, then nothing is missed: the events are
  -- those of each ready connection once, in the order of the list, and the connections left are
  -- those that are not ready or from which bytes have come.
  pub service_existing_connections-all :
      (calls : Callbacks) (recv : ℕ → Received) (n : ℕ) (h : Handler sys)
      → count_ready calls h.copy recv (lists.items h.connections) ≤ n
      → ((service_existing_connections sys calls recv n h).1
          ≡ events_of calls h.copy recv (lists.items h.connections))
        × (lists.items (service_existing_connections sys calls recv n h).0.connections
            ≡ kept calls h.copy recv (lists.items h.connections))
  unfolding service_existing_connections
  service_existing_connections-all calls recv n h enough =
      service-all calls h.copy recv sys n h (λ j. refl) enough
