-- ===== src/TcpServer/Handler/Loop.antt =====
-- The loop of `ServiceExistingConnections` serves a front part of the list: all of it, or as many ready
-- records as `select` counted.
use c_chat_rooms_app.Base.{
  ℕ, suc, ◌-◌, ◌≡◌, some, refl, sym, ap, ◌∙◌, ◌⊎◌, inl, inr, true, false, Bool, List, [], ◌∷◌, ◌++◌,
  ◌==◌, Bool-cases, arith, length, length-append, append_assoc, Bytes,
}
use c_chat_rooms_app.TcpServer.{ConnectionRecord, Callbacks, System}
use c_chat_rooms_app.TcpServer.Handler.{
  Handler, Received, ended, arrived, clear, service, process_client_data,
}
use c_chat_rooms_app.TcpServer.Handler.Serving.{
  events_at, count_ready, Serves, nothing, Serves-stay, Serves-end,
}

Received-cases : (o : Received) → (o ≡ ended) ⊎ ((bytes : Bytes) × (o ≡ arrived bytes))
Received-cases ended = inl refl
Received-cases (arrived bytes) = inr (bytes, refl)

module _ (calls : Callbacks) (ready : ℕ → Bool) (recv : ℕ → Received) (sys : System) where
  open sys use {lists}

  -- The rounds of the loop: the count is used up, the record is not ready, the connection ends,
  -- bytes have come.
  service-done :
      (r : ConnectionRecord) (todo : List ConnectionRecord) (k n : ℕ) (h : Handler sys)
      → (n == 0) ≡ true
      → service sys calls recv k (r ∷ todo) n h ≡ (h, [])
  unfolding service
  service-done r todo k n h z = rw (service, z) refl

  service-idle :
      (r : ConnectionRecord) (todo : List ConnectionRecord) (k n : ℕ) (h : Handler sys)
      → (n == 0) ≡ false
      → h.copy r.fd ≡ false
      → service sys calls recv k (r ∷ todo) n h ≡ service sys calls recv (suc k) todo n h
  unfolding service
  service-idle r todo k n h nz idle = rw (service, nz, idle) refl

  service-ended :
      (r : ConnectionRecord) (todo : List ConnectionRecord) (k n : ℕ) (h : Handler sys)
      (l : lists.Rep)
      → (n == 0) ≡ false
      → h.copy r.fd ≡ true
      → recv r.fd ≡ ended
      → lists.itr_remove h.connections (lists.itr_at h.connections k) ≡ (some r, l)
      → service sys calls recv k (r ∷ todo) n h ≡ (
          let rest =
            service sys calls recv k todo
              (n - 1)
              (record h { active = clear r.fd h.active; connections = l }) in
          (rest.0, events_at calls r ended ++ rest.1))
  unfolding service process_client_data
  service-ended r todo k n h l nz busy e cut = rw (service, nz, busy, e, cut) refl

  service-arrived :
      (r : ConnectionRecord) (todo : List ConnectionRecord) (k n : ℕ) (h : Handler sys)
      (bytes : Bytes)
      → (n == 0) ≡ false
      → h.copy r.fd ≡ true
      → recv r.fd ≡ arrived bytes
      → service sys calls recv k (r ∷ todo) n h ≡ (
          let rest = service sys calls recv (suc k) todo (n - 1) h in
          (rest.0, events_at calls r (arrived bytes) ++ rest.1))
  unfolding service process_client_data
  service-arrived r todo k n h bytes nz busy e = rw (service, nz, busy, e) refl

  pub service-Serves :
      (front todo : List ConnectionRecord) (k n : ℕ) (h : Handler sys)
      → k ≡ length front
      → lists.items h.connections ≡ front ++ todo
      → ((j : ℕ) → h.copy j ≡ ready j)
      → (done later : List ConnectionRecord) × (todo ≡ done ++ later)
        × Serves calls ready recv sys front done later h
            (service sys calls recv k todo n h).0
            (service sys calls recv k todo n h).1
        × ((later ≡ []) ⊎ (count_ready calls ready recv done ≡ n))
  unfolding service
  service-Serves front [] k n h at e c =
      ([], [], refl, nothing calls ready recv sys front [] h e, inl refl)
  service-Serves front (r ∷ todo) k n h at e c =
      let e' : lists.items h.connections ≡ (front ++ r ∷ []) ++ todo =
        e ∙ sym (append_assoc front (r ∷ []) todo) in
      let at' : suc k ≡ length (front ++ r ∷ []) =
        omega (arith, at, length-append front (r ∷ [])) in
      elim (Bool-cases (n == 0)) [
        | inl z ↦ (
          [],
          r ∷ todo,
          refl,
          rw (service-done r todo k n h z) (nothing calls ready recv sys front (r ∷ todo) h e),
          inr (ground (arith, z)),
        )
        | inr nz ↦ elim (Bool-cases (ready r.fd)) [
          | inr idle ↦
              let (done, later, split, s, end) =
                service-Serves (front ++ r ∷ []) todo (suc k) n h at' e' c in
              (
                r ∷ done,
                later,
                ap (◌∷◌ r) split,
                rw (service-idle r todo k n h nz (c r.fd ∙ idle)) (
                    Serves-stay calls ready recv sys front done later h _ r _ [] (rw idle refl)
                      (rw idle refl) s),
                rw idle end,
              )
          | inl busy ↦ elim (Received-cases (recv r.fd)) [
            | inl closing ↦
                let (l, cut, rest) = lists.itr_at_lem h.connections front r todo e in
                let h₁ : Handler sys = record h { active = clear r.fd h.active; connections = l } in
                let (done, later, split, s, end) =
                  service-Serves front todo k (n - 1) h₁ at rest c in
                (
                  r ∷ done,
                  later,
                  ap (◌∷◌ r) split,
                  rw (service-ended r todo k n h l nz (c r.fd ∙ busy) closing (rw at cut)) (
                      Serves-end calls ready recv sys front done later h _ r l _ _
                        (rw (busy, closing) refl) (rw (busy, closing) refl) s),
                  rw busy (ground (arith, end, nz)),
                )
            | inr (bytes, there) ↦
                let (done, later, split, s, end) =
                  service-Serves (front ++ r ∷ []) todo (suc k) (n - 1) h at' e' c in
                (
                  r ∷ done,
                  later,
                  ap (◌∷◌ r) split,
                  rw (service-arrived r todo k n h bytes nz (c r.fd ∙ busy) there) (
                      Serves-stay calls ready recv sys front done later h _ r _ _
                        (rw (busy, there) refl) (rw (busy, there) refl) s),
                  rw busy (ground (arith, end, nz)),
                )
          ]
        ]
      ]
