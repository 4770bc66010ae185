-- ===== src/TcpServer/Handler/Invariant.antt =====
-- The descriptors that a handler owns, and when its book-keeping for `select` is right.
use c_chat_rooms_app.Base.{
  ℕ, ◌+◌, ◌≡◌, refl, Bool, Option, none, some, List, [], ◌∷◌, ◌++◌, ◌==◌, ◌&&◌, ltb, if◌then◌else◌,
  to_nat, arith, Bytes, ◌≤◌, true,
}
use c_chat_rooms_app.TcpServer.{
  ConnectionRecord, Event, closed, Callbacks, process_message, process_disconnect, destroy_record,
  notify_new_connection, System,
}
use c_chat_rooms_app.TcpServer.Handler.{Received, ended, arrived, Handler}
use c_chat_rooms_app.TcpServer.Handler.Serving.{events_at, is_ended, events_of, kept, ending}

-- How often a descriptor stands in a list of records, in a pipe, and how often it is closed.
abbrev pub count_fd : ℕ → List ConnectionRecord → ℕ
count_fd j [] = 0
count_fd j (r ∷ rs) = to_nat (j == r.fd) + count_fd j rs

abbrev pub count_pipe : ℕ → List (Option ConnectionRecord) → ℕ
count_pipe j [] = 0
count_pipe j (none ∷ rs) = count_pipe j rs
count_pipe j (some r ∷ rs) = to_nat (j == r.fd) + count_pipe j rs

abbrev pub closings : ℕ → List Event → ℕ
closings j [] = 0
closings j (closed k ∷ events) = to_nat (j == k) + closings j events
closings j (_ ∷ events) = closings j events

pub count_fd-append :
    (j : ℕ) (rs ss : List ConnectionRecord) → count_fd j (rs ++ ss) ≡ count_fd j rs + count_fd j ss
count_fd-append j [] ss = omega arith
count_fd-append j (r ∷ rs) ss = omega (arith, count_fd-append j rs ss)

pub count_pipe-append :
    (j : ℕ) (rs ss : List (Option ConnectionRecord))
    → count_pipe j (rs ++ ss) ≡ count_pipe j rs + count_pipe j ss
count_pipe-append j [] ss = omega arith
count_pipe-append j (none ∷ rs) ss = count_pipe-append j rs ss
count_pipe-append j (some r ∷ rs) ss = omega (arith, count_pipe-append j rs ss)

pub closings-append :
    (j : ℕ) (es fs : List Event) → closings j (es ++ fs) ≡ closings j es + closings j fs
closings-append j [] fs = omega arith
closings-append j (Event.connected r ∷ es) fs = closings-append j es fs
closings-append j (Event.received r b ∷ es) fs = closings-append j es fs
closings-append j (Event.disconnected r ∷ es) fs = closings-append j es fs
closings-append j (closed k ∷ es) fs = omega (arith, closings-append j es fs)

pub closings-disconnect :
    (j : ℕ) (calls : Callbacks) (r : ConnectionRecord)
    → closings j (process_disconnect calls r).1 ≡ to_nat (j == r.fd)
unfolding process_disconnect destroy_record
closings-disconnect j calls r = ground arith

closings-message :
    (j : ℕ) (calls : Callbacks) (r : ConnectionRecord) (bytes : Bytes)
    → closings j (process_message calls r bytes).1 ≡ 0
unfolding process_message
closings-message j calls r [] = refl
closings-message j calls r (b ∷ bytes) = ground arith

pub closings-notify :
    (j : ℕ) (calls : Callbacks) (r : ConnectionRecord)
    → closings j (notify_new_connection calls r) ≡ 0
unfolding notify_new_connection
closings-notify j calls r = ground arith

closings-events_at :
    (j : ℕ) (calls : Callbacks) (r : ConnectionRecord) (o : Received)
    → closings j (events_at calls r o) ≡ to_nat (is_ended o && (j == r.fd))
closings-events_at j calls r ended = closings-disconnect j calls r
closings-events_at j calls r (arrived bytes) = closings-message j calls r bytes

module _ (calls : Callbacks) (ready : ℕ → Bool) (recv : ℕ → Received) where
  -- What one pass over the records closes is what it takes out.
  pub count_fd-kept :
      (j : ℕ) (rs : List ConnectionRecord)
      → count_fd j rs
        ≡ count_fd j (kept calls ready recv rs) + closings j (events_of calls ready recv rs)
  count_fd-kept j [] = refl
  count_fd-kept j (r ∷ rs) =
      let rest = count_fd-kept j rs in
      let here = closings-events_at j calls r (recv r.fd) in
      let both =
        closings-append j (if ready r.fd then events_at calls r (recv r.fd) else [])
          (events_of calls ready recv rs) in
      ground (arith, rest, here, both)

  pub ending-closings :
      (j : ℕ) (rs : List ConnectionRecord)
      → ending calls ready recv j rs ≡ ltb 0 (closings j (events_of calls ready recv rs))
  ending-closings j [] = refl
  ending-closings j (r ∷ rs) =
      let rest = ending-closings j rs in
      let here = closings-events_at j calls r (recv r.fd) in
      let both =
        closings-append j (if ready r.fd then events_at calls r (recv r.fd) else [])
          (events_of calls ready recv rs) in
      ground (arith, rest, here, both)

module _ (sys : System) where
  open sys use {lists}

  -- How often a descriptor is the pipe's reading end, a registered connection, or on its way.
  abbrev pub owned : Handler sys → ℕ → ℕ
  owned h j =
      to_nat (j == h.pipe_read) + count_fd j (lists.items h.connections) + count_pipe j h.pipe

  -- No descriptor is owned twice, `select` watches the pipe and exactly the registered connections,
  -- and the bound that it gets is above all of them.
  pub record IsValid (h : Handler sys) : Type 0 where
    pub once : (j : ℕ) → owned h j ≤ 1
    pub watched :
        (j : ℕ)
        → h.active j ≡ ltb 0 (to_nat (j == h.pipe_read) + count_fd j (lists.items h.connections))
    pub bound : (j : ℕ) → h.active j ≡ true → j ≤ h.max_fd
