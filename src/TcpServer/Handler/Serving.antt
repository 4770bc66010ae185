-- ===== src/TcpServer/Handler/Serving.antt =====
-- What `ServiceExistingConnections` does, against a description that visits every connection.
use c_chat_rooms_app.Base.{
  ℕ, suc, ◌≡◌, refl, ◌∙◌, Bool, true, false, ◌&&◌, ◌||◌, List, [], ◌∷◌, ◌++◌, ◌==◌, if◌then◌else◌,
  arith, append_assoc,
}
use c_chat_rooms_app.TcpServer.{
  ConnectionRecord, Event, Callbacks, System, process_message, process_disconnect,
}
use c_chat_rooms_app.TcpServer.Handler.{Handler, Received, ended, arrived, clear}

-- The events of a record whose descriptor is ready.
abbrev pub events_at : Callbacks → ConnectionRecord → Received → List Event
events_at calls r ended = (process_disconnect calls r).1
events_at calls r (arrived bytes) = (process_message calls r bytes).1

abbrev pub is_ended : Received → Bool
is_ended ended = true
is_ended (arrived bytes) = false

module _ (calls : Callbacks) (ready : ℕ → Bool) (recv : ℕ → Received) where
  -- Whether a record is ready and its connection ends.
  abbrev pub ends : ConnectionRecord → Bool
  ends r = ready r.fd && is_ended (recv r.fd)

  -- The events of the records, each ready one served once.
  abbrev pub events_of : List ConnectionRecord → List Event
  events_of [] = []
  events_of (r ∷ rs) = (if ready r.fd then events_at calls r (recv r.fd) else []) ++ events_of rs

  -- The records that stay.
  abbrev pub kept : List ConnectionRecord → List ConnectionRecord
  kept [] = []
  kept (r ∷ rs) = if ends r then kept rs else r ∷ kept rs

  -- Whether a descriptor is that of a record that ends.
  abbrev pub ending : ℕ → List ConnectionRecord → Bool
  ending j [] = false
  ending j (r ∷ rs) = (ends r && (j == r.fd)) || ending j rs

  abbrev pub count_ready : List ConnectionRecord → ℕ
  count_ready [] = 0
  count_ready (r ∷ rs) = if ready r.fd then suc (count_ready rs) else count_ready rs

  module _ (sys : System) where
    open sys use {lists}

    -- What serving the records `done` does to a handler that has the records `front` before them and
    -- `later` after them.
    pub record Serves (front done later : List ConnectionRecord) (h h' : Handler sys)
        (events : List Event) : Type 0 where
      pub items : lists.items h'.connections ≡ front ++ (kept done ++ later)
      pub events_are : events ≡ events_of done
      pub active : (j : ℕ) → h'.active j ≡ (if ending j done then false else h.active j)
      pub state : h'.state ≡ h.state
      pub max_fd : h'.max_fd ≡ h.max_fd
      pub copy : h'.copy ≡ h.copy
      pub pipe : h'.pipe ≡ h.pipe
      pub pipe_read : h'.pipe_read ≡ h.pipe_read

    pub nothing :
        (front later : List ConnectionRecord) (h : Handler sys)
        → lists.items h.connections ≡ front ++ later
        → Serves front [] later h h []
    nothing front later h e = record {
      items = e;
      events_are = refl;
      active = λ j. refl;
      state = refl;
      max_fd = refl;
      copy = refl;
      pipe = refl;
      pipe_read = refl;
    }

    -- A record that stays.
    pub Serves-stay :
        (front done later : List ConnectionRecord) (h h' : Handler sys) (r : ConnectionRecord)
        (events before : List Event)
        → ends r ≡ false
        → before ≡ (if ready r.fd then events_at calls r (recv r.fd) else [])
        → Serves (front ++ r ∷ []) done later h h' events
        → Serves front (r ∷ done) later h h' (before ++ events)
    Serves-stay front done later h h' r events before e b s = record {
      items = rw e (s.items ∙ append_assoc front (r ∷ []) (kept done ++ later));
      events_are = rw (b, s.events_are) refl;
      active = λ j. rw e (s.active j);
      state = s.state;
      max_fd = s.max_fd;
      copy = s.copy;
      pipe = s.pipe;
      pipe_read = s.pipe_read;
    }

    -- A record whose connection ends.
    pub Serves-end :
        (front done later : List ConnectionRecord) (h h' : Handler sys) (r : ConnectionRecord)
        (l : lists.Rep) (events before : List Event)
        → ends r ≡ true
        → before ≡ (if ready r.fd then events_at calls r (recv r.fd) else [])
        → Serves front done later
            (record h { active = clear r.fd h.active; connections = l })
            h'
            events
        → Serves front (r ∷ done) later h h' (before ++ events)
    Serves-end front done later h h' r l events before e b s = record {
      items = rw e s.items;
      events_are = rw (b, s.events_are) refl;
      active = λ j. ground (arith, s.active j, e);
      state = s.state;
      max_fd = s.max_fd;
      copy = s.copy;
      pipe = s.pipe;
      pipe_read = s.pipe_read;
    }
