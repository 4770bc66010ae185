-- ===== src/ServerManager/Runs.antt =====
-- What a sequence of messages and disconnections can do to a server, in whatever order they come.
use c_chat_rooms_app.Base.{
  ℕ, ◌^◌, ◌≤◌, ◌<◌, ◌≡◌, refl, sym, ◌∙◌, inl, inr, some, ◌>>=◌, Option-cases, Bytes, ℤ, length,
}
use mathlib.Core.Option.{some-injective}
use mathlib.Core.Path.{subst}
use c_chat_rooms_app.Heap
use c_chat_rooms_app.Heap.{sum_below}
use c_chat_rooms_app.Keys.{Library}
use c_chat_rooms_app.HashMap.{lookup}
use c_chat_rooms_app.User.{Memory}
use c_chat_rooms_app.User.Groups.{Pushes}
use c_chat_rooms_app.UserManager
use c_chat_rooms_app.UserManager.Invariant.{new-IsValid}
use c_chat_rooms_app.UserManager.Members.{members}
use c_chat_rooms_app.GroupManager
use c_chat_rooms_app.Protocol.{ChatMessage, chat_max_value}
use c_chat_rooms_app.ServerManager.{ServerManager, Reply, create, callback_disconnect}
use c_chat_rooms_app.ServerManager.Counted.{IsValid, ref_of}
use c_chat_rooms_app.ServerManager.Sessions.{callback_disconnect-IsValid}
use c_chat_rooms_app.ServerManager.Receiving.{
  callback_recv, Received, malformed, unhandled, acted, callback_recv-Received,
}

module _ (lib : Library) where
  open lib use {lists, names, fds}

  -- One message that `ServerManagerCallbackRecv` gets, or one disconnection.
  pub data Step (s s' : ServerManager lib) : Type 0 where
    receives :
        (mem : Memory) (stack : ChatMessage) (fd : ℤ) (buf : Bytes) (n : ℕ) (reply : Reply)
        → n ≤ length buf
        → length stack.value ≡ chat_max_value
        → callback_recv lib s mem stack fd buf n ≡ some (reply, s')
        → Step s s'
    disconnects : (fd : ℤ) → callback_disconnect lib s fd ≡ some s' → Step s s'

  -- The servers that steps lead to; a step is a call that returns, while fewer than 2^64 users have been made.
  pub data Reachable : ServerManager lib → Type 0 where
    start : {s : ServerManager lib} → create lib ≡ some s → Reachable s
    next :
        {s s' : ServerManager lib}
        → Reachable s
        → s.users.users.next < 2 ^ 64
        → Step s s'
        → Reachable s'

  Received-IsValid :
      (s : ServerManager lib) (mem : Memory) (fd : ℤ) (code : ℕ) (m : ChatMessage) (reply : Reply)
      (s' : ServerManager lib)
      → IsValid lib s
      → Received lib s mem fd code m (some (reply, s'))
      → IsValid lib s'
  Received-IsValid s mem fd code m _ _ v (malformed bad) = v
  Received-IsValid s mem fd code m _ _ v (unhandled ok none_such) = v
  Received-IsValid s mem fd code m _ _ v (acted a reply s' ok there run w) = w

  empty-IsValid :
      (by_name : names.Map) (by_fd : fds.Map)
      → names.create 10 ≡ some by_name
      → fds.create 10 ≡ some by_fd
      → IsValid lib (record {
        users = record { users = Heap.empty; by_name = by_name; by_fd = by_fd };
        groups = record { objects = Heap.empty; groups = by_name };
      })
  unfolding Heap.empty lookup ref_of members sum_below
  empty-IsValid by_name by_fd a b = record {
    users = unfold Heap.empty in new-IsValid lib by_name by_fd a b;
    groups = record {
      live = λ p g e. cc;
      registered = λ p g e. cc;
      named = λ n p e. cc (rw (names.entries-create 10 by_name a) at e);
      named_as = λ n p g e c. cc;
      short = λ p g e. cc;
      low = λ p g e. cc;
      high = λ p g e. cc;
    };
    counts = record {
      counted = λ n. rw (names.entries-create 10 by_name a, ◌>>=◌) refl;
      used = λ n g e. cc (rw (names.entries-create 10 by_name a, ◌>>=◌) at e);
    };
  }

  -- A new server has no users and no groups.
  create-IsValid : (s : ServerManager lib) → create lib ≡ some s → IsValid lib s
  unfolding create UserManager.create GroupManager.create
  create-IsValid s e = elim (Option-cases (names.create 10)) [
    | inl out ↦ cc (rw (out, ◌>>=◌) at e)
    | inr (by_name, a) ↦ elim (Option-cases (fds.create 10)) [
      | inl out ↦ cc (rw (a, ◌>>=◌, out) at e)
      | inr (by_fd, b) ↦
          subst (IsValid lib) (some-injective _ _ (rw (a, ◌>>=◌, b) at e))
            (empty-IsValid by_name by_fd a b)
    ]
  ]

  module _ (pushes : Pushes lists) where
    Step-IsValid :
        (s s' : ServerManager lib)
        → s.users.users.next < 2 ^ 64
        → IsValid lib s
        → Step s s'
        → IsValid lib s'
    Step-IsValid s s' few v (receives mem stack fd buf n reply given full e) =
        let (code, m, decoded, r) =
          callback_recv-Received lib pushes s mem stack fd buf n few given full v in
        Received-IsValid s mem fd code m reply s' v (subst (Received lib s mem fd code m) e r)
    Step-IsValid s s' few v (disconnects fd e) =
        let (t, run, out, w) = callback_disconnect-IsValid lib s fd v in
        subst (IsValid lib) (some-injective _ _ (sym run ∙ e)) w

    -- Whatever bytes the clients send, in whatever order they and the disconnections come, and
    -- whatever allocations fail but those of `ListPushTail`, as long as no request's strings run past
    -- its array and fewer than 2^64 users are made, a server that began empty is well formed: the
    -- users are found by their names and exactly the online ones by their connections, and the
    -- count of every group is the number of the users that are in it, so that a group is there
    -- exactly as long as it has members.
    pub Reachable-IsValid : (s : ServerManager lib) → Reachable s → IsValid lib s
    Reachable-IsValid s (start e) = create-IsValid s e
    Reachable-IsValid s' (next {s = s} r few step) =
        Step-IsValid s s' few (Reachable-IsValid s r) step
