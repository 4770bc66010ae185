-- ===== src/UserManager/View.antt =====
-- The state of the user manager, seen as the live objects and the two maps as functions.
use c_chat_rooms_app.Base.{
  ℕ, suc, ◌≤◌, ◌<◌, ◌≡◌, ◌≢◌, inl, inr, Option, none, some, [], if◌then◌else◌, Option-cases, arith,
  Bytes, ℤ, negsuc,
}
use c_chat_rooms_app.DList.{DList}
use c_chat_rooms_app.Heap.{update}
use c_chat_rooms_app.Keys.{equal_names, equal_names_iff, equal_fds, equal_fds_iff}
use c_chat_rooms_app.User.{User, UserState}
use c_chat_rooms_app.User.Groups.{IsDistinct, names_of}

module _ (lists : DList Bytes) where
  -- `next` bounds the live addresses; `by_name` and `by_fd` are what the maps give.
  pub record IsView (next : ℕ) (cell : ℕ → Option (User lists)) (by_name : Bytes → Option ℕ)
      (by_fd : ℤ → Option ℕ) : Type 0 where
    pub live : (p : ℕ) (u : User lists) → cell p ≡ some u → p < next
    -- Every object is registered under its name, and every name leads to its object.
    pub registered : (p : ℕ) (u : User lists) → cell p ≡ some u → by_name u.username ≡ some p
    pub named : (n : Bytes) (p : ℕ) → by_name n ≡ some p → cell p ≢ none
    pub named_as :
        (n : Bytes) (p : ℕ) (u : User lists) → by_name n ≡ some p → cell p ≡ some u → u.username ≡ n
    -- A connection leads to an online user that records it, and every online user is found so.
    pub connected : (fd : ℤ) (p : ℕ) → by_fd fd ≡ some p → cell p ≢ none
    pub connected_as :
        (fd : ℤ) (p : ℕ) (u : User lists)
        → by_fd fd ≡ some p
        → cell p ≡ some u
        → (u.fd_connection ≡ fd) × (u.state ≡ UserState.online)
    pub online :
        (p : ℕ) (u : User lists)
        → cell p ≡ some u
        → u.state ≡ UserState.online
        → by_fd u.fd_connection ≡ some p
    -- A user that is offline is in no group, and nobody is in one group twice.
    pub idle :
        (p : ℕ) (u : User lists)
        → cell p ≡ some u
        → u.state ≡ UserState.offline
        → names_of lists u.groups ≡ []
    pub distinct : (p : ℕ) (u : User lists) → cell p ≡ some u → IsDistinct (names_of lists u.groups)

  module _ {next : ℕ} {cell : ℕ → Option (User lists)} {by_name : Bytes → Option ℕ}
      {by_fd : ℤ → Option ℕ} (v : IsView next cell by_name by_fd) where
    pub named-lt : (n : Bytes) (p : ℕ) → by_name n ≡ some p → p < next
    named-lt n p h = elim (Option-cases (cell p)) [
      | inl dead ↦ absurd (v.named n p h dead)
      | inr (u, e) ↦ v.live p u e
    ]

    pub connected-lt : (fd : ℤ) (p : ℕ) → by_fd fd ≡ some p → p < next
    connected-lt fd p h = elim (Option-cases (cell p)) [
      | inl dead ↦ absurd (v.connected fd p h dead)
      | inr (u, e) ↦ v.live p u e
    ]

    -- Changing only the groups of an online user.
    pub put-IsView :
        (p : ℕ) (u : User lists) (g : Option lists.Rep)
        → cell p ≡ some u
        → u.state ≡ UserState.online
        → IsDistinct (names_of lists g)
        → IsView next (update cell p (some (record u { groups = g }))) by_name by_fd
    put-IsView p u g e on d = record {
      live = λ q w h. ground (arith, v.live q w, v.live p u e);
      registered = λ q w h. ground (arith, v.registered q w, v.registered p u e);
      named = λ n q h. ground (arith, v.named n q h);
      named_as = λ n q w h k. ground (arith, v.named_as n q w h, v.named_as n q u h);
      connected = λ fd q h. ground (arith, v.connected fd q h);
      connected_as = λ fd q w h k. ground (arith, v.connected_as fd q w h, v.connected_as fd q u h);
      online = λ q w h s. ground (arith, v.online q w, v.online p u e);
      idle = λ q w h s. ground (arith, v.idle q w);
      distinct = λ q w h. ground (arith, v.distinct q w);
    }

    -- A new connection for a user that is offline, whether or not the map takes it.
    pub move-IsView :
        (p : ℕ) (u : User lists) (fd : ℤ)
        → cell p ≡ some u
        → u.state ≡ UserState.offline
        → IsView next (update cell p (some (record u { fd_connection = fd }))) by_name by_fd
    move-IsView p u fd e off = record {
      live = λ q w h. ground (arith, v.live q w, v.live p u e);
      registered = λ q w h. ground (arith, v.registered q w, v.registered p u e);
      named = λ n q h. ground (arith, v.named n q h);
      named_as = λ n q w h k. ground (arith, v.named_as n q w h, v.named_as n q u h);
      connected = λ j q h. ground (arith, v.connected j q h);
      connected_as = λ j q w h k. ground (arith, v.connected_as j q w h, v.connected_as j q u h);
      online = λ q w h s. ground (arith, v.online q w);
      idle = λ q w h s. ground (arith, v.idle q w, v.idle p u e off);
      distinct = λ q w h. ground (arith, v.distinct q w, v.distinct p u e);
    }

    -- A login: an offline user goes online on a connection that nobody has.
    pub login-IsView :
        (p : ℕ) (u : User lists) (fd : ℤ) (by_fd' : ℤ → Option ℕ)
        → cell p ≡ some u
        → u.state ≡ UserState.offline
        → by_fd fd ≡ none
        → ((j : ℤ) → by_fd' j ≡ (if equal_fds j fd then some p else by_fd j))
        → IsView next
            (update cell p (some (record u { fd_connection = fd; state = UserState.online })))
            by_name
            by_fd'
    login-IsView p u fd by_fd' e off free reads = record {
      live = λ q w h. ground (arith, v.live q w, v.live p u e);
      registered = λ q w h. ground (arith, v.registered q w, v.registered p u e);
      named = λ n q h. ground (arith, v.named n q h);
      named_as = λ n q w h k. ground (arith, v.named_as n q w h, v.named_as n q u h);
      connected = λ j q h. ground (arith, reads j, v.connected j q);
      connected_as = λ j q w h k.
          ground (arith, reads j, equal_fds_iff j fd, v.connected_as j q w, v.connected_as j q u);
      online = λ q w h s. ground (
        arith,
        reads w.fd_connection,
        equal_fds_iff w.fd_connection fd,
        reads fd,
        equal_fds_iff fd fd,
        v.online q w,
      );
      idle = λ q w h s. ground (arith, v.idle q w);
      distinct = λ q w h. ground (arith, v.distinct q w, v.distinct p u e);
    }

    -- A logout: the user of a connection leaves its groups, and the connection its map.
    pub logout-IsView :
        (p : ℕ) (u : User lists) (fd : ℤ) (by_fd' : ℤ → Option ℕ)
        → cell p ≡ some u
        → by_fd fd ≡ some p
        → ((j : ℤ) → by_fd' j ≡ (if equal_fds j fd then none else by_fd j))
        → IsView next
            (update cell p (
              some
                (record u { groups = none; state = UserState.offline; fd_connection = negsuc 0 })))
            by_name
            by_fd'
    unfolding names_of
    logout-IsView p u fd by_fd' e bound reads = record {
      live = λ q w h. ground (arith, v.live q w, v.live p u e);
      registered = λ q w h. ground (arith, v.registered q w, v.registered p u e);
      named = λ n q h. ground (arith, v.named n q h);
      named_as = λ n q w h k. ground (arith, v.named_as n q w h, v.named_as n q u h);
      connected = λ j q h. ground (arith, reads j, v.connected j q);
      connected_as = λ j q w h k. ground (
        arith,
        reads j,
        equal_fds_iff j fd,
        v.connected_as j q w,
        v.connected_as j q u,
        v.connected_as fd p u bound e,
      );
      online = λ q w h s.
          ground (arith, reads w.fd_connection, equal_fds_iff w.fd_connection fd, v.online q w);
      idle = λ q w h s. ground (arith, v.idle q w);
      distinct = λ q w h. ground (arith, v.distinct q w);
    }

    -- A registration: a new object under a new name, online on a connection that nobody has.
    pub add-IsView :
        (u : User lists) (by_name' : Bytes → Option ℕ) (by_fd' : ℤ → Option ℕ)
        → u.state ≡ UserState.online
        → u.groups ≡ none
        → by_name u.username ≡ none
        → by_fd u.fd_connection ≡ none
        → ((n : Bytes) → by_name' n ≡ (if equal_names n u.username then some next else by_name n))
        → ((j : ℤ) → by_fd' j ≡ (if equal_fds j u.fd_connection then some next else by_fd j))
        → IsView (suc next) (update cell next (some u)) by_name' by_fd'
    unfolding names_of
    add-IsView u by_name' by_fd' on bare free_name free_fd names fds = record {
      live = λ q w h. ground (arith, v.live q w);
      registered = λ q w h. ground (
        arith,
        names w.username,
        names u.username,
        equal_names_iff w.username u.username,
        equal_names_iff u.username u.username,
        v.registered q w,
      );
      named = λ n q h. ground (arith, names n, v.named n q);
      named_as = λ n q w h k.
          ground (arith, names n, equal_names_iff n u.username, v.named_as n q w, named-lt n q);
      connected = λ j q h. ground (arith, fds j, v.connected j q);
      connected_as = λ j q w h k.
          ground
            (arith, fds j, equal_fds_iff j u.fd_connection, v.connected_as j q w, connected-lt j q);
      online = λ q w h s. ground (
        arith,
        fds w.fd_connection,
        fds u.fd_connection,
        equal_fds_iff w.fd_connection u.fd_connection,
        equal_fds_iff u.fd_connection u.fd_connection,
        v.online q w,
      );
      idle = λ q w h s. ground (arith, v.idle q w);
      distinct = λ q w h. ground (arith, v.distinct q w);
    }

    -- The death of an object, with its entries in the maps.
    pub remove-IsView :
        (p : ℕ) (u : User lists) (fd : ℤ) (by_name' : Bytes → Option ℕ) (by_fd' : ℤ → Option ℕ)
        → cell p ≡ some u
        → by_fd fd ≡ some p
        → ((n : Bytes) → by_name' n ≡ (if equal_names n u.username then none else by_name n))
        → ((j : ℤ) → by_fd' j ≡ (if equal_fds j fd then none else by_fd j))
        → IsView next (update cell p none) by_name' by_fd'
    remove-IsView p u fd by_name' by_fd' e bound names fds = record {
      live = λ q w h. ground (arith, v.live q w);
      registered = λ q w h. ground (
        arith,
        names w.username,
        equal_names_iff w.username u.username,
        v.registered q w,
        v.registered p u e,
      );
      named = λ n q h.
          ground (arith, names n, equal_names_iff n u.username, v.named n q, v.named_as n q u);
      named_as = λ n q w h k. ground (arith, names n, v.named_as n q w);
      connected = λ j q h. ground (
        arith,
        fds j,
        equal_fds_iff j fd,
        v.connected j q,
        v.connected_as j q u,
        v.connected_as fd p u bound e,
      );
      connected_as = λ j q w h k. ground (arith, fds j, v.connected_as j q w);
      online = λ q w h s.
          ground (arith, fds w.fd_connection, equal_fds_iff w.fd_connection fd, v.online q w);
      idle = λ q w h s. ground (arith, v.idle q w);
      distinct = λ q w h. ground (arith, v.distinct q w);
    }

    -- Only what the functions give matters, and the bound may grow.
    pub IsView-congr :
        (next' : ℕ) (cell' : ℕ → Option (User lists)) (by_name' : Bytes → Option ℕ)
        (by_fd' : ℤ → Option ℕ)
        → next ≤ next'
        → ((p : ℕ) → cell' p ≡ cell p)
        → ((n : Bytes) → by_name' n ≡ by_name n)
        → ((j : ℤ) → by_fd' j ≡ by_fd j)
        → IsView next' cell' by_name' by_fd'
    IsView-congr next' cell' by_name' by_fd' l cells names fds = record {
      live = λ q w h. ground (arith, cells q, v.live q w);
      registered = λ q w h. ground (arith, cells q, names w.username, v.registered q w);
      named = λ n q h. ground (arith, names n, cells q, v.named n q);
      named_as = λ n q w h k. ground (arith, names n, cells q, v.named_as n q w);
      connected = λ j q h. ground (arith, fds j, cells q, v.connected j q);
      connected_as = λ j q w h k. ground (arith, fds j, cells q, v.connected_as j q w);
      online = λ q w h s. ground (arith, cells q, fds w.fd_connection, v.online q w);
      idle = λ q w h s. ground (arith, cells q, v.idle q w);
      distinct = λ q w h. ground (arith, cells q, v.distinct q w);
    }
