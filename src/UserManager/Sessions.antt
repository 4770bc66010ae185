-- ===== src/UserManager/Sessions.antt =====
-- `UserManager_Login` and `UserManager_Logout`.
use c_chat_rooms_app.Base.{
  ℕ, ◌≡◌, ◌≢◌, ◌⊎◌, inl, inr, none, some, ◌>>=◌, Option-cases, Bool-cases, arith, Bytes, ℤ, negsuc,
  str_eq, str_eq_iff,
}
use c_chat_rooms_app.HashMap.{MapResult, Inserts, Removes}
use c_chat_rooms_app.Heap
use c_chat_rooms_app.Keys.{Library, fd_key, equal_fds_iff}
use c_chat_rooms_app.User
use c_chat_rooms_app.User.{User, UserState}
use c_chat_rooms_app.UserManager.{
  UserManager, UserManagerResult, login, login_on, login_user, logout, logout_user, logged_out,
}
use c_chat_rooms_app.UserManager.View.{move-IsView, login-IsView, logout-IsView}
use c_chat_rooms_app.UserManager.Invariant.{
  IsValid, names_at, fds_at, user_by_fd-at, user_by_name-at, fds_at_cases, names_at_cases,
  state_cases,
}

module _ (lib : Library) where
  open lib use {lists, names, fds, char_signed}

  -- The map by connection does not take the user at `p`.
  abbrev pub Untakable : UserManager lib → ℤ → ℕ → Type 0
  Untakable m fd p =
      ((q : ℕ) × (fds_at lib m fd ≡ some q))
      ⊎ (fds_at lib m fd ≡ none) × (fds.insert m.by_fd fd p ≡ (MapResult.allocation_error, m.by_fd))

  -- What a login of `name` on `fd` may do to the manager `m`.
  pub data Login (m : UserManager lib) (fd : ℤ) (name password : Bytes)
      : UserManagerResult → UserManager lib → Type 0 where
    unknown : names_at lib m name ≡ none → Login m fd name password UserManagerResult.not_found m
    already :
        (p : ℕ) (u : User lists)
        → names_at lib m name ≡ some p
        → m.users.cell p ≡ some u
        → u.state ≡ UserState.online
        → Login m fd name password UserManagerResult.already_log m
    wrong :
        (p : ℕ) (u : User lists)
        → names_at lib m name ≡ some p
        → m.users.cell p ≡ some u
        → u.state ≡ UserState.offline
        → u.password ≢ password
        → Login m fd name password UserManagerResult.bad_creds m
    -- Somebody is on the connection, or the map by connection has no memory for it: the user stays
    -- offline with the new number.
    refused :
        (p : ℕ) (u : User lists)
        → names_at lib m name ≡ some p
        → m.users.cell p ≡ some u
        → u.state ≡ UserState.offline
        → u.password ≡ password
        → Untakable m fd p
        → Login m fd name password UserManagerResult.internal_error
            (record m { users = Heap.write m.users p (record u { fd_connection = fd }) })
    accepted :
        (p : ℕ) (u : User lists) (by_fd : fds.Map)
        → names_at lib m name ≡ some p
        → m.users.cell p ≡ some u
        → u.state ≡ UserState.offline
        → u.password ≡ password
        → fds_at lib m fd ≡ none
        → Inserts fd_key fd p (fds.entries m.by_fd) (fds.entries by_fd)
        → Login m fd name password UserManagerResult.success (record m {
          users = Heap.write m.users p (record u { fd_connection = fd; state = UserState.online });
          by_fd = by_fd;
        })

  -- A login keeps the manager well formed, whatever it does.
  pub Login-IsValid :
      {m : UserManager lib} {fd : ℤ} {name password : Bytes} {r : UserManagerResult}
      {m' : UserManager lib}
      → IsValid lib m
      → Login m fd name password r m'
      → IsValid lib m'
  unfolding Heap.write
  Login-IsValid v (unknown e) = v
  Login-IsValid v (already p u e c on) = v
  Login-IsValid v (wrong p u e c off d) = v
  Login-IsValid {fd = fd} v (refused p u e c off same why) = move-IsView lists v p u fd c off
  Login-IsValid {fd = fd} v (accepted p u by_fd e c off same free ins) =
      login-IsView lists v p u fd _ c off free ins.reads

  login_on-Login :
      (m : UserManager lib) (fd : ℤ) (name password : Bytes) (p : ℕ) (u : User lists)
      → names_at lib m name ≡ some p
      → m.users.cell p ≡ some u
      → u.state ≡ UserState.offline
      → u.password ≡ password
      → (r : UserManagerResult) × (m' : UserManager lib) × (login_on lib m p u fd ≡ some (r, m'))
        × Login m fd name password r m'
  unfolding login_on User.set_fd_connection User.set_state
  login_on-Login m fd name password p u e c off same = elim (Option-cases (fds_at lib m fd)) [
    | inr (q, taken) ↦ (
      UserManagerResult.internal_error,
      _,
      rw (fds.insert_duplicate m.by_fd fd p q taken),
      refused p u e c off same (inl (q, taken)),
    )
    | inl free ↦ elim (fds.insert_fresh m.by_fd fd p free) [
      | inl full ↦ (
        UserManagerResult.internal_error,
        _,
        rw full,
        refused p u e c off same (inr (free, full)),
      )
      | inr (by_fd, run, ins) ↦
          (UserManagerResult.success, _, rw run, accepted p u by_fd e c off same free ins)
    ]
  ]

  login_user-Login :
      (m : UserManager lib) (fd : ℤ) (name password : Bytes) (p : ℕ) (u : User lists)
      → names_at lib m name ≡ some p
      → m.users.cell p ≡ some u
      → (r : UserManagerResult) × (m' : UserManager lib) × (login_user lib m p u fd password
          ≡ some (r, m'))
        × Login m fd name password r m'
  unfolding login_user
  login_user-Login m fd name password p u e c = elim (state_cases lib u) [
    | inl (on, test) ↦ (UserManagerResult.already_log, m, rw test, already p u e c on)
    | inr (off, test) ↦ elim (Bool-cases (str_eq u.password password)) [
      | inr differs ↦ (
        UserManagerResult.bad_creds,
        m,
        rw (test, differs),
        wrong p u e c off (ground (arith, str_eq_iff u.password password)),
      )
      | inl same ↦
          rw (test, same)
            (login_on-Login m fd name password p u e c off
              ((str_eq_iff u.password password).0 same))
    ]
  ]

  -- `UserManager_Login` on a well-formed manager reads no dead object and reports what it did:
  -- the name is unknown, its user is online already, the password differs, the map by connection
  -- does not take the user, or the user goes online on the connection. The manager stays well
  -- formed.
  pub login-Login :
      (m : UserManager lib) (fd : ℤ) (name password : Bytes)
      → IsValid lib m
      → (r : UserManagerResult) × (m' : UserManager lib) × (login lib m fd name password
          ≡ some (r, m'))
        × Login m fd name password r m'
        × IsValid lib m'
  unfolding login
  login-Login m fd name password v = elim (names_at_cases lib m name v) [
    | inl e ↦
        (UserManagerResult.not_found, m, rw (user_by_name-at lib m name, e, login), unknown e, v)
    | inr (p, u, e, c, _) ↦
        let (r, m', run, l) = login_user-Login m fd name password p u e c in
        (r, m', rw (user_by_name-at lib m name, e, login, c, ◌>>=◌) run, l, Login-IsValid v l)
  ]

  -- What a logout of the connection may do.
  pub data Logout (m : UserManager lib) (fd : ℤ)
      : UserManagerResult → UserManager lib → Type 0 where
    nobody : fds_at lib m fd ≡ none → Logout m fd UserManagerResult.not_found m
    done :
        (p : ℕ) (u : User lists) (by_fd : fds.Map)
        → fds_at lib m fd ≡ some p
        → m.users.cell p ≡ some u
        → Removes fd_key fd (fds.entries m.by_fd) (fds.entries by_fd)
        → Logout m fd UserManagerResult.success (record m {
          users =
              Heap.write m.users p
                (record u { groups = none; state = UserState.offline; fd_connection = negsuc 0 });
          by_fd = by_fd;
        })

  pub Logout-IsValid :
      {m : UserManager lib} {fd : ℤ} {r : UserManagerResult} {m' : UserManager lib}
      → IsValid lib m
      → Logout m fd r m'
      → IsValid lib m'
  unfolding Heap.write logged_out User.destroy_groups User.set_state User.set_fd_connection
  Logout-IsValid v (nobody e) = v
  Logout-IsValid {fd = fd} v (done p u by_fd e c rem) = logout-IsView lists v p u fd _ c e rem.reads

  -- `UserManager_Logout` on a well-formed manager reads no dead object. A connection that nobody
  -- is logged in on changes nothing; otherwise its user leaves every group, goes offline and gets
  -- the connection -1, and the connection leads nowhere. The manager stays well formed.
  pub logout-Logout :
      (m : UserManager lib) (fd : ℤ)
      → IsValid lib m
      → (r : UserManagerResult) × (m' : UserManager lib) × (logout lib m fd ≡ some (r, m'))
        × Logout m fd r m'
        × (fds_at lib m' fd ≡ none)
        × IsValid lib m'
  unfolding logout logout_user logged_out User.destroy_groups User.set_state User.set_fd_connection
  logout-Logout m fd v = elim (fds_at_cases lib m fd v) [
    | inl e ↦
        (UserManagerResult.not_found, m, rw (user_by_fd-at lib m fd, e, logout), nobody e, e, v)
    | inr (p, u, e, c, same, on) ↦
        let (by_fd, run, rem) = fds.remove_present m.by_fd fd p e in
        let l = done p u by_fd e c rem in
        (
          UserManagerResult.success,
          record m { users = Heap.write m.users p (logged_out lib u); by_fd = by_fd },
          rw (user_by_fd-at lib m fd, e, logout, c, ◌>>=◌) (ground (arith, run, state_cases lib u)),
          l,
          ground (arith, rem.reads fd, equal_fds_iff fd fd),
          Logout-IsValid v l,
        )
  ]
