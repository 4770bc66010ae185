-- ===== src/ServerManager/Sessions.antt =====
-- The end of a session: logout, exit and disconnection.
use c_chat_rooms_app.Base.{
  ℕ, ◌+◌, ◌≡◌, refl, ap, sym, ◌∙◌, ◌⊎◌, inl, inr, true, false, Option, none, some, [], ◌>>=◌, ◌==◌,
  Bool-cases, arith, Bytes, length, str_eq, ℤ, codes, take-all, ==_iff, to_nat,
}
use mathlib.Core.Option.{some-injective}
use c_chat_rooms_app.DList.{any}
use c_chat_rooms_app.Keys.{Library}
use c_chat_rooms_app.User
use c_chat_rooms_app.User.{User}
use c_chat_rooms_app.User.Groups.{names_of}
use c_chat_rooms_app.UserManager
use c_chat_rooms_app.UserManager.{
  UserManagerResult, get_user_groups, get_user_group_count, copy_names, is_user_logged_in,
  logged_out,
}
use c_chat_rooms_app.UserManager.Invariant.{fds_at, user_by_fd-at}
use c_chat_rooms_app.UserManager.Membership.{On, queries_by_fd, list_size-length}
use c_chat_rooms_app.UserManager.Sessions.{Logout, nobody, done, logout-Logout}
use c_chat_rooms_app.UserManager.Members.{members, members-write}
use c_chat_rooms_app.GroupManager.{GroupManager}
use c_chat_rooms_app.ServerManager.{
  ServerManager, bare, with_text, leave_each, leave_all_groups, leave_and_logout, action_logout,
  cleanup_session, callback_disconnect, action_exit,
}
use c_chat_rooms_app.ServerManager.Counted.{IsValid}
use c_chat_rooms_app.ServerManager.Leaving.{leave_each-Counts, Counts-congr}
use c_chat_rooms_app.Protocol.Status

module _ (lib : Library) where
  open lib use {lists}

  -- The names of a user's groups, as `ServerManager_LeaveAllGroups` asks for them.
  get_user_groups-On :
      (s : ServerManager lib) (fd : ℤ) (p : ℕ) (u : User lists) (l : lists.Rep)
      → On lib s.users fd p u
      → u.groups ≡ some l
      → get_user_groups lib s.users fd (length (lists.items l))
        ≡ some (UserManagerResult.success, lists.items l)
  unfolding get_user_groups copy_names User.get_groups
  get_user_groups-On s fd p u l o e =
      rw (user_by_fd-at lib s.users fd, o.at, get_user_groups, o.cell, ◌>>=◌, e, copy_names)
        (ground (arith, take-all (length (lists.items l)) (lists.items l)))

  get_user_group_count-On :
      (s : ServerManager lib) (fd : ℤ) (p : ℕ) (u : User lists)
      → On lib s.users fd p u
      → get_user_group_count lib s.users fd
        ≡ some (UserManagerResult.success, length (names_of lists u.groups))
  unfolding get_user_group_count User.get_groups
  get_user_group_count-On s fd p u o =
      rw (user_by_fd-at lib s.users fd, o.at, get_user_group_count, o.cell, ◌>>=◌)
        (ap (λ n. some (UserManagerResult.success, n)) (list_size-length lib u.groups))

  -- `ServerManager_LeaveAllGroups` runs the loop over the user's groups.
  leave_all_groups-On :
      (s : ServerManager lib) (fd : ℤ) (p : ℕ) (u : User lists) (g : GroupManager lib)
      (groups : Option lists.Rep)
      → On lib s.users fd p u
      → u.groups ≡ groups
      → leave_each lib s.groups (names_of lists groups) ≡ some g
      → leave_all_groups lib s fd ≡ some (record s { groups = g })
  unfolding leave_all_groups leave_each names_of
  leave_all_groups-On s fd p u g none o e run =
      rw (get_user_group_count-On s fd p u o, e, ◌>>=◌)
        (ap (λ k. some (record s { groups = k })) (some-injective _ _ run))
  leave_all_groups-On s fd p u g (some l) o e run =
      elim (Bool-cases (length (lists.items l) == 0)) [
        | inl z ↦
            let bare : lists.items l ≡ [] = ground (arith, z) in
            rw (get_user_group_count-On s fd p u o, e, ◌>>=◌, z)
              (ap (λ k. some (record s { groups = k }))
                (some-injective _ _ (rw (bare, leave_each) at run)))
        | inr z ↦
            rw
              (
                get_user_group_count-On s fd p u o,
                e,
                ◌>>=◌,
                z,
                get_user_groups-On s fd p u l o e,
                run,
              )
              (ground (arith, ==_iff (length (lists.items l)) (length (lists.items l))))
      ]

  -- A logout takes its user out of every group.
  Logout-members :
      {r : UserManagerResult} (m m' : UserManager.UserManager lib) (fd : ℤ) (p : ℕ) (u : User lists)
      → UserManager.Invariant.IsValid lib m
      → On lib m fd p u
      → Logout lib m fd r m'
      → (r ≡ UserManagerResult.success)
        × ((n : Bytes)
            → members lists n m.users.next m.users.cell
              ≡ members lists n m'.users.next m'.users.cell
                + to_nat (any (str_eq n) (names_of lists u.groups)))
  unfolding logged_out User.destroy_groups User.set_state User.set_fd_connection names_of any
  Logout-members m m' fd p u v o (nobody e) = cc (o.at, e)
  Logout-members m m' fd p u v o (done p' u' by_fd e c rem) = (
    refl,
    λ n.
        let same : p' ≡ p = some-injective _ _ (sym e ∙ o.at) in
        let cell : m.users.cell p' ≡ some u = rw same o.cell in
        omega (arith, members-write lists m.users n p' u (logged_out lib u') (v.live p' u' c) cell),
  )

  -- After the loop and the logout, the connection has nobody and the counts are right.
  leave_and_logout-IsValid :
      (s : ServerManager lib) (fd : ℤ) (p : ℕ) (u : User lists)
      → IsValid lib s
      → On lib s.users fd p u
      → (s' : ServerManager lib) × (leave_and_logout lib s fd
          ≡ some (UserManagerResult.success, s'))
        × (fds_at lib s'.users fd ≡ none)
        × IsValid lib s'
  unfolding leave_and_logout
  leave_and_logout-IsValid s fd p u v o =
      let (r, m', run, l, free, v') = logout-Logout lib s.users fd v.users in
      let (ok, count) = Logout-members s.users m' fd p u v.users o l in
      let (g, left, c, w) =
        leave_each-Counts lib (names_of lists u.groups) s.groups
          (λ n. members lists n m'.users.next m'.users.cell) (v.users.distinct p u o.cell) v.groups
          (Counts-congr lib count v.counts) in
      let all = leave_all_groups-On s fd p u g u.groups o refl left in
      (
        record { users = m'; groups = g },
        rw (all, ◌>>=◌, run, ok) refl,
        free,
        record { users = v'; groups = w; counts = c },
      )

  -- `ServerManager_CleanupSession`, which a disconnection runs, on a well-formed server: it reads no
  -- dead object and stays well formed, so that the count of every group is again the number of its
  -- members, and nobody is logged in on the connection any more.
  pub callback_disconnect-IsValid :
      (s : ServerManager lib) (fd : ℤ)
      → IsValid lib s
      → (s' : ServerManager lib) × (callback_disconnect lib s fd ≡ some s')
        × (is_user_logged_in lib s'.users none fd ≡ some false)
        × IsValid lib s'
  unfolding callback_disconnect cleanup_session is_user_logged_in
  callback_disconnect-IsValid s fd v = elim (queries_by_fd lib s.users fd [] v.users) [
    | inl (e, out, _, _) ↦ (s, rw (out, ◌>>=◌) refl, out, v)
    | inr (p, u, o, logged, _, _) ↦
        let (s', run, free, v') = leave_and_logout-IsValid s fd p u v o in
        (
          s',
          rw (logged, ◌>>=◌, run) refl,
          rw (user_by_fd-at lib s'.users fd, free, is_user_logged_in) refl,
          v',
        )
  ]

  -- `ServerManager_ActionLogout` on a well-formed server: it reads no dead object and stays well
  -- formed. Somebody who is logged in on the connection is no more, and is told so; nobody else
  -- changes anything, and gets CHAT_ERR_NOT_LOGGED_IN.
  pub action_logout-IsValid :
      (s : ServerManager lib) (fd : ℤ)
      → IsValid lib s
      → ((is_user_logged_in lib s.users none fd ≡ some false)
          × (action_logout lib s fd ≡ some (bare Status.err_not_logged_in, s)))
        ⊎ ((s' : ServerManager lib) × (is_user_logged_in lib s.users none fd ≡ some true)
            × (action_logout lib s fd ≡ some (with_text Status.ok (codes "Logout successful"), s'))
            × (is_user_logged_in lib s'.users none fd ≡ some false)
            × IsValid lib s')
  unfolding action_logout is_user_logged_in
  action_logout-IsValid s fd v = elim (queries_by_fd lib s.users fd [] v.users) [
    | inl (e, out, _, _) ↦ inl (out, rw (out, ◌>>=◌) refl)
    | inr (p, u, o, logged, _, _) ↦
        let (s', run, free, v') = leave_and_logout-IsValid s fd p u v o in
        inr (
          s',
          logged,
          rw (logged, ◌>>=◌, run) refl,
          rw (user_by_fd-at lib s'.users fd, free, is_user_logged_in) refl,
          v',
        )
  ]

  -- `ServerManager_ActionExit` on a well-formed server: it reads no dead object, replies Goodbye,
  -- leaves nobody logged in on the connection, and the server stays well formed.
  pub action_exit-IsValid :
      (s : ServerManager lib) (fd : ℤ)
      → IsValid lib s
      → (s' : ServerManager lib) × (action_exit lib s fd
          ≡ some (with_text Status.ok (codes "Goodbye"), s'))
        × (is_user_logged_in lib s'.users none fd ≡ some false)
        × IsValid lib s'
  unfolding action_exit callback_disconnect
  action_exit-IsValid s fd v =
      let (s', run, out, v') = callback_disconnect-IsValid s fd v in
      (s', rw (run, ◌>>=◌) refl, out, v')
