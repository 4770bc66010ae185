-- ===== src/UserManager/Membership.antt =====
-- The operations on the groups of the user of a connection.
use c_chat_rooms_app.Base.{
  ℕ, ◌≡◌, refl, ap, sym, ◌∙◌, ◌⊎◌, inl, inr, Bool, true, false, List, Option, none, some, ◌>>=◌,
  arith, Bytes, ℤ, length, str_eq,
}
use mathlib.Core.Option.{some-injective}
use c_chat_rooms_app.DList.{any}
use c_chat_rooms_app.Heap
use c_chat_rooms_app.Keys.{Library}
use c_chat_rooms_app.User
use c_chat_rooms_app.User.{User, UserState, Memory, UserResult}
use c_chat_rooms_app.User.Groups.{
  names_of, is_in_group-any, Adds, Fails, Drops, add_group-Adds, remove_group-Drops,
  Adds-IsDistinct, Drops-IsDistinct,
}
use c_chat_rooms_app.UserManager.{
  UserManager, UserManagerResult, put_user, add_result, remove_result, add_user_to_group,
  add_group_to_user, remove_user_from_group, is_user_in_group, get_user_group_count, list_size,
  is_user_logged_in,
}
use c_chat_rooms_app.UserManager.View.{put-IsView}
use c_chat_rooms_app.UserManager.Invariant.{
  IsValid, fds_at, user_by_fd-at, fds_at_cases, state_cases,
}

module _ (lib : Library) where
  open lib use {lists, names, fds, char_signed}

  -- The user of a connection: a live object that is online on it.
  pub record On (m : UserManager lib) (fd : ℤ) (p : ℕ) (u : User lists) : Type 0 where
    pub at : fds_at lib m fd ≡ some p
    pub cell : m.users.cell p ≡ some u
    pub state : u.state ≡ UserState.online

  pub On-cell :
      {m : UserManager lib} {fd : ℤ} {p q : ℕ} {u w : User lists}
      → On m fd p u
      → On m fd q w
      → u ≡ w
  On-cell {m} {fd} {p} {q} {u} {w} a b =
      let same : p ≡ q = some-injective _ _ (sym a.at ∙ b.at) in
      some-injective _ _ (sym a.cell ∙ ap m.users.cell same ∙ b.cell)

  abbrev pub with_groups : UserManager lib → ℕ → User lists → Option lists.Rep → UserManager lib
  with_groups m p u g = put_user lib m p (record u { groups = g })

  pub with_groups-IsValid :
      {m : UserManager lib} {fd : ℤ} {p : ℕ} {u : User lists} (g : Option lists.Rep)
      → IsValid lib m
      → On m fd p u
      → User.Groups.IsDistinct (names_of lists g)
      → IsValid lib (with_groups m p u g)
  unfolding Heap.write
  with_groups-IsValid {p = p} {u = u} g v o d = put-IsView lists v p u g o.cell o.state d

  -- What `UserManager_AddUserToGroup` reports for a result of `User_AddGroup`.
  pub data Reports : UserResult → UserManagerResult → Type 0 where
    added : Reports UserResult.success UserManagerResult.success
    already : Reports UserResult.already_in_group UserManagerResult.already_in_group
    no_memory : Reports UserResult.allocation_failed UserManagerResult.internal_error

  Adds-Reports :
      {Fails : Type 0} {list_memory name_memory : Bool} {name : Bytes} {before : List Bytes}
      {r : UserResult} {after : List Bytes}
      → Adds Fails list_memory name_memory name before r after
      → Reports r (add_result r)
  unfolding add_result
  Adds-Reports (User.Groups.already h) = already
  Adds-Reports (User.Groups.added h e) = added
  Adds-Reports (User.Groups.lost f h) = added
  Adds-Reports (User.Groups.no_memory h why) = no_memory

  -- What adding the user of a connection to a group may do to the manager `m`.
  pub data Joins (m : UserManager lib) (mem : Memory) (fd : ℤ) (name : Bytes)
      : UserManagerResult → UserManager lib → Type 0 where
    nobody : fds_at lib m fd ≡ none → Joins m mem fd name UserManagerResult.not_found m
    at :
        {r : UserResult} (p : ℕ) (u : User lists) (g : Option lists.Rep)
        → On m fd p u
        → Adds
            (Fails lists name)
            mem.list
            mem.group_name
            name
            (names_of lists u.groups)
            r
            (names_of lists g)
        → Reports r (add_result r)
        → Joins m mem fd name (add_result r) (with_groups m p u g)

  -- What removing the user of a connection from a group may do.
  pub data Leaves (m : UserManager lib) (fd : ℤ) (name : Bytes)
      : UserManagerResult → UserManager lib → Type 0 where
    nobody : fds_at lib m fd ≡ none → Leaves m fd name UserManagerResult.not_found m
    at :
        {r : UserResult} (p : ℕ) (u : User lists) (g : Option lists.Rep)
        → On m fd p u
        → Drops name (names_of lists u.groups) r (names_of lists g)
        → Leaves m fd name (remove_result r) (with_groups m p u g)

  pub add_user_to_group-Joins :
      (m : UserManager lib) (mem : Memory) (fd : ℤ) (name : Bytes)
      → IsValid lib m
      → (r : UserManagerResult) × (m' : UserManager lib) × (add_user_to_group lib m mem fd name
          ≡ some (r, m'))
        × Joins m mem fd name r m'
        × IsValid lib m'
  unfolding add_user_to_group add_group_to_user
  add_user_to_group-Joins m mem fd name v = elim (fds_at_cases lib m fd v) [
    | inl e ↦ (
      UserManagerResult.not_found,
      m,
      rw (user_by_fd-at lib m fd, e, add_user_to_group),
      nobody e,
      v,
    )
    | inr (p, u, e, c, same, on) ↦
        let (g, r, run, a) = add_group-Adds lists mem u name in
        let o : On m fd p u = record { at = e; cell = c; state = on } in
        (
          add_result r,
          with_groups m p u g,
          rw (user_by_fd-at lib m fd, e, add_user_to_group, c, ◌>>=◌)
              (ground (arith, run, state_cases lib u)),
          at p u g o a (Adds-Reports a),
          with_groups-IsValid g v o (Adds-IsDistinct (v.distinct p u c) a),
        )
  ]

  -- `UserManager_RemoveUserFromGroup` on a well-formed manager reads no dead object. With nobody
  -- on the connection nothing changes; otherwise the name is no longer in the user's list. The
  -- manager stays well formed.
  pub remove_user_from_group-Leaves :
      (m : UserManager lib) (fd : ℤ) (name : Bytes)
      → IsValid lib m
      → (r : UserManagerResult) × (m' : UserManager lib) × (remove_user_from_group lib m fd name
          ≡ some (r, m'))
        × Leaves m fd name r m'
        × IsValid lib m'
  unfolding remove_user_from_group
  remove_user_from_group-Leaves m fd name v = elim (fds_at_cases lib m fd v) [
    | inl e ↦ (
      UserManagerResult.not_found,
      m,
      rw (user_by_fd-at lib m fd, e, remove_user_from_group),
      nobody e,
      v,
    )
    | inr (p, u, e, c, same, on) ↦
        let (g, r, run, a) = remove_group-Drops lists u name in
        let o : On m fd p u = record { at = e; cell = c; state = on } in
        (
          remove_result r,
          with_groups m p u g,
          rw (user_by_fd-at lib m fd, e, remove_user_from_group, c, ◌>>=◌) (ground (arith, run)),
          at p u g o a,
          with_groups-IsValid g v o (Drops-IsDistinct (v.distinct p u c) a),
        )
  ]

  pub list_size-length : (o : Option lists.Rep) → list_size lib o ≡ length (names_of lists o)
  unfolding list_size names_of
  list_size-length none = refl
  list_size-length (some l) = lists.size_lem l

  -- `UserManager_IsUserLoggedIn`, `_IsUserInGroup` and `_GetUserGroupCount` for a connection, on a
  -- well-formed manager, read no dead object: nobody is there and they say so, or its user is online
  -- and they give whether a name is in its list and how many names the list has.
  pub queries_by_fd :
      (m : UserManager lib) (fd : ℤ) (name : Bytes)
      → IsValid lib m
      → ((fds_at lib m fd ≡ none)
          × (is_user_logged_in lib m none fd ≡ some false)
          × (is_user_in_group lib m fd name ≡ some (UserManagerResult.not_found, none))
          × (get_user_group_count lib m fd ≡ some (UserManagerResult.not_found, 0)))
        ⊎ ((p : ℕ) × (u : User lists) × On m fd p u
            × (is_user_logged_in lib m none fd ≡ some true)
            × (is_user_in_group lib m fd name
                ≡ some
                    (UserManagerResult.success, some (any (str_eq name) (names_of lists u.groups))))
            × (get_user_group_count lib m fd
                ≡ some (UserManagerResult.success, length (names_of lists u.groups))))
  unfolding is_user_logged_in is_user_in_group get_user_group_count User.get_groups
  queries_by_fd m fd name v = elim (fds_at_cases lib m fd v) [
    | inl e ↦ inl (
      e,
      rw (user_by_fd-at lib m fd, e, is_user_logged_in),
      rw (user_by_fd-at lib m fd, e, is_user_in_group),
      rw (user_by_fd-at lib m fd, e, get_user_group_count),
    )
    | inr (p, u, e, c, same, on) ↦ inr (
      p,
      u,
      record { at = e; cell = c; state = on },
      rw (user_by_fd-at lib m fd, e, is_user_logged_in),
      rw (user_by_fd-at lib m fd, e, is_user_in_group, c, ◌>>=◌)
          (ap (λ b. some (UserManagerResult.success, some b)) (is_in_group-any lists u name)),
      rw (user_by_fd-at lib m fd, e, get_user_group_count, c, ◌>>=◌)
          (ap (λ n. some (UserManagerResult.success, n)) (list_size-length u.groups)),
    )
  ]
