-- ===== src/UserManager.antt =====
-- ServerMng/UserManager.c: the users by name and by connection. Both maps hold pointers to one
-- `User` object, so the objects stand in a heap; reading a dead address is a fault, `none`.
-- The manager and the out parameters are never NULL here: the only callers are in ServerManager.c.
pub mod View
pub mod Invariant
pub mod Sessions
pub mod Registration
pub mod Membership
pub mod Members
pub mod Listing
use c_chat_rooms_app.Base.{
  ℕ, Bool, true, false, not, Option, none, some, List, [], ◌∷◌, if◌then◌else◌, ◌>>=◌, is_some,
  length, take, ltb, Bytes, str_eq, ℤ, negsuc, int_eq,
}
use c_chat_rooms_app.DList.{DList}
use c_chat_rooms_app.HashMap.{HashMap, MapResult, is_success}
use c_chat_rooms_app.Heap.{Heap}
use c_chat_rooms_app.Heap
use c_chat_rooms_app.Keys.{Library}
use c_chat_rooms_app.User.{User, UserResult, UserState, Memory}
use c_chat_rooms_app.User

-- UserManagerResult
pub data UserManagerResult : Type 0 where
  success null_ptr invalid_argument allocation_failed internal_error bad_creds : UserManagerResult
  name_taken not_found not_in_group already_in_group not_logged : UserManagerResult
  already_log malformed : UserManagerResult

-- Whether a call returned USER_RESULT_SUCCESS.
abbrev pub is_done : UserResult → Bool
is_done UserResult.success = true
is_done _ = false

-- The results of `User_AddGroup` and `User_RemoveGroup`, renamed.
unfoldable pub add_result : UserResult → UserManagerResult
add_result UserResult.success = UserManagerResult.success
add_result UserResult.already_in_group = UserManagerResult.already_in_group
add_result _ = UserManagerResult.internal_error

unfoldable pub remove_result : UserResult → UserManagerResult
remove_result UserResult.success = UserManagerResult.success
remove_result UserResult.not_in_group = UserManagerResult.not_in_group
remove_result _ = UserManagerResult.internal_error

module _ (lib : Library) where
  open lib use {lists, names, fds}

  pub record UserManager : Type 0 where
    pub users : Heap (User lists)
    pub by_name : names.Map
    pub by_fd : fds.Map

  -- The result and the manager after the call; `none` is a fault.
  abbrev pub Run : Type 0
  Run = Option (UserManagerResult × UserManager)

  -- `UserManager_Create`: NULL if one of the maps cannot be created.
  unfoldable pub create : Option UserManager
  create = do
    by_name ← names.create 10
    by_fd ← fds.create 10
    some (record { users = Heap.empty; by_name = by_name; by_fd = by_fd })

  -- The pointer that `HashMap_Find` leaves for a connection, and for a name.
  unfoldable pub user_by_fd : UserManager → ℤ → Option ℕ
  user_by_fd m fd = (fds.find m.by_fd fd).1

  unfoldable pub user_by_name : UserManager → Bytes → Option ℕ
  user_by_name m name = (names.find m.by_name name).1

  -- Assigning to the object at an address.
  abbrev pub put_user : UserManager → ℕ → User lists → UserManager
  put_user m p u = record m { users = Heap.write m.users p u }

  -- `UserManager_AddUser`, from the insertion by connection on.
  unfoldable pub add_by_fd : UserManager → ℕ → User lists → Run
  add_by_fd m p u =
      let (r, by_fd) = fds.insert m.by_fd u.fd_connection p in
      if is_success r
      then some (
        UserManagerResult.success,
        record m {
          users = Heap.write m.users p (User.set_state lists u UserState.online).1;
          by_fd = by_fd;
        },
      )
      else some (
        UserManagerResult.internal_error,
        record m {
          users = Heap.free m.users p;
          by_name = (names.remove m.by_name u.username).2;
          by_fd = by_fd;
        },
      )

  unfoldable pub add_by_name : UserManager → ℕ → User lists → Run
  unfolding add_by_fd
  add_by_name m p u =
      let (r, by_name) = names.insert m.by_name u.username p in
      elim r [
        | MapResult.success ↦ add_by_fd (record m { by_name = by_name }) p u
        | MapResult.key_duplicate_error ↦ some (
          UserManagerResult.name_taken,
          record m { users = Heap.free m.users p; by_name = by_name },
        )
        | _ ↦ some (
          UserManagerResult.internal_error,
          record m { users = Heap.free m.users p; by_name = by_name },
        )
      ]

  -- `UserManager_AddUser`
  unfoldable pub add_user : UserManager → Memory → ℤ → Bytes → Bytes → Run
  unfolding add_by_name
  add_user m mem fd username password =
      let u = User.create lists fd username password in
      if mem.user
      then add_by_name (record m { users = Heap.alloc m.users u }) m.users.next u
      else some (UserManagerResult.allocation_failed, m)

  -- `UserManager_RemoveUser`
  unfoldable pub remove_user : UserManager → ℤ → Run
  remove_user m fd = elim (user_by_fd m fd) [
    | none ↦ some (UserManagerResult.not_found, m)
    | some p ↦ do
      u ← m.users.cell p
      some (
        UserManagerResult.success,
        record {
          users = Heap.free m.users p;
          by_name = (names.remove m.by_name u.username).2;
          by_fd = (fds.remove m.by_fd fd).2;
        },
      )
  ]

  -- `UserManager_Login`, once the password fits.
  unfoldable pub login_on : UserManager → ℕ → User lists → ℤ → Run
  login_on m p u fd =
      let (r₁, u₁) = User.set_fd_connection lists u fd in
      let (r, by_fd) = fds.insert m.by_fd u₁.fd_connection p in
      let (r₂, u₂) = User.set_state lists u₁ UserState.online in
      let online = record m { users = Heap.write m.users p u₂; by_fd = by_fd } in
      let offline = record m { users = Heap.write m.users p u₁; by_fd = by_fd } in
      if is_done r₁
      then if is_success r
        then if is_done r₂
          then some (UserManagerResult.success, online)
          else some (UserManagerResult.internal_error, online)
        else some (UserManagerResult.internal_error, offline)
      else some (UserManagerResult.internal_error, record m { users = Heap.write m.users p u₁ })

  -- `UserManager_Login`, once the name has led to a user.
  unfoldable pub login_user : UserManager → ℕ → User lists → ℤ → Bytes → Run
  unfolding login_on
  login_user m p u fd password =
      if User.is_online lists u
      then some (UserManagerResult.already_log, m)
      else if not (str_eq u.password password)
      then some (UserManagerResult.bad_creds, m)
      else login_on m p u fd

  -- `UserManager_Login`
  unfoldable pub login : UserManager → ℤ → Bytes → Bytes → Run
  unfolding login_user
  login m fd username password = elim (user_by_name m username) [
    | none ↦ some (UserManagerResult.not_found, m)
    | some p ↦ do u ← m.users.cell p; login_user m p u fd password
  ]

  -- What `UserManager_Logout` makes of the user: no groups, offline, connection -1.
  unfoldable pub logged_out : User lists → User lists
  logged_out u =
      let u₁ = (User.destroy_groups lists u).1 in
      let u₂ = (User.set_state lists u₁ UserState.offline).1 in
      (User.set_fd_connection lists u₂ (negsuc 0)).1

  -- `UserManager_Logout`, once the connection has led to a user.
  unfoldable pub logout_user : UserManager → ℕ → User lists → ℤ → Run
  unfolding logged_out
  logout_user m p u fd =
      if User.is_online lists u
      then some (
        UserManagerResult.success,
        record m { users = Heap.write m.users p (logged_out u); by_fd = (fds.remove m.by_fd fd).2 },
      )
      else some (UserManagerResult.not_logged, m)

  -- `UserManager_Logout`; the name that it hands out is only logged.
  unfoldable pub logout : UserManager → ℤ → Run
  unfolding logout_user
  logout m fd = elim (user_by_fd m fd) [
    | none ↦ some (UserManagerResult.not_found, m)
    | some p ↦ do u ← m.users.cell p; logout_user m p u fd
  ]

  -- `UserManager_IsUserLoggedIn`, by name if there is one and else by connection.
  unfoldable pub is_user_logged_in : UserManager → Option Bytes → ℤ → Option Bool
  is_user_logged_in m (some username) fd = elim (user_by_name m username) [
    | none ↦ some false
    | some p ↦ do u ← m.users.cell p; some (int_eq u.fd_connection fd)
  ]
  is_user_logged_in m none fd = elim (user_by_fd m fd) [ none ↦ some false | some p ↦ some true ]

  -- `UserManager_AddUserToGroup`, once the connection has led to a user.
  unfoldable pub add_group_to_user : UserManager → Memory → ℕ → User lists → Bytes → Run
  unfolding add_result
  add_group_to_user m mem p u name =
      let (r, u') = User.add_group lists mem u name in
      if User.is_online lists u
      then some (add_result r, put_user m p u')
      else some (UserManagerResult.not_logged, m)

  unfoldable pub add_user_to_group : UserManager → Memory → ℤ → Bytes → Run
  unfolding add_group_to_user
  add_user_to_group m mem fd name = elim (user_by_fd m fd) [
    | none ↦ some (UserManagerResult.not_found, m)
    | some p ↦ do u ← m.users.cell p; add_group_to_user m mem p u name
  ]

  unfoldable pub remove_user_from_group : UserManager → ℤ → Bytes → Run
  unfolding remove_result
  remove_user_from_group m fd name = elim (user_by_fd m fd) [
    | none ↦ some (UserManagerResult.not_found, m)
    | some p ↦ do
      u ← m.users.cell p
      let (r, u') = User.remove_group lists u name
      some (remove_result r, put_user m p u')
  ]

  -- `UserManager_IsUserInGroup`: the result, and `*a_isInGroup` if it is written.
  unfoldable pub is_user_in_group :
      UserManager → ℤ → Bytes → Option (UserManagerResult × Option Bool)
  is_user_in_group m fd name = elim (user_by_fd m fd) [
    | none ↦ some (UserManagerResult.not_found, none)
    | some p ↦ do
      u ← m.users.cell p
      some (UserManagerResult.success, some (is_some (User.is_in_group lists u name)))
  ]

  -- A list that is NULL counts as empty.
  unfoldable pub list_size : Option lists.Rep → ℕ
  list_size none = 0
  list_size (some l) = lists.size l

  -- `UserManager_GetUserGroupCount`: the result and `*a_outCount`.
  unfoldable pub get_user_group_count : UserManager → ℤ → Option (UserManagerResult × ℕ)
  unfolding list_size
  get_user_group_count m fd = elim (user_by_fd m fd) [
    | none ↦ some (UserManagerResult.not_found, 0)
    | some p ↦ do
      u ← m.users.cell p
      some (UserManagerResult.success, list_size (User.get_groups lists u).1)
  ]

  unfoldable pub copy_names : ℕ → Option lists.Rep → UserManagerResult × List Bytes
  copy_names capacity none = (UserManagerResult.internal_error, [])
  copy_names capacity (some l) = (
    (if ltb capacity (length (lists.items l))
        then UserManagerResult.invalid_argument
        else UserManagerResult.success),
    take capacity (lists.items l),
  )

  -- `UserManager_GetUserGroups`: the result and the names written to `a_outNames`.
  unfoldable pub get_user_groups : UserManager → ℤ → ℕ → Option (UserManagerResult × List Bytes)
  unfolding copy_names
  get_user_groups m fd capacity = elim (user_by_fd m fd) [
    | none ↦ some (UserManagerResult.not_found, [])
    | some p ↦ do u ← m.users.cell p; some (copy_names capacity (User.get_groups lists u).1)
  ]
