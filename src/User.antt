-- ===== src/User.antt =====
-- ServerMng/User.h and ServerMng/User.c: the operations on one `User` object. A pointer argument is
-- never NULL here: the callers have checked it.
pub mod Groups
use c_chat_rooms_app.Base.{
  ℕ, Bool, true, false, Option, none, some, List, [], if◌then◌else◌, Bytes, str_eq, ℤ, not,
}
use c_chat_rooms_app.DList.{DList}

-- UserResult
pub data UserResult : Type 0 where
  success null_ptr invalid_argument allocation_failed internal_error bad_creds : UserResult
  name_taken not_found not_in_group already_in_group not_logged already_log malformed : UserResult

pub data UserState : Type 0 where
  offline online : UserState

-- Which of the allocations of a request find memory.
pub record Memory : Type 0 where
  -- the user object and the copies of its two strings
  pub user : Bool
  -- the user's list of groups
  pub list : Bool
  -- the copy of a group's name for the user's list
  pub group_name : Bool
  -- the group object and the copy of its name
  pub group : Bool

module _ (lists : DList Bytes) where
  pub record User : Type 0 where
    pub fd_connection : ℤ
    pub username : Bytes
    pub password : Bytes
    pub state : UserState
    -- NULL until the first group.
    pub groups : Option lists.Rep

  -- What `User_Create` puts into the object that it allocates.
  unfoldable pub create : ℤ → Bytes → Bytes → User
  create fd username password = record {
    fd_connection = fd;
    username = username;
    password = password;
    state = UserState.offline;
    groups = none;
  }

  unfoldable pub destroy_groups : User → UserResult × User
  destroy_groups u = (UserResult.success, record u { groups = none })

  unfoldable pub is_online : User → Bool
  is_online u = elim u.state [ UserState.online ↦ true | UserState.offline ↦ false ]

  -- The test on the state already set only logs.
  unfoldable pub set_state : User → UserState → UserResult × User
  set_state u s = (UserResult.success, record u { state = s })

  unfoldable pub set_fd_connection : User → ℤ → UserResult × User
  set_fd_connection u fd = (UserResult.success, record u { fd_connection = fd })

  unfoldable pub find_group : Option lists.Rep → Bytes → Option lists.Itr
  find_group none name = none
  find_group (some l) name = lists.find l (str_eq name)

  unfoldable pub is_in_group : User → Bytes → Option lists.Itr
  unfolding find_group
  is_in_group u name = find_group u.groups name

  -- The result of `ListPushTail` is dropped.
  unfoldable pub push_group : Memory → lists.Rep → Bytes → UserResult × lists.Rep
  push_group mem l name =
      if mem.group_name
      then (UserResult.success, (lists.push_tail l name).1)
      else (UserResult.allocation_failed, l)

  unfoldable pub add_to_list : Memory → Option lists.Rep → Bytes → UserResult × Option lists.Rep
  unfolding push_group find_group
  add_to_list mem none name =
      let (r, l) = push_group mem lists.create name in
      if mem.list then (r, some l) else (UserResult.allocation_failed, none)
  add_to_list mem (some l) name = elim (find_group (some l) name) [
    | some itr ↦ (UserResult.already_in_group, some l)
    | none ↦ let (r, l') = push_group mem l name in (r, some l')
  ]

  unfoldable pub add_group : Memory → User → Bytes → UserResult × User
  unfolding add_to_list
  add_group mem u name =
      let (r, groups) = add_to_list mem u.groups name in (r, record u { groups = groups })

  unfoldable pub remove_from_list :
      Option lists.Rep → Option lists.Itr → UserResult × Option lists.Rep
  remove_from_list none itr = (UserResult.not_in_group, none)
  remove_from_list (some l) none = (UserResult.not_in_group, some l)
  remove_from_list (some l) (some itr) =
      let (removed, l') = lists.itr_remove l itr in
      elim removed [
        | none ↦ (UserResult.internal_error, some l')
        | some name ↦ (UserResult.success, some l')
      ]

  unfoldable pub remove_group : User → Bytes → UserResult × User
  unfolding remove_from_list is_in_group
  remove_group u name =
      let (r, groups) = remove_from_list u.groups (is_in_group u name) in
      (r, record u { groups = groups })

  unfoldable pub get_groups : User → UserResult × Option lists.Rep
  get_groups u = (UserResult.success, u.groups)
