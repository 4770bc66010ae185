-- ===== src/GroupManager.antt =====
-- ServerMng/GroupManager.c: the groups by name. The map holds pointers to `Group` objects, which
-- stand in a heap; reading a dead address is a fault, `none`. The manager, the names and the buffer
-- are never NULL here: the only callers are in ServerManager.c.
pub mod View
pub mod Table
pub mod Add
pub mod Counts
pub mod Endpoint
pub mod Listing
use c_chat_rooms_app.Base.{
  ℕ, ◌+◌, ◌%◌, ◌^◌, Bool, true, false, Option, none, some, if◌then◌else◌, ◌>>=◌, length, ltb, leb,
  ◌==◌, Bytes, codes,
}
use c_chat_rooms_app.HashMap.{MapResult, is_success}
use c_chat_rooms_app.Heap.{Heap}
use c_chat_rooms_app.Heap
use c_chat_rooms_app.Keys.{Library}
use c_chat_rooms_app.Group.{Group, GroupEndpoint}
use c_chat_rooms_app.Group
use c_chat_rooms_app.User.{Memory}

-- GroupManagerResult
pub data GroupManagerResult : Type 0 where
  success null_ptr name_taken name_too_long allocation_failed not_found : GroupManagerResult
  empty_group not_empty internal_error : GroupManagerResult

abbrev pub max_name_length : ℕ
max_name_length = 32

abbrev pub multicast_port_base : ℕ
multicast_port_base = 5000

abbrev pub multicast_max_groups : ℕ
multicast_max_groups = 1000

-- What a failed `HashMap_Insert` makes `GroupManager_AddGroup` return.
abbrev pub insert_error : MapResult → GroupManagerResult
insert_error MapResult.allocation_error = GroupManagerResult.allocation_failed
insert_error _ = GroupManagerResult.internal_error

module _ (lib : Library) where
  open lib use {names, inet_pton}

  pub record GroupManager : Type 0 where
    pub objects : Heap Group
    pub groups : names.Map

  -- The result and the manager after the call; `none` is a fault.
  abbrev pub Run : Type 0
  Run = Option (GroupManagerResult × GroupManager)

  -- `GroupManager_Create`: NULL if the map cannot be created.
  unfoldable pub create : Option GroupManager
  create = do groups ← names.create 10; some (record { objects = Heap.empty; groups = groups })

  -- `network_convert_ip_p_to_n`
  unfoldable pub network_convert_ip_p_to_n : Bytes → ℕ
  network_convert_ip_p_to_n ip = elim (inet_pton ip) [ none ↦ 0 | some addr ↦ addr ]

  -- `AllocateGroupEndpoint`: `none` stands for GROUP_MANAGER_RESULT_INTERNAL_ERROR.
  unfoldable pub allocate_group_endpoint : names.Map → Option GroupEndpoint
  unfolding network_convert_ip_p_to_n
  allocate_group_endpoint groups =
      let index = names.size groups in
      if leb multicast_max_groups index
      then none
      else some (record {
        multicast_addr = network_convert_ip_p_to_n (codes "239.0.0.1");
        port = (multicast_port_base + index) % 2 ^ 16;
      })

  unfoldable pub is_name_taken : GroupManager → Bytes → Bool
  is_name_taken m name = is_success (names.find m.groups name).0

  -- `GroupManager_AddGroup`, once the endpoint is there.
  unfoldable pub add_named :
      GroupManager → Memory → Bytes → GroupEndpoint → GroupManagerResult × GroupManager
  add_named m mem name endpoint =
      let group = Group.create name endpoint in
      let p = m.objects.next in
      let (r, groups) = names.insert m.groups group.name p in
      if mem.group
      then (if is_success r
          then (
            GroupManagerResult.success,
            record { objects = Heap.alloc m.objects group; groups = groups },
          )
          else (
            insert_error r,
            record { objects = Heap.free (Heap.alloc m.objects group) p; groups = groups },
          ))
      else (GroupManagerResult.allocation_failed, m)

  unfoldable pub add_group : GroupManager → Memory → Bytes → GroupManagerResult × GroupManager
  unfolding is_name_taken allocate_group_endpoint add_named
  add_group m mem name =
      if ltb max_name_length (length name)
      then (GroupManagerResult.name_too_long, m)
      else if is_name_taken m name
      then (GroupManagerResult.name_taken, m)
      else elim (allocate_group_endpoint m.groups) [
        | none ↦ (GroupManagerResult.internal_error, m)
        | some endpoint ↦ add_named m mem name endpoint
      ]

  -- `GroupManager_GetGroup`: the pointer, or GROUP_MANAGER_RESULT_NOT_FOUND.
  unfoldable pub get_group : GroupManager → Bytes → Option ℕ
  get_group m name =
      let (r, value) = names.find m.groups name in if is_success r then value else none

  -- `GroupManager_GetGroupEndpoint`; the endpoint is `none` where it is not written.
  unfoldable pub get_group_endpoint :
      GroupManager → Bytes → Option (GroupManagerResult × Option GroupEndpoint)
  unfolding get_group
  get_group_endpoint m name = elim (get_group m name) [
    | none ↦ some (GroupManagerResult.not_found, none)
    | some p ↦ do
      g ← m.objects.cell p
      some (GroupManagerResult.success, some (Group.get_endpoint g))
  ]

  -- `GroupManager_RemoveGroupIfEmpty`, for a group that has no users: the object that is destroyed
  -- is the one that `HashMap_Remove` hands back.
  unfoldable pub remove_empty : GroupManager → Bytes → GroupManagerResult × GroupManager
  remove_empty m name =
      let (r, pair, groups) = names.remove m.groups name in
      if is_success r
      then (
        GroupManagerResult.success,
        elim pair [
          | none ↦ record m { groups = groups }
          | some e ↦ record { objects = Heap.free m.objects e.1; groups = groups }
        ],
      )
      else (GroupManagerResult.internal_error, record m { groups = groups })

  unfoldable pub remove_group_if_empty : GroupManager → Bytes → Run
  unfolding get_group remove_empty
  remove_group_if_empty m name = elim (get_group m name) [
    | none ↦ some (GroupManagerResult.not_found, m)
    | some p ↦ do
      g ← m.objects.cell p
      some (
          if ltb 0 (Group.get_ref_count g)
          then (GroupManagerResult.not_empty, m)
          else remove_empty m name)
  ]

  unfoldable pub get_groups_count : GroupManager → ℕ
  get_groups_count m = names.size m.groups

  -- Assigning to the object at an address.
  abbrev pub put_group : GroupManager → ℕ → Group → GroupManager
  put_group m p g = record m { objects = Heap.write m.objects p g }

  -- `GroupManager_IncreaseGroupRefCount`; the callers pass NULL for the new count.
  unfoldable pub increase_group_ref_count : GroupManager → Bytes → Run
  unfolding get_group
  increase_group_ref_count m name = elim (get_group m name) [
    | none ↦ some (GroupManagerResult.not_found, m)
    | some p ↦ do
      g ← m.objects.cell p
      some (GroupManagerResult.success, put_group m p (Group.inc_ref g).1)
  ]

  -- `GroupManager_DecreaseGroupRefCount`; the callers pass NULL for the new count.
  unfoldable pub decrease_group_ref_count : GroupManager → Bytes → Run
  unfolding get_group
  decrease_group_ref_count m name = elim (get_group m name) [
    | none ↦ some (GroupManagerResult.not_found, m)
    | some p ↦ do
      g ← m.objects.cell p
      some (
          if Group.get_ref_count g == 0
          then (GroupManagerResult.empty_group, m)
          else (GroupManagerResult.success, put_group m p (Group.dec_ref g).1))
  ]
