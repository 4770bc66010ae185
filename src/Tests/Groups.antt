-- ===== src/Tests/Groups.antt =====
-- The group manager of the run.
use c_chat_rooms_app.Base.{
  refl, true, take, length, codes, arith, [], ◌∷◌, ◌+◌, ◌-◌, ◌%◌, ◌^◌, ◌<◌, ◌≡◌, ◌⊎◌, some, none,
  if◌then◌else◌, ◌==◌, joined, piece, append_pieces,
}
use c_chat_rooms_app.Tests.Example.{library, pushes, plenty, ann, chess}
use c_chat_rooms_app.Tests.Run.{grouped, valid}
use c_chat_rooms_app.Keys.{equal_names}
use c_chat_rooms_app.ServerManager.{ServerManager, create}
use c_chat_rooms_app.ServerManager.Counted
use c_chat_rooms_app.ServerManager.Runs.{start, Reachable-IsValid}
use c_chat_rooms_app.UserManager
use c_chat_rooms_app.GroupManager
use c_chat_rooms_app.HashMap
use c_chat_rooms_app.Heap
use c_chat_rooms_app.Group.{Group}
use c_chat_rooms_app.GroupManager.{
  GroupManager, GroupManagerResult, add_group, increase_group_ref_count, decrease_group_ref_count,
  get_group_endpoint, network_convert_ip_p_to_n,
}
use c_chat_rooms_app.GroupManager.Listing.{
  append_group_names, group_names, format_group_list, format_group_list-joined,
}
use c_chat_rooms_app.GroupManager.Table.{IsValid, group_at}
use c_chat_rooms_app.GroupManager.Endpoint.{get_group_endpoint-add_group}
use c_chat_rooms_app.GroupManager.Counts.{
  Reads, increase_group_ref_count_lem, decrease_group_ref_count_lem,
}

abbrev groups : GroupManager library
groups = grouped.0.groups

increase_group_ref_count_lem_example :
    ((group_at library groups chess ≡ none)
      × (increase_group_ref_count library groups chess
          ≡ some (GroupManagerResult.not_found, groups)))
    ⊎ ((g : Group) × (m' : GroupManager library) × (group_at library groups chess ≡ some g)
        × (increase_group_ref_count library groups chess ≡ some (GroupManagerResult.success, m'))
        × Reads library groups m' chess (some (record g { ref_count = (g.ref_count + 1) % 2 ^ 64 }))
        × IsValid library m')
increase_group_ref_count_lem_example =
    increase_group_ref_count_lem library groups chess valid.groups

decrease_group_ref_count_lem_example :
    ((group_at library groups chess ≡ none)
      × (decrease_group_ref_count library groups chess
          ≡ some (GroupManagerResult.not_found, groups)))
    ⊎ ((g : Group) × (m' : GroupManager library) × (group_at library groups chess ≡ some g)
        × (decrease_group_ref_count library groups chess
            ≡ some (
              (if g.ref_count == 0
                  then GroupManagerResult.empty_group
                  else GroupManagerResult.success),
              m',
            ))
        × Reads library groups m' chess (some (record g { ref_count = g.ref_count - 1 }))
        × IsValid library m')
decrease_group_ref_count_lem_example =
    decrease_group_ref_count_lem library groups chess valid.groups

-- A group is made on a new server.
empty : (s : ServerManager library) × (create library ≡ some s)
unfolding create UserManager.create GroupManager.create HashMap.Assoc.assoc Heap.empty
empty = (_, refl)

valid_empty : c_chat_rooms_app.ServerManager.Counted.IsValid library empty.0
valid_empty = Reachable-IsValid library pushes empty.0 (start empty.1)

first :
    (m : GroupManager library) × (add_group library empty.0.groups plenty ann
      ≡ (GroupManagerResult.success, m))
unfolding empty create UserManager.create GroupManager.create HashMap.Assoc.assoc Heap.empty
    HashMap.lookup Heap.write Heap.alloc GroupManager.add_group c_chat_rooms_app.Group.create
first = (_, refl)

get_group_endpoint-add_group_example :
    (library.names.size empty.0.groups.groups < 1000)
    × (get_group_endpoint library first.0 ann ≡ (
        if equal_names ann ann
        then some (
          GroupManagerResult.success,
          some (record {
            multicast_addr = network_convert_ip_p_to_n library (codes "239.0.0.1");
            port = 5000 + library.names.size empty.0.groups.groups;
          }),
        )
        else get_group_endpoint library empty.0.groups ann))
get_group_endpoint-add_group_example =
    get_group_endpoint-add_group library empty.0.groups first.0 plenty ann ann valid_empty.groups
      first.1

format_group_list-joined_example :
    (format_group_list library groups 8
      ≡ take 7 (joined (codes ", ") true (group_names library groups)))
    × (length (format_group_list library groups 8) < 8)
format_group_list-joined_example = format_group_list-joined library groups 8 (omega arith)

two_names : append_group_names 8 true [] (ann ∷ chess ∷ []) ≡ codes "ann, ch"
unfolding append_group_names append_pieces piece
two_names = refl
