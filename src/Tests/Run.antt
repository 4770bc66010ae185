-- ===== src/Tests/Run.antt =====
-- A server on which one user has registered and created a group.
use c_chat_rooms_app.Base.{ℕ, ◌^◌, ◌<◌, ◌≡◌, refl, some, none, arith, pos, c_str, Option}
use c_chat_rooms_app.Tests.Example.{
  library, pushes, plenty, ann, secret, chess, credentials_value, group_value, register_frame,
  create_group_frame, stack,
}
use c_chat_rooms_app.ServerManager.{ServerManager, Reply, create, action_register, credentials}
use c_chat_rooms_app.ServerManager.GroupActions.{action_create_group}
use c_chat_rooms_app.ServerManager.Receiving.{callback_recv}
use c_chat_rooms_app.Protocol.{deserialize}
use c_chat_rooms_app.ServerManager.Counted.{IsValid}
use c_chat_rooms_app.ServerManager.Runs.{Reachable, start, next, receives, Reachable-IsValid}
use c_chat_rooms_app.UserManager
use c_chat_rooms_app.GroupManager
use c_chat_rooms_app.HashMap
use c_chat_rooms_app.Heap

pub empty_server :
    (s : ServerManager library) × (create library ≡ some s) × (s.users.users.next ≡ 0)
unfolding create UserManager.create GroupManager.create HashMap.Assoc.assoc Heap.empty
empty_server = (_, refl, refl)

pub registered :
    (s : ServerManager library) × (reply : Reply) × (callback_recv library empty_server.0 plenty
        stack
        (pos 4)
        register_frame
        15
      ≡ some (reply, s))
    × (s.users.users.next ≡ 1)
    × (reply.status ≡ 0)
unfolding callback_recv deserialize empty_server create UserManager.create GroupManager.create
    HashMap.Assoc.assoc Heap.empty action_register c_str UserManager.add_user HashMap.lookup
    Heap.write Heap.alloc
registered = (_, _, refl, refl, refl)

pub grouped :
    (s : ServerManager library) × (reply : Reply) × (callback_recv library registered.0 plenty stack
        (pos 4)
        create_group_frame
        10
      ≡ some (reply, s))
    × (s.users.users.next ≡ 1)
    × (reply.status ≡ 0)
unfolding callback_recv deserialize registered action_create_group empty_server create
    UserManager.create GroupManager.create HashMap.Assoc.assoc Heap.empty action_register c_str
    UserManager.add_user HashMap.lookup Heap.write Heap.alloc GroupManager.add_group
    UserManager.add_user_to_group UserManager.user_by_fd c_chat_rooms_app.Keys.equal_fds
    c_chat_rooms_app.Base.int_eq c_chat_rooms_app.User.create c_chat_rooms_app.User.is_online
    c_chat_rooms_app.User.set_state c_chat_rooms_app.User.add_group
    GroupManager.increase_group_ref_count c_chat_rooms_app.Keys.equal_names
    c_chat_rooms_app.Base.str_eq c_chat_rooms_app.Group.create GroupManager.get_group_endpoint
grouped = (_, _, refl, refl, refl)

-- The run.
pub run : Reachable library grouped.0
run =
    next
      (next (start empty_server.1) (omega (arith, empty_server.2)) (
        receives plenty stack (pos 4) register_frame 15 registered.1 (omega arith) refl
          registered.2))
      (omega (arith, registered.3))
      (receives plenty stack (pos 4) create_group_frame 10 grouped.1 (omega arith) refl grouped.2)

pub valid : IsValid library grouped.0
valid = Reachable-IsValid library pushes grouped.0 run

pub few : grouped.0.users.users.next < 2 ^ 64
few = omega (arith, grouped.3)

pub credentials_value-ann : credentials credentials_value ≡ some (ann, secret)
unfolding credentials c_str
credentials_value-ann = refl

pub group_value-chess : c_str group_value ≡ some chess
unfolding c_str
group_value-chess = refl
