-- ===== src/ServerManager/Joining.antt =====
-- Joining and creating a group. `ListPushTail` finds memory here: when it does not, the user is
-- counted in the group without being in it.
use c_chat_rooms_app.Base.{
  ◌+◌, ◌^◌, ◌<◌, ◌≡◌, refl, ap, sym, ◌≢◌, ◌⊎◌, inl, inr, true, false, none, some, List, [], ℕ,
  ◌>>=◌, arith, Bytes, str_eq, ℤ, c_str, to_nat,
}
use c_chat_rooms_app.DList.{any}
use c_chat_rooms_app.Keys.{Library, equal_names, equal_names_iff}
use c_chat_rooms_app.Heap
use c_chat_rooms_app.User.{User, UserResult, Memory}
use c_chat_rooms_app.User.Groups.{names_of, Adds, already, added, lost, no_memory, Fails, Pushes}
use c_chat_rooms_app.UserManager
use c_chat_rooms_app.UserManager.{UserManager, UserManagerResult, is_user_logged_in, add_result}
use c_chat_rooms_app.UserManager.Membership.{
  On, queries_by_fd, Joins, nobody, at, add_user_to_group-Joins,
}
use c_chat_rooms_app.UserManager.Invariant.{fds_at}
use c_chat_rooms_app.UserManager.Members.{members-write}
use c_chat_rooms_app.Group.{Group}
use c_chat_rooms_app.GroupManager.{GroupManager, GroupManagerResult}
use c_chat_rooms_app.GroupManager
use c_chat_rooms_app.GroupManager.Table.{group_at, get_group-at, at_cases}
use c_chat_rooms_app.ServerManager.{ServerManager, Reply, bare, with_text, is_success_user}
use c_chat_rooms_app.ServerManager.GroupActions.{
  enter_group, action_join_group, send_group_endpoint,
}
use c_chat_rooms_app.ServerManager.Names
use c_chat_rooms_app.ServerManager.Endpoint.{no_group, EndpointReply, send_group_endpoint-total}
use c_chat_rooms_app.ServerManager.Counted.{IsValid, members_of, members_le, plus, weight-append}
use c_chat_rooms_app.ServerManager.Leaving.{
  CountsBut, Counts-CountsBut, Counts-congr, increase-Counts,
}
use c_chat_rooms_app.ServerManager.Membership.{count}
use c_chat_rooms_app.Protocol.Status

module _ (lib : Library) (pushes : Pushes lib.lists) where
  open lib use {lists}

  -- The list of the user does not take the name: it is there already, or there is no memory.
  abbrev pub Blocked : Memory → Bytes → User lists → Type 0
  Blocked mem name u =
      (any (str_eq name) (names_of lists u.groups) ≡ true)
      ⊎ (names_of lists u.groups ≡ []) × (mem.list ≡ false)
      ⊎ (mem.group_name ≡ false)

  -- One member more in the group of `name`; or no group's members change, as nobody is on the
  -- connection or the list of its user does not take the name.
  abbrev pub GainsMember :
      UserManager lib → UserManager lib → Memory → ℤ → Bytes → UserManagerResult → Type 0
  GainsMember m m' mem fd name r =
      ((r ≡ UserManagerResult.success)
        × (m'.users.next ≡ m.users.next)
        × ((n : Bytes) → plus lib (count lib m) name n ≡ count lib m' n)
        × ((p : ℕ) × (u : User lists) × On lib m fd p u
            × (any (str_eq name) (names_of lists u.groups) ≡ false)
            × (mem.group_name ≡ true)))
      ⊎ (is_success_user r ≡ false)
        × ((n : Bytes) → count lib m n ≡ count lib m' n)
        × ((fds_at lib m fd ≡ none)
            ⊎ ((p : ℕ) × (u : User lists) × On lib m fd p u × Blocked mem name u))

  Adds-weight :
      {r : UserResult} (mem : Memory) {name : Bytes} {before after : List Bytes}
      → Adds (Fails lists name) mem.list mem.group_name name before r after
      → ((add_result r ≡ UserManagerResult.success)
          × ((n : Bytes)
              → to_nat (any (str_eq n) after)
                ≡ to_nat (any (str_eq n) before) + to_nat (equal_names n name))
          × (any (str_eq name) before ≡ false)
          × (mem.group_name ≡ true))
        ⊎ (is_success_user (add_result r) ≡ false)
          × ((n : Bytes) → to_nat (any (str_eq n) before) ≡ to_nat (any (str_eq n) after))
          × ((any (str_eq name) before ≡ true)
              ⊎ (before ≡ []) × (mem.list ≡ false)
              ⊎ (mem.group_name ≡ false))
  unfolding add_result
  Adds-weight mem (already h) = inr (refl, λ n. refl, inl h)
  Adds-weight mem {name = name} {before = before} (added h e) =
      inl (refl, λ n. weight-append lib name n before h, h, e)
  Adds-weight mem {name = name} (lost (l, fails) h) = absurd (pushes l name (ap (λ t. t.0) fails))
  Adds-weight mem (no_memory h why) = inr (refl, λ n. refl, inr why)

  pub Joins-count :
      {r : UserManagerResult} (m m' : UserManager lib) (mem : Memory) (fd : ℤ) (name : Bytes)
      → UserManager.Invariant.IsValid lib m
      → Joins lib m mem fd name r m'
      → GainsMember m m' mem fd name r
  unfolding Heap.write
  Joins-count m m' mem fd name v (nobody e) = inr (refl, λ n. refl, inl e)
  Joins-count m m' mem fd name v (at p u g o d says) =
      let w = λ (n : Bytes).
        members-write lists m.users n p u (record u { groups = g }) (v.live p u o.cell) o.cell in
      elim (Adds-weight mem d) [
        | inl (ok, h, out, found) ↦
            inl (ok, refl, λ n. omega (arith, w n, h n), (p, u, o, out, found))
        | inr (bad, h, why) ↦ inr (bad, λ n. omega (arith, w n, h n), inr (p, u, o, why))
      ]

  -- What a request to create a group does: the group of `name` has one member more, or the reply is an error
  -- and no group's members change.
  abbrev pub Joining : ServerManager lib → ServerManager lib → Bytes → Reply → Type 0
  Joining s s' name reply =
      ((n : Bytes) → members_of lib s' n ≡ plus lib (members_of lib s) name n)
      ⊎ (reply.status ≢ Status.ok) × ((n : Bytes) → members_of lib s n ≡ members_of lib s' n)

  -- What a request to join does: the answers, each with its condition.
  pub data JoinsGroup (s : ServerManager lib) (mem : Memory) (fd : ℤ) (name : Bytes)
      : Reply → ServerManager lib → Type 0 where
    unknown_group : group_at lib s.groups name ≡ none → JoinsGroup s mem fd name (no_group lib) s
    not_logged_in :
        (g : Group)
        → group_at lib s.groups name ≡ some g
        → fds_at lib s.users fd ≡ none
        → JoinsGroup s mem fd name (bare Status.err_not_logged_in) s
    blocked :
        {reply : Reply} {s' : ServerManager lib} (g : Group) (p : ℕ) (u : User lists)
        → group_at lib s.groups name ≡ some g
        → On lib s.users fd p u
        → Blocked mem name u
        → reply.status ≡ Status.err_generic
        → ((n : Bytes) → members_of lib s n ≡ members_of lib s' n)
        → JoinsGroup s mem fd name reply s'
    joined :
        {reply : Reply} {s' : ServerManager lib} (g : Group) (p : ℕ) (u : User lists)
        → group_at lib s.groups name ≡ some g
        → On lib s.users fd p u
        → any (str_eq name) (names_of lists u.groups) ≡ false
        → mem.group_name ≡ true
        → ((n : Bytes) → members_of lib s' n ≡ plus lib (members_of lib s) name n)
        → EndpointReply lib s' name reply
        → JoinsGroup s mem fd name reply s'

  -- The user goes into the list, and the count of the group up.
  pub enter-IsValid :
      (s : ServerManager lib) (m' : UserManager lib) (name : Bytes) (g : Group)
      → s.users.users.next < 2 ^ 64
      → GroupManager.Table.IsValid lib s.groups
      → CountsBut lib name s.groups (members_of lib s)
      → UserManager.Invariant.IsValid lib m'
      → group_at lib s.groups name ≡ some g
      → m'.users.next ≡ s.users.users.next
      → ((n : Bytes) → plus lib (members_of lib s) name n ≡ count lib m' n)
      → (groups : GroupManager lib) × (reply : Reply) × (GroupManager.increase_group_ref_count lib
            s.groups name
          ≡ some (GroupManagerResult.success, groups))
        × (send_group_endpoint lib (record { users = m'; groups = groups }) name ≡ some reply)
        × IsValid lib (record { users = m'; groups = groups })
        × EndpointReply lib (record { users = m'; groups = groups }) name reply
  enter-IsValid s m' name g few vg c v' here same h =
      let bound : members_of lib s name + 1 < 2 ^ 64 = ground (
        arith,
        h name,
        equal_names_iff name name,
        members_le lib name m'.users.next m'.users.cell,
        few,
        same,
      ) in
      let (groups, run, c', w) = increase-Counts lib s.groups name _ g vg c here bound in
      let (reply, sent, says) =
        send_group_endpoint-total lib (record { users = m'; groups = groups }) name w in
      (
        groups,
        reply,
        run,
        sent,
        record { users = v'; groups = w; counts = Counts-congr lib h c' },
        says,
      )

  enter_group-JoinsGroup :
      (s : ServerManager lib) (mem : Memory) (fd : ℤ) (name : Bytes) (g : Group) (p : ℕ)
      (u : User lists)
      → s.users.users.next < 2 ^ 64
      → IsValid lib s
      → group_at lib s.groups name ≡ some g
      → On lib s.users fd p u
      → (reply : Reply) × (s' : ServerManager lib) × (enter_group lib s mem fd name
          ≡ some (reply, s'))
        × JoinsGroup s mem fd name reply s'
        × IsValid lib s'
  unfolding enter_group
  enter_group-JoinsGroup s mem fd name g p u few v here on =
      let (r, m', run, l, v') = add_user_to_group-Joins lib s.users mem fd name v.users in
      elim (Joins-count s.users m' mem fd name v.users l) [
        | inl (ok, same, h, (q, w, there, out, found)) ↦
            let (groups, reply, up, sent, valid, says) =
              enter-IsValid s m' name g few v.groups (Counts-CountsBut lib name v.counts) v' here
                same h in
            (
              reply,
              record { users = m'; groups = groups },
              rw (run, ok, ◌>>=◌, up, sent) refl,
              joined g q w here there out found (λ n. sym (h n)) says,
              valid,
            )
        | inr (bad, h, inl gone) ↦ cc (on.at, gone)
        | inr (bad, h, inr (q, w, there, why)) ↦ (
          with_text Status.err_generic (Names.user_result r),
          record s { users = m' },
          rw (run, ◌>>=◌, bad) refl,
          blocked g q w here there why refl h,
          record { users = v'; groups = v.groups; counts = Counts-congr lib h v.counts },
        )
      ]

  pub action_join_group-Joining :
      (s : ServerManager lib) (mem : Memory) (fd : ℤ) (value name : Bytes)
      → s.users.users.next < 2 ^ 64
      → IsValid lib s
      → c_str value ≡ some name
      → (reply : Reply) × (s' : ServerManager lib) × (action_join_group lib s mem fd value
          ≡ some (reply, s'))
        × JoinsGroup s mem fd name reply s'
        × IsValid lib s'
  unfolding action_join_group
  action_join_group-Joining s mem fd value name few v e =
      elim (at_cases lib s.groups name v.groups) [
        | inl (out, h) ↦ elim (queries_by_fd lib s.users fd name v.users) [
          | inl (free, off, _, _) ↦ (
            no_group lib,
            s,
            rw (e, ◌>>=◌, off, get_group-at lib s.groups name, out) refl,
            unknown_group h,
            v,
          )
          | inr (p, u, o, on, _, _) ↦ (
            no_group lib,
            s,
            rw (e, ◌>>=◌, on, get_group-at lib s.groups name, out) refl,
            unknown_group h,
            v,
          )
        ]
        | inr (q, g, here, c, same, h) ↦ elim (queries_by_fd lib s.users fd name v.users) [
          | inl (free, off, _, _) ↦ (
            bare Status.err_not_logged_in,
            s,
            rw (e, ◌>>=◌, off, get_group-at lib s.groups name, here) refl,
            not_logged_in g h free,
            v,
          )
          | inr (p, u, o, on, _, _) ↦
              let (reply, s', run, l, v') = enter_group-JoinsGroup s mem fd name g p u few v h o in
              (reply, s', rw (e, ◌>>=◌, on, get_group-at lib s.groups name, here) run, l, v')
        ]
      ]
