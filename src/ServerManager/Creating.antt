-- ===== src/ServerManager/Creating.antt =====
-- `ServerManager_ActionCreateGroup`.
use c_chat_rooms_app.Base.{
  ℕ, ◌^◌, ◌<◌, ◌≡◌, refl, ap, sym, ◌∙◌, inl, inr, false, none, some, ◌>>=◌, if◌then◌else◌, arith,
  Bytes, length, ℤ, c_str,
}
use c_chat_rooms_app.Keys.{Library, equal_names, equal_names_iff}
use c_chat_rooms_app.User.{Memory}
use c_chat_rooms_app.User.Groups.{Pushes}
use c_chat_rooms_app.UserManager
use c_chat_rooms_app.UserManager.{UserManager, UserManagerResult}
use c_chat_rooms_app.UserManager.Membership.{add_user_to_group-Joins}
use c_chat_rooms_app.Group.{Group}
use c_chat_rooms_app.Group
use c_chat_rooms_app.GroupManager.{GroupManager, GroupManagerResult}
use c_chat_rooms_app.GroupManager
use c_chat_rooms_app.GroupManager.Table.{group_at}
use c_chat_rooms_app.GroupManager.Add.{
  Refusal, Adds, too_long, taken, no_port, no_memory, no_entry, refused, added, nth_group,
  add_group-Adds,
}
use c_chat_rooms_app.ServerManager.{ServerManager, Reply, with_text, is_success_group}
use c_chat_rooms_app.ServerManager.GroupActions.{enter_new_group, action_create_group}
use c_chat_rooms_app.ServerManager.Names
use c_chat_rooms_app.ServerManager.Counted.{IsValid, members_of, Counts, ref_of}
use c_chat_rooms_app.ServerManager.Leaving.{
  CountsBut, Counts-congr, remove-Counts, Counts-CountsBut,
}
use c_chat_rooms_app.ServerManager.Joining.{Joining, Joins-count, enter-IsValid}
use c_chat_rooms_app.Protocol.Status

module _ (lib : Library) (pushes : Pushes lib.lists) where
  open lib use {lists, names}

  Refusal-fails :
      {m : GroupManager lib} {mem : Memory} {name : Bytes} {r : GroupManagerResult}
      → Refusal lib m mem name r
      → is_success_group r ≡ false
  Refusal-fails (too_long h) = refl
  Refusal-fails (taken p h) = refl
  Refusal-fails (no_port h) = refl
  Refusal-fails (no_memory h) = refl
  Refusal-fails (no_entry h) = refl

  -- The new group is there and counts 0, as nobody was in a group that did not exist.
  new-CountsBut :
      (m m' : GroupManager lib) (name : Bytes) (f : Bytes → ℕ) (k : ℕ)
      → Counts lib m f
      → group_at lib m name ≡ none
      → ((n : Bytes)
          → group_at lib m' n
            ≡ (if equal_names n name then some (nth_group lib name k) else group_at lib m n))
      → CountsBut lib name m' f
  unfolding ref_of nth_group Group.create
  new-CountsBut m m' name f k c out reads = record {
    counted =
        λ n. ground (arith, reads n, out, c.counted n, c.counted name, equal_names_iff n name);
    used = λ n g d e. ground (arith, reads n, c.used n g);
  }

  -- The creator enters the new group, or the group goes again.
  enter_new_group-Joining :
      (s : ServerManager lib) (mem : Memory) (fd : ℤ) (name : Bytes) (g : Group)
      → s.users.users.next < 2 ^ 64
      → UserManager.Invariant.IsValid lib s.users
      → GroupManager.Table.IsValid lib s.groups
      → CountsBut lib name s.groups (members_of lib s)
      → group_at lib s.groups name ≡ some g
      → (reply : Reply) × (s' : ServerManager lib) × (enter_new_group lib s mem fd name
          ≡ some (reply, s'))
        × Joining lib pushes s s' name reply
        × IsValid lib s'
  unfolding enter_new_group
  enter_new_group-Joining s mem fd name g few v w c here =
      let (r, m', run, l, v') = add_user_to_group-Joins lib s.users mem fd name v in
      elim (Joins-count lib pushes s.users m' mem fd name v l) [
        | inl (ok, same, h, _) ↦
            let (groups, reply, up, sent, valid, _) =
              enter-IsValid lib pushes s m' name g few w c v' here same h in
            (
              reply,
              record { users = m'; groups = groups },
              rw (run, ok, ◌>>=◌, up, sent) refl,
              inl (λ n. sym (h n)),
              valid,
            )
        | inr (bad, h, _) ↦
            let (r₁, g₁, run₁, c₁, w₁) = remove-Counts lib s.groups name (members_of lib s) w c in
            let (r₂, g₂, run₂, c₂, w₂) =
              remove-Counts lib g₁ name (members_of lib s) w₁ (Counts-CountsBut lib name c₁) in
            (
              with_text Status.err_generic (Names.user_result r),
              record { users = m'; groups = g₂ },
              rw (run, ◌>>=◌, bad, run₁, run₂) refl,
              inr (omega arith, h),
              record { users = v'; groups = w₂; counts = Counts-congr lib h c₂ },
            )
      ]

  create-Adds :
      (s : ServerManager lib) (mem : Memory) (fd : ℤ) (value name : Bytes) (r : GroupManagerResult)
      (groups : GroupManager lib)
      → s.users.users.next < 2 ^ 64
      → IsValid lib s
      → c_str value ≡ some name
      → GroupManager.add_group lib s.groups mem name ≡ (r, groups)
      → GroupManager.Table.IsValid lib groups
      → Adds lib s.groups mem name r groups
      → (reply : Reply) × (s' : ServerManager lib) × (action_create_group lib s mem fd value
          ≡ some (reply, s'))
        × Joining lib pushes s s' name reply
        × IsValid lib s'
  unfolding action_create_group
  create-Adds s mem fd value name r groups few v e run w (refused why same) = (
    record {
      status = Status.err_generic;
      text = some (Names.group_result r);
      size = length (Names.group_result r);
    },
    record s { groups = groups },
    rw (e, ◌>>=◌, run, Refusal-fails why) refl,
    inr (omega arith, λ n. refl),
    record {
      users = v.users;
      groups = w;
      counts = record {
        counted = λ n. ap ref_of (same n) ∙ v.counts.counted n;
        used = λ n g h. v.counts.used n g (sym (same n) ∙ h);
      };
    },
  )
  create-Adds s mem fd value name r groups few v e run w (added short free room reads) =
      let c =
        new-CountsBut s.groups groups name (members_of lib s) (names.size s.groups.groups) v.counts
          (rw (free, ◌>>=◌) refl) reads in
      let (reply, s', step, l, v') =
        enter_new_group-Joining (record s { groups = groups }) mem fd name
          (nth_group lib name (names.size s.groups.groups)) few v.users w c
          (ground (arith, reads name, equal_names_iff name name)) in
      (reply, s', rw (e, ◌>>=◌, run) step, l, v')

  -- `ServerManager_ActionCreateGroup` on a well-formed server with fewer than 2^64 users ever made,
  -- where `ListPushTail` finds memory,
  -- for a request that holds a name: it reads no dead object, and the server stays well formed, so
  -- that no group without members is left. The group of the name has one member more, or the reply
  -- is an error and no group's members change.
  pub action_create_group-Joining :
      (s : ServerManager lib) (mem : Memory) (fd : ℤ) (value name : Bytes)
      → s.users.users.next < 2 ^ 64
      → IsValid lib s
      → c_str value ≡ some name
      → (reply : Reply) × (s' : ServerManager lib) × (action_create_group lib s mem fd value
          ≡ some (reply, s'))
        × Joining lib pushes s s' name reply
        × IsValid lib s'
  action_create_group-Joining s mem fd value name few v e =
      let (r, groups, run, a, w) = add_group-Adds lib s.groups mem name v.groups in
      create-Adds s mem fd value name r groups few v e run w a
