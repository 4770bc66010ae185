-- ===== src/ServerManager/Membership.antt =====
-- Joining, leaving and creating a group.
use c_chat_rooms_app.Base.{
  ℕ, ◌+◌, ◌≡◌, refl, ◌⊎◌, inl, inr, true, false, none, some, List, ◌>>=◌, Bool-cases, arith, Bytes,
  str_eq, ℤ, c_str, to_nat,
}
use c_chat_rooms_app.DList.{any}
use c_chat_rooms_app.Keys.{Library, equal_names}
use c_chat_rooms_app.User.{User, UserResult}
use c_chat_rooms_app.User.Groups.{names_of, IsDistinct, Drops, absent, dropped}
use c_chat_rooms_app.UserManager
use c_chat_rooms_app.UserManager.{
  UserManager, UserManagerResult, is_user_logged_in, is_user_in_group, remove_result, add_result,
}
use c_chat_rooms_app.UserManager.Invariant.{fds_at}
use c_chat_rooms_app.Group.{Group}
use c_chat_rooms_app.GroupManager.Table.{group_at, get_group-at, at_cases}
use c_chat_rooms_app.UserManager.Membership.{
  On, On-cell, queries_by_fd, Leaves, nobody, at, remove_user_from_group-Leaves,
}
use c_chat_rooms_app.UserManager.Invariant.{fds_at}
use c_chat_rooms_app.Group.{Group}
use c_chat_rooms_app.GroupManager.Table.{group_at, get_group-at, at_cases}
use c_chat_rooms_app.UserManager.Members.{members, members-write}
use c_chat_rooms_app.GroupManager.{GroupManagerResult}
use c_chat_rooms_app.ServerManager.{ServerManager, Reply, bare, with_text, is_success_user}
use c_chat_rooms_app.ServerManager.GroupActions.{exit_group, leave_if_in, action_leave_group}
use c_chat_rooms_app.ServerManager.Names
use c_chat_rooms_app.ServerManager.Counted.{IsValid, members_of, plus, weight-drop}
use c_chat_rooms_app.ServerManager.Leaving.{drop_one, Counts-congr}
use c_chat_rooms_app.Protocol.Status

module _ (lib : Library) where
  open lib use {lists}

  -- The members of a group, for a user manager.
  abbrev pub count : UserManager lib → Bytes → ℕ
  count m n = members lists n m.users.next m.users.cell

  -- One member less in the group of `name`; or no group's members change, as nobody is on the
  -- connection or its user is not in the group.
  abbrev pub LosesMember :
      UserManager lib → UserManager lib → ℤ → Bytes → UserManagerResult → Type 0
  LosesMember m m' fd name r =
      ((r ≡ UserManagerResult.success) × ((n : Bytes) → count m n ≡ plus lib (count m') name n))
      ⊎ (is_success_user r ≡ false)
        × ((n : Bytes) → count m n ≡ count m' n)
        × ((fds_at lib m fd ≡ none)
            ⊎ ((p : ℕ) × (u : User lists) × On lib m fd p u
                × (any (str_eq name) (names_of lists u.groups) ≡ false)))

  Drops-weight :
      {r : UserResult} {name : Bytes} {before after : List Bytes}
      → IsDistinct before
      → Drops name before r after
      → ((remove_result r ≡ UserManagerResult.success)
          × ((n : Bytes)
              → to_nat (any (str_eq n) before)
                ≡ to_nat (any (str_eq n) after) + to_nat (equal_names n name)))
        ⊎ (is_success_user (remove_result r) ≡ false)
          × ((n : Bytes) → to_nat (any (str_eq n) before) ≡ to_nat (any (str_eq n) after))
          × (any (str_eq name) before ≡ false)
  unfolding remove_result
  Drops-weight d (absent h) = inr (refl, λ n. refl, h)
  Drops-weight {name = name} {before = before} {after = after} d (dropped x r) =
      inl (refl, λ n. weight-drop lib name x n before after d r)

  Leaves-count :
      {r : UserManagerResult} (m m' : UserManager lib) (fd : ℤ) (name : Bytes)
      → UserManager.Invariant.IsValid lib m
      → Leaves lib m fd name r m'
      → LosesMember m m' fd name r
  Leaves-count m m' fd name v (nobody e) = inr (refl, λ n. refl, inl e)
  Leaves-count m m' fd name v (at p u g o d) =
      let w = λ (n : Bytes).
        members-write lists m.users n p u (record u { groups = g }) (v.live p u o.cell) o.cell in
      elim (Drops-weight (v.distinct p u o.cell) d) [
        | inl (ok, h) ↦ inl (ok, λ n. omega (arith, w n, h n))
        | inr (bad, h, out) ↦ inr (bad, λ n. omega (arith, w n, h n), inr (p, u, o, out))
      ]

  abbrev pub no_group : Reply
  no_group = with_text Status.err_generic (Names.group_result GroupManagerResult.not_found)

  -- What a request to leave does: the four answers, each with its condition.
  pub data Leaving (s : ServerManager lib) (fd : ℤ) (name : Bytes)
      : Reply → ServerManager lib → Type 0 where
    unknown_group : group_at lib s.groups name ≡ none → Leaving s fd name no_group s
    not_logged_in :
        (g : Group)
        → group_at lib s.groups name ≡ some g
        → fds_at lib s.users fd ≡ none
        → Leaving s fd name (bare Status.err_not_logged_in) s
    not_in_group :
        (g : Group) (p : ℕ) (u : User lists)
        → group_at lib s.groups name ≡ some g
        → On lib s.users fd p u
        → any (str_eq name) (names_of lists u.groups) ≡ false
        → Leaving s fd name (bare Status.err_not_in_group) s
    left :
        (g : Group) (p : ℕ) (u : User lists) (s' : ServerManager lib)
        → group_at lib s.groups name ≡ some g
        → On lib s.users fd p u
        → any (str_eq name) (names_of lists u.groups) ≡ true
        → ((n : Bytes) → members_of lib s n ≡ plus lib (members_of lib s') name n)
        → Leaving s fd name (bare Status.ok) s'

  exit_group-left :
      (s : ServerManager lib) (fd : ℤ) (name : Bytes) (p : ℕ) (u : User lists)
      → IsValid lib s
      → On lib s.users fd p u
      → any (str_eq name) (names_of lists u.groups) ≡ true
      → (s' : ServerManager lib) × (exit_group lib s fd name ≡ some (bare Status.ok, s'))
        × ((n : Bytes) → members_of lib s n ≡ plus lib (members_of lib s') name n)
        × IsValid lib s'
  unfolding exit_group
  exit_group-left s fd name p u v on is_in =
      let (r, m', run, l, v') = remove_user_from_group-Leaves lib s.users fd name v.users in
      elim (Leaves-count s.users m' fd name v.users l) [
        | inl (ok, h) ↦
            let (g₁, r₂, g₂, run₁, run₂, c, w) =
              drop_one lib s.groups name (count m') v.groups (Counts-congr lib h v.counts) in
            (
              record { users = m'; groups = g₂ },
              rw (run, ok, ◌>>=◌, run₁, run₂) refl,
              h,
              record { users = v'; groups = w; counts = c },
            )
        | inr (bad, h, inl gone) ↦ cc (on.at, gone)
        | inr (bad, h, inr (q, x, there, out)) ↦ cc (is_in, out, On-cell lib on there)
      ]

  -- `ServerManager_ActionLeaveGroup` on a well-formed server, for a request that holds the name of a
  -- group: it reads no dead object, and the server stays well formed. With no such group, with nobody
  -- on the connection, or with a user who is not in the group nothing changes, and the reply says
  -- which; a user who is in the group leaves it: it has one member less, no other group's members
  -- change, and the reply is CHAT_OK.
  pub action_leave_group-Leaving :
      (s : ServerManager lib) (fd : ℤ) (value name : Bytes)
      → IsValid lib s
      → c_str value ≡ some name
      → (reply : Reply) × (s' : ServerManager lib) × (action_leave_group lib s fd value
          ≡ some (reply, s'))
        × Leaving s fd name reply s'
        × IsValid lib s'
  unfolding action_leave_group leave_if_in
  action_leave_group-Leaving s fd value name v e = elim (at_cases lib s.groups name v.groups) [
    | inl (out, h) ↦ elim (queries_by_fd lib s.users fd name v.users) [
      | inl (free, off, member, _) ↦ (
        no_group,
        s,
        rw (e, ◌>>=◌, off, member, get_group-at lib s.groups name, out) refl,
        unknown_group h,
        v,
      )
      | inr (p, u, o, on, member, _) ↦ (
        no_group,
        s,
        rw (e, ◌>>=◌, on, member, get_group-at lib s.groups name, out) refl,
        unknown_group h,
        v,
      )
    ]
    | inr (q, g, here, c, same, h) ↦ elim (queries_by_fd lib s.users fd name v.users) [
      | inl (free, off, member, _) ↦ (
        bare Status.err_not_logged_in,
        s,
        rw (e, ◌>>=◌, off, member, get_group-at lib s.groups name, here) refl,
        not_logged_in g h free,
        v,
      )
      | inr (p, u, o, on, member, _) ↦
          elim (Bool-cases (any (str_eq name) (names_of lists u.groups))) [
            | inr out ↦ (
              bare Status.err_not_in_group,
              s,
              rw (e, ◌>>=◌, on, member, get_group-at lib s.groups name, here, out) refl,
              not_in_group g p u h o out,
              v,
            )
            | inl is_in ↦
                let (s', run, fewer, v') = exit_group-left s fd name p u v o is_in in
                (
                  bare Status.ok,
                  s',
                  rw (e, ◌>>=◌, on, member, get_group-at lib s.groups name, here, is_in) run,
                  left g p u s' h o is_in fewer,
                  v',
                )
          ]
    ]
  ]
