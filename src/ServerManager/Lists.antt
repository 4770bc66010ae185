-- ===== src/ServerManager/Lists.antt =====
-- ServerMng/ServerManager.c: the two list actions.
use c_chat_rooms_app.Base.{◌≤◌, ◌≡◌, refl, true, some, ◌>>=◌, take, codes, joined, arith}
use c_chat_rooms_app.Keys.{Library}
use c_chat_rooms_app.UserManager.Listing.{
  format_all_users_and_groups, format_all_users_and_groups-joined, user_lines,
}
use c_chat_rooms_app.GroupManager.Listing.{format_group_list, format_group_list-joined, group_names}
use c_chat_rooms_app.Protocol.{chat_max_value}
use c_chat_rooms_app.Protocol.Status
use c_chat_rooms_app.ServerManager.{ServerManager, Reply, Run, with_text}
use c_chat_rooms_app.ServerManager.Counted.{IsValid}

module _ (lib : Library) where
  -- `ServerManager_ActionListUsers`; the dump before it only logs.
  unfoldable pub action_list_users : ServerManager lib → Run lib
  action_list_users s = do
    text ← format_all_users_and_groups lib s.users chat_max_value
    some (with_text Status.ok text, s)

  -- `ServerManager_ActionListGroups`
  unfoldable pub action_list_groups : ServerManager lib → Run lib
  action_list_groups s =
      some (with_text Status.ok (format_group_list lib s.groups chat_max_value), s)

  pub lists-Reply :
      (s : ServerManager lib)
      → IsValid lib s
      → (users groups : Reply) × (action_list_users s ≡ some (users, s))
        × (action_list_groups s ≡ some (groups, s))
        × (users
            ≡ with_text Status.ok (take 255 (joined (codes "\n") true (user_lines lib s.users))))
        × (groups
            ≡ with_text Status.ok (take 255 (joined (codes ", ") true (group_names lib s.groups))))
        × (users.size ≤ chat_max_value)
        × (groups.size ≤ chat_max_value)
  unfolding action_list_users action_list_groups
  lists-Reply s v =
      let (text, run, cut, fits) =
        format_all_users_and_groups-joined lib s.users 256 (omega arith) v.users in
      let (cut_groups, fits_groups) = format_group_list-joined lib s.groups 256 (omega arith) in
      (
        with_text Status.ok text,
        with_text Status.ok (format_group_list lib s.groups 256),
        rw run refl,
        refl,
        rw cut refl,
        rw cut_groups refl,
        omega (arith, fits),
        omega (arith, fits_groups),
      )
