-- ===== src/Tests/Users.antt =====
-- The user manager of the run.
use c_chat_rooms_app.Base.{
  ℕ, refl, ◌≡◌, ◌⊎◌, true, some, none, pos, length, Bytes, codes, ◌<◌, take, joined, arith,
}
use c_chat_rooms_app.Tests.Example.{library, plenty, ann, secret, chess}
use c_chat_rooms_app.Tests.Run.{grouped, valid}
use c_chat_rooms_app.Heap
use c_chat_rooms_app.User.{User}
use c_chat_rooms_app.UserManager.Listing.{
  format_all_users_and_groups, format_all_users_and_groups-joined, user_lines,
  format_user_groups_line, format_groups,
}
use c_chat_rooms_app.User.{create, get_groups}
use c_chat_rooms_app.UserManager.{
  UserManager, UserManagerResult, add_user, remove_user, login, logout, remove_user_from_group,
}
use c_chat_rooms_app.UserManager.Invariant.{IsValid, names_at, fds_at}
use c_chat_rooms_app.UserManager.Registration.{Register, add_user-Register, remove_user-IsValid}
use c_chat_rooms_app.UserManager.Sessions.{Login, login-Login, Logout, logout-Logout}
use c_chat_rooms_app.UserManager.Membership.{Leaves, remove_user_from_group-Leaves}

abbrev users : UserManager library
users = grouped.0.users

add_user-Register_example :
    (r : UserManagerResult) × (m' : UserManager library) × (add_user library users plenty
        (pos 5)
        chess
        secret
      ≡ some (r, m'))
    × Register library users plenty (pos 5) chess secret r m'
    × IsValid library m'
add_user-Register_example = add_user-Register library users plenty (pos 5) chess secret valid.users

remove_user-IsValid_example :
    ((fds_at library users (pos 4) ≡ none)
      × (remove_user library users (pos 4) ≡ some (UserManagerResult.not_found, users)))
    ⊎ ((p : ℕ) × (u : User library.lists) × (m' : UserManager library) × (fds_at library users
            (pos 4)
          ≡ some p)
        × (users.users.cell p ≡ some u)
        × (remove_user library users (pos 4) ≡ some (UserManagerResult.success, m'))
        × (m'.users ≡ Heap.free users.users p)
        × (names_at library m' u.username ≡ none)
        × (fds_at library m' (pos 4) ≡ none)
        × IsValid library m')
remove_user-IsValid_example = remove_user-IsValid library users (pos 4) valid.users

login-Login_example :
    (r : UserManagerResult) × (m' : UserManager library) × (login library users (pos 5) ann secret
      ≡ some (r, m'))
    × Login library users (pos 5) ann secret r m'
    × IsValid library m'
login-Login_example = login-Login library users (pos 5) ann secret valid.users

logout-Logout_example :
    (r : UserManagerResult) × (m' : UserManager library) × (logout library users (pos 4)
      ≡ some (r, m'))
    × Logout library users (pos 4) r m'
    × (fds_at library m' (pos 4) ≡ none)
    × IsValid library m'
logout-Logout_example = logout-Logout library users (pos 4) valid.users

remove_user_from_group-Leaves_example :
    (r : UserManagerResult) × (m' : UserManager library) × (remove_user_from_group library users
        (pos 4)
        chess
      ≡ some (r, m'))
    × Leaves library users (pos 4) chess r m'
    × IsValid library m'
remove_user_from_group-Leaves_example =
    remove_user_from_group-Leaves library users (pos 4) chess valid.users

format_all_users_and_groups-joined_example :
    (text : Bytes) × (format_all_users_and_groups library users 20 ≡ some text)
    × (text ≡ take 19 (joined (codes "\n") true (user_lines library users)))
    × (length text < 20)
format_all_users_and_groups-joined_example =
    format_all_users_and_groups-joined library users 20 (omega arith) valid.users

-- A user in no group.
loner_line :
    format_user_groups_line library (create library.lists (pos 4) ann secret) 256
    ≡ some (codes "ann -> (none)")
unfolding format_user_groups_line format_groups create get_groups
loner_line = refl
