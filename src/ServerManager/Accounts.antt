-- ===== src/ServerManager/Accounts.antt =====
-- Registration and login.
use c_chat_rooms_app.Base.{
  ℕ, suc, ◌<◌, ◌≡◌, refl, ap, sym, ◌↔◌, true, Option, none, some, codes, ◌>>=◌, if◌then◌else◌,
  arith, Bytes, ℤ,
}
use c_chat_rooms_app.DList.{any}
use c_chat_rooms_app.Heap
use c_chat_rooms_app.Heap.{sum_below, sum_below_congr}
use c_chat_rooms_app.Keys.{Library}
use c_chat_rooms_app.User
use c_chat_rooms_app.User.{User, Memory}
use c_chat_rooms_app.User.Groups.{names_of}
use c_chat_rooms_app.UserManager
use c_chat_rooms_app.UserManager.{UserManager, UserManagerResult}
use c_chat_rooms_app.UserManager.Sessions.{
  Login, unknown, already, wrong, refused, accepted, login-Login,
}
use c_chat_rooms_app.UserManager.Registration.{Register, add_user-Register}
use c_chat_rooms_app.UserManager.Registration
use c_chat_rooms_app.UserManager.Members.{members, members-write, weight}
use c_chat_rooms_app.ServerManager.{
  ServerManager, Reply, bare, with_text, credentials, action_register, action_login, login_reply,
  is_success_user,
}
use c_chat_rooms_app.ServerManager.Names
use c_chat_rooms_app.ServerManager.Counted.{IsValid}
use c_chat_rooms_app.ServerManager.Leaving.{Counts-congr}
use c_chat_rooms_app.ServerManager.Membership.{count}
use c_chat_rooms_app.Protocol.Status

module _ (lib : Library) where
  open lib use {lists}

  -- A login moves nobody into or out of a group.
  Login-count :
      {r : UserManagerResult} (m : UserManager lib) (fd : ℤ) (name password : Bytes)
      (m' : UserManager lib)
      → UserManager.Invariant.IsValid lib m
      → Login lib m fd name password r m'
      → (n : Bytes) → count lib m n ≡ count lib m' n
  Login-count m fd name password m' v (unknown e) n = refl
  Login-count m fd name password m' v (already p u e c on) n = refl
  Login-count m fd name password m' v (wrong p u e c off d) n = refl
  Login-count m fd name password m' v (refused p u e c off same why) n =
      omega (
        arith,
        members-write lists m.users n p u (record u { fd_connection = fd }) (v.live p u c) c,
      )
  Login-count m fd name password m' v (accepted p u by_fd e c off same free ins) n = omega (
    arith,
    members-write lists m.users n p u
        (record u { fd_connection = fd; state = User.UserState.online }) (v.live p u c) c,
  )

  -- The reply to a login, by what became of it; `size` is the length of the request.
  pub data LoginReply (size : ℕ) : UserManagerResult → Reply → Type 0 where
    welcome :
        LoginReply size UserManagerResult.success
          (record { status = Status.ok; text = some (codes "Login successful"); size = 17 })
    twice :
        LoginReply size UserManagerResult.already_log
          (record { status = Status.err_already_logged_in; text = none; size = 0 })
    unknown_name : LoginReply size UserManagerResult.not_found (record {
      status = Status.err_bad_creds;
      text = some (codes "USER_MANAGER_RESULT_NOT_FOUND");
      size = size;
    })
    wrong_password : LoginReply size UserManagerResult.bad_creds (record {
      status = Status.err_bad_creds;
      text = some (codes "USER_MANAGER_RESULT_BAD_CREDS");
      size = size;
    })
    no_session : LoginReply size UserManagerResult.internal_error (record {
      status = Status.err_bad_creds;
      text = some (codes "USER_MANAGER_RESULT_INTERNAL_ERROR");
      size = size;
    })

  Login-reply :
      {m : UserManager lib} {fd : ℤ} {name password : Bytes} {r : UserManagerResult}
      {m' : UserManager lib} (size : ℕ)
      → Login lib m fd name password r m'
      → LoginReply size r (login_reply lib r size)
  unfolding login_reply Names.user_result
  Login-reply size (unknown e) = unknown_name
  Login-reply size (already p u e c on) = twice
  Login-reply size (wrong p u e c off d) = wrong_password
  Login-reply size (refused p u e c off same why) = no_session
  Login-reply size (accepted p u by_fd e c off same free ins) = welcome

  -- `ServerManager_ActionLogin` on a well-formed server, for a request that holds a name and a
  -- password: it reads no dead object, does what `UserManager_Login` does, and replies CHAT_OK to a
  -- login that succeeds, CHAT_ERR_ALREADY_LOGGED_IN if the user is online already, and
  -- CHAT_ERR_BAD_CREDS with the name of the result otherwise. The groups do not change, and the server
  -- stays well formed.
  pub action_login-IsValid :
      (s : ServerManager lib) (fd : ℤ) (value name password : Bytes) (size : ℕ)
      → IsValid lib s
      → credentials value ≡ some (name, password)
      → (r : UserManagerResult) × (reply : Reply) × (s' : ServerManager lib) × (action_login lib s
            fd value size
          ≡ some (reply, s'))
        × LoginReply size r reply
        × Login lib s.users fd name password r s'.users
        × (s'.groups ≡ s.groups)
        × IsValid lib s'
  unfolding action_login
  action_login-IsValid s fd value name password size v e =
      let (r, m', run, l, v') = login-Login lib s.users fd name password v.users in
      (
        r,
        login_reply lib r size,
        record s { users = m' },
        rw (e, ◌>>=◌, run) refl,
        Login-reply size l,
        l,
        refl,
        record {
          users = v';
          groups = v.groups;
          counts = Counts-congr lib (Login-count s.users fd name password m' v.users l) v.counts;
        },
      )

  -- An address more, of an object that is in no group.
  members-grow :
      (n : Bytes) (next : ℕ) (cell cell' : ℕ → Option (User lists))
      → weight lists n (cell' next) ≡ 0
      → ((q : ℕ) → q < next → cell' q ≡ cell q)
      → members lists n next cell ≡ members lists n (suc next) cell'
  unfolding members sum_below
  members-grow n next cell cell' z h =
      omega (arith, z, sum_below_congr next _ _ (λ q l. ap (weight lists n) (sym (h q l))))

  -- A new user is in no group.
  Register-count :
      {r : UserManagerResult} (m : UserManager lib) (mem : Memory) (fd : ℤ) (name password : Bytes)
      (m' : UserManager lib)
      → Register lib m mem fd name password r m'
      → (n : Bytes) → count lib m n ≡ count lib m' n
  unfolding Heap.write Heap.alloc Heap.free weight names_of any
  Register-count m mem fd name password m' (Registration.no_memory e) n = refl
  Register-count m mem fd name password m' (Registration.taken q ok e) n =
      members-grow n m.users.next m.users.cell _ (ground arith) (λ p l. ground arith)
  Register-count m mem fd name password m' (Registration.refused by_name ok free reads) n =
      members-grow n m.users.next m.users.cell _ (ground arith) (λ p l. ground arith)
  Register-count m mem fd name password m' (Registration.accepted by_name by_fd ok a b c d) n =
      members-grow n m.users.next m.users.cell _ (ground arith) (λ p l. ground arith)

  -- `ServerManager_ActionRegister` on a well-formed server, for a request that holds a name and a
  -- password: it reads no dead object, does what `UserManager_AddUser` does, and replies CHAT_OK
  -- exactly when the user has been added. The server stays well formed.
  pub action_register-IsValid :
      (s : ServerManager lib) (mem : Memory) (fd : ℤ) (value name password : Bytes)
      → IsValid lib s
      → credentials value ≡ some (name, password)
      → (r : UserManagerResult) × (reply : Reply) × (s' : ServerManager lib) × (action_register lib
            s mem fd value
          ≡ some (reply, s'))
        × Register lib s.users mem fd name password r s'.users
        × ((reply.status ≡ Status.ok) ↔ (is_success_user r ≡ true))
        × IsValid lib s'
  unfolding action_register
  action_register-IsValid s mem fd value name password v e =
      let (r, m', run, l, v') = add_user-Register lib s.users mem fd name password v.users in
      (
        r,
        (if is_success_user r
            then bare Status.ok
            else with_text Status.err_bad_creds (Names.user_result r)),
        record s { users = m' },
        rw (e, ◌>>=◌, run) refl,
        l,
        ground arith,
        record {
          users = v';
          groups = v.groups;
          counts = Counts-congr lib (Register-count s.users mem fd name password m' l) v.counts;
        },
      )
