-- ===== src/UserManager/Registration.antt =====
-- `UserManager_AddUser` and `UserManager_RemoveUser`.
use c_chat_rooms_app.Base.{
  ℕ, ◌≡◌, refl, ap, ◌⊎◌, inl, inr, true, false, none, some, ◌>>=◌, Option-cases, Bool-cases, arith,
  Bytes, ℤ,
}
use c_chat_rooms_app.HashMap.{is_success, MapResult, lookup, Inserts}
use c_chat_rooms_app.Heap.{Heap}
use c_chat_rooms_app.Heap
use c_chat_rooms_app.Keys.{Library, name_key, fd_key, equal_fds_iff, equal_names_iff}
use c_chat_rooms_app.User
use c_chat_rooms_app.User.{User, UserState, Memory}
use c_chat_rooms_app.UserManager.{
  UserManager, UserManagerResult, add_user, add_by_name, add_by_fd, remove_user,
}
use c_chat_rooms_app.UserManager.View.{IsView-congr, add-IsView, remove-IsView}
use c_chat_rooms_app.UserManager.Invariant.{IsValid, names_at, fds_at, user_by_fd-at, fds_at_cases}

module _ (lib : Library) where
  open lib use {lists, names, fds, char_signed}

  -- The new user, as `UserManager_AddUser` leaves it.
  abbrev pub new_user : ℤ → Bytes → Bytes → User lists
  new_user fd name password = record {
    fd_connection = fd;
    username = name;
    password = password;
    state = UserState.online;
    groups = none;
  }

  -- The heap after the object has been made and destroyed.
  abbrev pub dropped : UserManager lib → User lists → Heap (User lists)
  dropped m u = Heap.free (Heap.alloc m.users u) m.users.next

  -- What a registration may do to the manager `m`.
  pub data Register (m : UserManager lib) (mem : Memory) (fd : ℤ) (name password : Bytes)
      : UserManagerResult → UserManager lib → Type 0 where
    no_memory :
        mem.user ≡ false → Register m mem fd name password UserManagerResult.allocation_failed m
    taken :
        (q : ℕ)
        → mem.user ≡ true
        → names_at lib m name ≡ some q
        → Register m mem fd name password UserManagerResult.name_taken
            (record m { users = dropped m (User.create lists fd name password) })
    -- One of the maps does not take the user; the map of names reads as before.
    refused :
        (by_name : names.Map)
        → mem.user ≡ true
        → names_at lib m name ≡ none
        → ((n : Bytes) → lookup (name_key char_signed) n (names.entries by_name) ≡ names_at lib m n)
        → Register m mem fd name password UserManagerResult.internal_error
            (record m { users = dropped m (User.create lists fd name password); by_name = by_name })
    accepted :
        (by_name : names.Map) (by_fd : fds.Map)
        → mem.user ≡ true
        → names_at lib m name ≡ none
        → fds_at lib m fd ≡ none
        → Inserts
            (name_key char_signed)
            name
            m.users.next
            (names.entries m.by_name)
            (names.entries by_name)
        → Inserts fd_key fd m.users.next (fds.entries m.by_fd) (fds.entries by_fd)
        → Register m mem fd name password UserManagerResult.success (record {
          users =
              Heap.write
                (Heap.alloc m.users (User.create lists fd name password))
                m.users.next
                (new_user fd name password);
          by_name = by_name;
          by_fd = by_fd;
        })

  next_free : (m : UserManager lib) → IsValid lib m → m.users.cell m.users.next ≡ none
  next_free m v = elim (Option-cases (m.users.cell m.users.next)) [
    | inl e ↦ e
    | inr (u, e) ↦ absurd (omega (arith, v.live m.users.next u e))
  ]

  -- A registration keeps the manager well formed, whatever it does.
  pub Register-IsValid :
      {m : UserManager lib} {mem : Memory} {fd : ℤ} {name password : Bytes} {r : UserManagerResult}
      {m' : UserManager lib}
      → IsValid lib m
      → Register m mem fd name password r m'
      → IsValid lib m'
  unfolding Heap.write Heap.alloc Heap.free
  Register-IsValid v (no_memory e) = v
  Register-IsValid {m} v (taken q ok e) =
      IsView-congr lists v _ _ _ _ (omega arith) (λ p. ground (arith, next_free m v)) (λ n. refl)
        (λ j. refl)
  Register-IsValid {m} v (refused by_name ok free reads) =
      IsView-congr lists v _ _ _ _ (omega arith) (λ p. ground (arith, next_free m v)) reads
        (λ j. refl)
  Register-IsValid {m} {fd = fd} {name = name} {password = password} v
        (accepted by_name by_fd ok free_name free_fd a b) =
      let w =
        add-IsView lists v (new_user fd name password) _ _ refl refl free_name free_fd a.reads
          b.reads in
      IsView-congr lists w _ _ _ _ (omega arith) (λ p. ground arith) (λ n. refl) (λ j. refl)

  module _ (m : UserManager lib) (mem : Memory) (fd : ℤ) (name password : Bytes)
      (ok : mem.user ≡ true) (free : names_at lib m name ≡ none) where
    user₀ : User lists
    user₀ = User.create lists fd name password

    allocated : names.Map → UserManager lib
    allocated by_name = record m { users = Heap.alloc m.users user₀; by_name = by_name }

    -- The name that has gone in comes out again when the map by connection refuses.
    add_by_fd-refused :
        (by_name : names.Map)
        → Inserts
            (name_key char_signed)
            name
            m.users.next
            (names.entries m.by_name)
            (names.entries by_name)
        → (r : MapResult) → (fds.insert m.by_fd fd m.users.next ≡ (r, m.by_fd))
        → is_success r ≡ false
        → (m' : UserManager lib) × (add_by_fd lib (allocated by_name) m.users.next user₀
            ≡ some (UserManagerResult.internal_error, m'))
          × Register m mem fd name password UserManagerResult.internal_error m'
    unfolding add_by_fd User.create allocated user₀
    add_by_fd-refused by_name ins r run bad =
        let (by_name', out, rem) =
          names.remove_present by_name name m.users.next
            (ground (arith, ins.reads name, equal_names_iff name name)) in
        (
          _,
          rw (run, bad, out),
          refused by_name' ok free
              (λ n. ground (arith, rem.reads n, ins.reads n, equal_names_iff n name)),
        )

    add_by_fd-Register :
        (by_name : names.Map)
        → Inserts
            (name_key char_signed)
            name
            m.users.next
            (names.entries m.by_name)
            (names.entries by_name)
        → (r : UserManagerResult) × (m' : UserManager lib) × (add_by_fd lib
              (allocated by_name)
              m.users.next
              user₀
            ≡ some (r, m'))
          × Register m mem fd name password r m'
    unfolding add_by_fd User.create allocated user₀ User.set_state
    add_by_fd-Register by_name ins = elim (Option-cases (fds_at lib m fd)) [
      | inr (q, e) ↦
          let (m', run, g) =
            add_by_fd-refused by_name ins _ (fds.insert_duplicate m.by_fd fd m.users.next q e)
              refl in
          (UserManagerResult.internal_error, m', run, g)
      | inl e ↦ elim (fds.insert_fresh m.by_fd fd m.users.next e) [
        | inl full ↦
            let (m', run, g) = add_by_fd-refused by_name ins _ full refl in
            (UserManagerResult.internal_error, m', run, g)
        | inr (by_fd, run, b) ↦
            (UserManagerResult.success, _, rw run, accepted by_name by_fd ok free e ins b)
      ]
    ]

    add_by_name-Register :
        (r : UserManagerResult) × (m' : UserManager lib) × (add_by_name lib
            (allocated m.by_name)
            m.users.next
            user₀
          ≡ some (r, m'))
        × Register m mem fd name password r m'
    unfolding add_by_name User.create allocated user₀
    add_by_name-Register = elim (names.insert_fresh m.by_name name m.users.next free) [
      | inl full ↦ (
        UserManagerResult.internal_error,
        _,
        rw (full, add_by_name, ap (λ t. t.1) full),
        refused m.by_name ok free (λ n. refl),
      )
      | inr (by_name, run, ins) ↦
          rw (run, add_by_name, ap (λ t. t.1) run) (add_by_fd-Register by_name ins)
    ]

  add_by_name-taken :
      (m : UserManager lib) (fd : ℤ) (name password : Bytes) (q : ℕ)
      → names_at lib m name ≡ some q
      → add_by_name lib
          (record m { users = Heap.alloc m.users (User.create lists fd name password) })
          m.users.next
          (User.create lists fd name password)
        ≡ some (
          UserManagerResult.name_taken,
          record m { users = dropped m (User.create lists fd name password) },
        )
  unfolding add_by_name User.create
  add_by_name-taken m fd name password q e =
      let run = names.insert_duplicate m.by_name name m.users.next q e in
      rw (run, add_by_name, ap (λ t. t.1) run)

  -- `UserManager_AddUser` on a well-formed manager reads no dead object. Without memory for the
  -- object nothing changes; a name that is taken, or a map that does not take the user (a
  -- connection in use, or no memory), leaves every lookup as it was; otherwise the new user is
  -- online under its name and on its connection. The manager stays well formed.
  pub add_user-Register :
      (m : UserManager lib) (mem : Memory) (fd : ℤ) (name password : Bytes)
      → IsValid lib m
      → (r : UserManagerResult) × (m' : UserManager lib) × (add_user lib m mem fd name password
          ≡ some (r, m'))
        × Register m mem fd name password r m'
        × IsValid lib m'
  unfolding add_user
  add_user-Register m mem fd name password v = elim (Bool-cases mem.user) [
    | inr no_room ↦ (UserManagerResult.allocation_failed, m, rw no_room, no_memory no_room, v)
    | inl ok ↦ elim (Option-cases (names_at lib m name)) [
      | inl free ↦
          let (r, m', run, g) = add_by_name-Register m mem fd name password ok free in
          (r, m', rw ok (unfold user₀ allocated in run), g, Register-IsValid v g)
      | inr (q, e) ↦
          let g = taken q ok e in
          (
            UserManagerResult.name_taken,
            record m { users = dropped m (User.create lists fd name password) },
            rw ok (add_by_name-taken m fd name password q e),
            g,
            Register-IsValid v g,
          )
    ]
  ]

  -- `UserManager_RemoveUser` on a well-formed manager reads no dead object: with nobody on the
  -- connection nothing changes, and otherwise the user of the connection is found no more, neither
  -- by its name nor by the connection. The manager stays well formed.
  pub remove_user-IsValid :
      (m : UserManager lib) (fd : ℤ)
      → IsValid lib m
      → ((fds_at lib m fd ≡ none) × (remove_user lib m fd ≡ some (UserManagerResult.not_found, m)))
        ⊎ ((p : ℕ) × (u : User lists) × (m' : UserManager lib) × (fds_at lib m fd ≡ some p)
            × (m.users.cell p ≡ some u)
            × (remove_user lib m fd ≡ some (UserManagerResult.success, m'))
            × (m'.users ≡ Heap.free m.users p)
            × (names_at lib m' u.username ≡ none)
            × (fds_at lib m' fd ≡ none)
            × IsValid lib m')
  unfolding remove_user
  remove_user-IsValid m fd v = elim (fds_at_cases lib m fd v) [
    | inl e ↦ inl (e, rw (user_by_fd-at lib m fd, e, remove_user))
    | inr (p, u, e, c, same, on) ↦
        let named = v.registered p u c in
        let (by_name, out_name, rem_name) = names.remove_present m.by_name u.username p named in
        let (by_fd, out_fd, rem_fd) = fds.remove_present m.by_fd fd p e in
        inr (
          p,
          u,
          record { users = Heap.free m.users p; by_name = by_name; by_fd = by_fd },
          e,
          c,
          rw (user_by_fd-at lib m fd, e, remove_user, c, ◌>>=◌) (ground (arith, out_name, out_fd)),
          refl,
          ground (arith, rem_name.reads u.username, equal_names_iff u.username u.username),
          ground (arith, rem_fd.reads fd, equal_fds_iff fd fd),
          unfold Heap.free in remove-IsView lists v p u fd _ _ c e rem_name.reads rem_fd.reads,
        )
  ]
