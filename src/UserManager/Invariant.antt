-- ===== src/UserManager/Invariant.antt =====
-- When a user manager is well formed, and what its maps then give.
use c_chat_rooms_app.Base.{
  ℕ, ◌≡◌, refl, ap, ◌∙◌, ◌⊎◌, inl, inr, true, false, Option, none, some, ◌>>=◌, Option-cases, arith,
  Bytes, ℤ,
}
use mathlib.Core.Option.{some-injective}
use mathlib.Core.Path.{subst}
use c_chat_rooms_app.HashMap.{found, lookup}
use c_chat_rooms_app.Heap
use c_chat_rooms_app.Keys.{Library, name_key, fd_key}
use c_chat_rooms_app.User.{User, UserState, is_online}
use c_chat_rooms_app.UserManager.{UserManager, user_by_fd, user_by_name, create}
use c_chat_rooms_app.UserManager.View.{IsView}

pub found-snd : {V : Type 0} (o : Option V) → (found o).1 ≡ o
found-snd none = refl
found-snd (some v) = refl

module _ (lib : Library) where
  open lib use {lists, names, fds, char_signed}

  -- The address that each map holds for a key.
  abbrev pub names_at : UserManager lib → Bytes → Option ℕ
  names_at m n = lookup (name_key char_signed) n (names.entries m.by_name)

  abbrev pub fds_at : UserManager lib → ℤ → Option ℕ
  fds_at m fd = lookup fd_key fd (fds.entries m.by_fd)

  -- Every object is found under its name, and exactly the online ones under their connection.
  abbrev pub IsValid : UserManager lib → Type 0
  IsValid m = IsView lists m.users.next m.users.cell (names_at m) (fds_at m)

  pub user_by_fd-at : (m : UserManager lib) (fd : ℤ) → user_by_fd lib m fd ≡ fds_at m fd
  unfolding user_by_fd
  user_by_fd-at m fd = ap (λ r. r.1) (fds.find_lem m.by_fd fd) ∙ found-snd (fds_at m fd)

  pub user_by_name-at : (m : UserManager lib) (n : Bytes) → user_by_name lib m n ≡ names_at m n
  unfolding user_by_name
  user_by_name-at m n = ap (λ r. r.1) (names.find_lem m.by_name n) ∙ found-snd (names_at m n)

  -- A connection leads nowhere or to a live user that is online on it; a name likewise.
  pub fds_at_cases :
      (m : UserManager lib) (fd : ℤ)
      → IsValid m
      → (fds_at m fd ≡ none)
        ⊎ ((p : ℕ) × (u : User lists) × (fds_at m fd ≡ some p)
            × (m.users.cell p ≡ some u)
            × (u.fd_connection ≡ fd)
            × (u.state ≡ UserState.online))
  fds_at_cases m fd v = elim (Option-cases (fds_at m fd)) [
    | inl e ↦ inl e
    | inr (p, e) ↦ elim (Option-cases (m.users.cell p)) [
      | inl dead ↦ absurd (v.connected fd p e dead)
      | inr (u, c) ↦ let (same, on) = v.connected_as fd p u e c in inr (p, u, e, c, same, on)
    ]
  ]

  pub names_at_cases :
      (m : UserManager lib) (n : Bytes)
      → IsValid m
      → (names_at m n ≡ none)
        ⊎ ((p : ℕ) × (u : User lists) × (names_at m n ≡ some p)
            × (m.users.cell p ≡ some u)
            × (u.username ≡ n))
  names_at_cases m n v = elim (Option-cases (names_at m n)) [
    | inl e ↦ inl e
    | inr (p, e) ↦ elim (Option-cases (m.users.cell p)) [
      | inl dead ↦ absurd (v.named n p e dead)
      | inr (u, c) ↦ inr (p, u, e, c, v.named_as n p u e c)
    ]
  ]

  pub state_cases :
      (u : User lists)
      → ((u.state ≡ UserState.online) × (is_online lists u ≡ true))
        ⊎ (u.state ≡ UserState.offline) × (is_online lists u ≡ false)
  unfolding is_online
  state_cases u = ground arith

  empty-IsView :
      (by_name : Bytes → Option ℕ) (by_fd : ℤ → Option ℕ)
      → ((n : Bytes) → by_name n ≡ none)
      → ((j : ℤ) → by_fd j ≡ none)
      → IsView lists 0 (λ p. none) by_name by_fd
  empty-IsView by_name by_fd names fds = record {
    live = λ p u e. cc;
    registered = λ p u e. cc;
    named = λ n p e. cc (names n);
    named_as = λ n p u e c. cc;
    connected = λ j p e. cc (fds j);
    connected_as = λ j p u e c. cc;
    online = λ p u e on. cc;
    idle = λ p u e off. cc;
    distinct = λ p u e. cc;
  }

  -- A manager with no users, over two new maps.
  pub new-IsValid :
      (by_name : names.Map) (by_fd : fds.Map)
      → names.create 10 ≡ some by_name
      → fds.create 10 ≡ some by_fd
      → IsValid (record { users = Heap.empty; by_name = by_name; by_fd = by_fd })
  unfolding Heap.empty lookup
  new-IsValid by_name by_fd a b =
      empty-IsView _ _ (λ n. rw (names.entries-create 10 by_name a))
        (λ j. rw (fds.entries-create 10 by_fd b))

  -- `UserManager_Create` returns a well-formed manager with no users, or NULL.
  pub create-IsValid : (m : UserManager lib) → create lib ≡ some m → IsValid m
  unfolding create
  create-IsValid m e = elim (Option-cases (names.create 10)) [
    | inl a ↦ cc (rw (a, ◌>>=◌) at e)
    | inr (by_name, a) ↦ elim (Option-cases (fds.create 10)) [
      | inl b ↦ cc (rw (a, ◌>>=◌, b) at e)
      | inr (by_fd, b) ↦
          subst IsValid (some-injective _ _ (rw (a, ◌>>=◌, b) at e)) (new-IsValid by_name by_fd a b)
    ]
  ]
