-- ===== src/Client/App/Sessions.antt =====
-- The handlers of the client meet no fault and keep the session well formed.
use c_chat_rooms_app.Base.{
  ℕ, ◌+◌, ◌%◌, ◌^◌, ◌≤◌, ◌<◌, ◌≡◌, refl, ◌⊎◌, inl, inr, Bool, true, false, Option, none, some, [],
  ◌∷◌, ◌++◌, ◌==◌, ltb, ◌>>=◌, Bool-cases, Option-cases, length, drop, replicate, Bytes, arith,
  length-append, length-drop,
}
use c_chat_rooms_app.Protocol.{ChatMessage, chat_max_value}
use c_chat_rooms_app.Protocol.Opcode
use c_chat_rooms_app.Protocol.Status
use c_chat_rooms_app.Client.Menu.{SessionState}
use c_chat_rooms_app.Client.Requests.{
  empty_request, memcpy_at, credentials_request, group_request, parse_endpoint,
}
use c_chat_rooms_app.Client.Requests.Readable.{pack_credentials-Packs, memcpy_at-append}
use c_chat_rooms_app.Client.App.{Windows, Network, Exchange, lost, got, ClientApp}
use c_chat_rooms_app.Client.App.Handlers.{
  lose, take_session, send_credentials, change_windows, take_group, send_group, leave_session,
  handle_logout, handle_list_action,
}
use c_chat_rooms_app.Client.App.Exchanges.{IsFit, IsAnswer, exchange_message-Meets}

Exchange-cases :
    (x : Exchange) → ((closed : Bool) × (x ≡ lost closed)) ⊎ ((m : ChatMessage) × (x ≡ got m))
Exchange-cases (lost closed) = inl (closed, refl)
Exchange-cases (got m) = inr (m, refl)

module _ (char_signed : Bool) (wins : Windows) where
  abbrev App : Type 0
  App = ClientApp char_signed wins

  -- A user who is logged in has a name, which fits the payload with its NUL.
  abbrev pub IsSession : App → Type 0
  IsSession app =
      app.state ≡ SessionState.logged_in → (u : Bytes) × (app.username ≡ some u) × (length u < 256)

  -- A handler that meets no fault and keeps the session.
  abbrev pub Ends : Option App → Type 0
  Ends o = (app : App) × (o ≡ some app) × IsSession app

  lose-IsSession :
      (closed : Bool) (app : App) → IsSession app → IsSession (lose char_signed wins closed app)
  unfolding lose
  lose-IsSession true app v on = cc
  lose-IsSession false app v on = v on

  take_session-IsSession :
      (net : Network) (name password : Bytes) (app : App) (x : Exchange)
      → IsFit char_signed wins net
      → length name < 256
      → IsSession app
      → IsSession (take_session char_signed wins net name password SessionState.logged_in app x)
  unfolding take_session
  take_session-IsSession net name password app (lost closed) fit short v =
      lose-IsSession closed app v
  take_session-IsSession net name password app (got m) fit short v =
      elim (Bool-cases (m.status == Status.ok)) [
        | inl ok ↦ rw ok (λ on. (name, rw fit.name_memory refl, short))
        | inr error ↦ rw error v
      ]

  credentials_request-total :
      (opcode : ℕ) (name password : Bytes)
      → (credentials_request opcode name password ≡ some none)
        ⊎ ((m : ChatMessage) × (credentials_request opcode name password ≡ some (some m))
            × (m.size ≤ length m.value)
            × (length name < 256))
  unfolding credentials_request
  credentials_request-total opcode name password =
      elim (Bool-cases (ltb chat_max_value (length name + length password + 2))) [
        | inl long ↦ inl (rw long refl)
        | inr short ↦
            let fits : length name + length password + 2 ≤ 256 = ground (arith, short) in
            let (m, packed, k) = pack_credentials-Packs opcode name password fits in
            inr (
              m,
              rw (short, packed) refl,
              omega (arith, k.size, k.array, fits),
              omega (arith, fits),
            )
      ]

  pub send_credentials-Ends :
      (net : Network) (opcode : ℕ) (app : App) (given : Option (Bytes × Bytes))
      → IsFit char_signed wins net
      → IsSession app
      → Ends (send_credentials char_signed wins net opcode SessionState.logged_in app given)
  unfolding send_credentials
  send_credentials-Ends net opcode app none fit v = (app, refl, v)
  send_credentials-Ends net opcode app (some (name, password)) fit v =
      elim (credentials_request-total opcode name password) [
        | inl refused ↦ (app, rw (refused, ◌>>=◌) refl, v)
        | inr (m, made, inside, short) ↦
            let (x, run, answer) =
              exchange_message-Meets char_signed wins net app.controller m fit inside in
            (
              take_session char_signed wins net name password SessionState.logged_in app x,
              rw (made, ◌>>=◌, run) refl,
              take_session-IsSession net name password app x fit short v,
            )
      ]

  -- The payload of the request of one name.
  name_value :
      (name : Bytes)
      → length name < 256
      → (value : Bytes) × (memcpy_at (replicate 256 0) 0 (name ++ 0 ∷ []) ≡ some value)
        × (length value ≡ 256)
  name_value name short =
      let zeros : Bytes = replicate 256 0 in
      let text : Bytes = name ++ 0 ∷ [] in
      let size : length text ≡ length name + 1 = length-append name (0 ∷ []) in
      (
        text ++ drop (length text) zeros,
        memcpy_at-append [] zeros text 0 refl (omega (arith, size, short)),
        omega (
          arith,
          length-append text (drop (length text) zeros),
          length-drop (length text) zeros,
          size,
          short,
        ),
      )

  group_request-total :
      (opcode : ℕ) (name : Bytes)
      → (group_request opcode name ≡ some none)
        ⊎ ((m : ChatMessage) × (group_request opcode name ≡ some (some m))
            × (m.size ≤ length m.value))
  unfolding group_request
  group_request-total opcode name = elim (Bool-cases (ltb chat_max_value (length name + 1))) [
    | inl long ↦ inl (rw long refl)
    | inr short ↦
        let fits : length name < 256 = ground (arith, short) in
        let (value, copied, whole) = name_value name fits in
        inr (
          record (empty_request opcode) { value = value; size = (length name + 1) % 2 ^ 16 },
          rw (short, copied) refl,
          omega (arith, whole, fits),
        )
  ]

  change_windows-Ends :
      (opcode : ℕ) (name : Bytes) (m : ChatMessage) (app : App)
      → IsAnswer char_signed wins (got m)
      → IsSession app
      → Ends (change_windows char_signed wins opcode name m app)
  unfolding change_windows
  change_windows-Ends opcode name m app (text, whole) v =
      let opened : Ends (
          some (elim (parse_endpoint 22 text) as (λ x. App) [
            | none ↦ app
            | some (ip, port) ↦ record app {
              windows = (wins.open_window app.windows name ip port app.username).1;
            }
          ])) =
        elim (Option-cases (parse_endpoint 22 text)) [
          | inl bad ↦ rw bad (app, refl, v)
          | inr ((ip, port), good) ↦ rw good (_, refl, v)
        ] in
      elim (Bool-cases (opcode == Opcode.create_group)) [
        | inl create ↦ rw (create, whole, ◌>>=◌) opened
        | inr other ↦ elim (Bool-cases (opcode == Opcode.join_group)) [
          | inl join ↦ rw (other, join, whole, ◌>>=◌) opened
          | inr third ↦ elim (Bool-cases (opcode == Opcode.leave_group)) [
            | inl leave ↦ rw (other, third, leave) (_, refl, v)
            | inr last ↦ rw (other, third, last) (app, refl, v)
          ]
        ]
      ]

  take_group-Ends :
      (opcode : ℕ) (name : Bytes) (app : App) (x : Exchange)
      → IsAnswer char_signed wins x
      → IsSession app
      → Ends (take_group char_signed wins opcode name app x)
  unfolding take_group
  take_group-Ends opcode name app (lost closed) a v = (_, refl, lose-IsSession closed app v)
  take_group-Ends opcode name app (got m) a v = elim (Bool-cases (m.status == Status.ok)) [
    | inl ok ↦ rw ok (change_windows-Ends opcode name m app a v)
    | inr error ↦ rw error (app, refl, v)
  ]

  pub send_group-Ends :
      (net : Network) (opcode : ℕ) (app : App) (name : Option Bytes)
      → IsFit char_signed wins net
      → IsSession app
      → Ends (send_group char_signed wins net opcode app name)
  unfolding send_group
  send_group-Ends net opcode app none fit v = (app, refl, v)
  send_group-Ends net opcode app (some name) fit v = elim (group_request-total opcode name) [
    | inl refused ↦ (app, rw (refused, ◌>>=◌) refl, v)
    | inr (m, made, inside) ↦
        let (x, run, answer) =
          exchange_message-Meets char_signed wins net app.controller m fit inside in
        rw (made, ◌>>=◌, run) (take_group-Ends opcode name app x answer v)
  ]

  leave_session-IsSession :
      (app : App) (x : Exchange) → IsSession app → IsSession (leave_session char_signed wins app x)
  unfolding leave_session
  leave_session-IsSession app (lost closed) v = lose-IsSession closed app v
  leave_session-IsSession app (got m) v = elim (Bool-cases (m.status == Status.ok)) [
    | inl ok ↦ rw ok (λ on. cc)
    | inr error ↦ rw error v
  ]

  pub handle_logout-Ends :
      (net : Network) (app : App)
      → IsFit char_signed wins net
      → app.state ≡ SessionState.logged_in
      → IsSession app
      → Ends (handle_logout char_signed wins net app)
  unfolding handle_logout
  handle_logout-Ends net app fit on v =
      let (u, name, short) = v on in
      let (value, copied, whole) = name_value u short in
      let (x, run, answer) =
        exchange_message-Meets char_signed wins net app.controller
          (record (empty_request Opcode.logout) { value = value }) fit (omega arith) in
      (
        leave_session char_signed wins app x,
        rw (name, ◌>>=◌, copied, run) refl,
        leave_session-IsSession app x v,
      )

  pub handle_list_action-Ends :
      (net : Network) (opcode : ℕ) (app : App)
      → IsFit char_signed wins net
      → IsSession app
      → Ends (handle_list_action char_signed wins net opcode app)
  unfolding handle_list_action
  handle_list_action-Ends net opcode app fit v =
      let (x, run, answer) =
        exchange_message-Meets char_signed wins net app.controller (empty_request opcode) fit
          (omega arith) in
      elim (Exchange-cases x) [
        | inl (closed, e) ↦
            (lose char_signed wins closed app, rw (run, ◌>>=◌, e) refl, lose-IsSession closed app v)
        | inr (m, e) ↦ (app, rw (run, ◌>>=◌, e) refl, v)
      ]
