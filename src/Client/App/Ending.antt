-- ===== src/Client/App/Ending.antt =====
-- `ClientApp_Run` comes to an end on every input.
use c_chat_rooms_app.Base.{
  ℕ, zero, suc, ◌-◌, ◌≤◌, ◌<◌, ◌≡◌, refl, ap, ◌∙◌, ◌⊎◌, inl, inr, Bool, Option, some, [], ◌∷◌, ◌==◌,
  Bool-cases, Option-cases, List-cases, length, Bytes, arith,
}
use mathlib.Core.Path.{subst}
use mathlib.Core.Option.{some-injective}
use c_chat_rooms_app.Protocol.Opcode
use c_chat_rooms_app.Client.Menu.{
  SessionState, MenuChoice, menu_none, menu_connect, menu_register, menu_login, menu_logout,
  menu_create_group, menu_join_group, menu_leave_group, menu_display_users, menu_display_groups,
  menu_exit, parse, read_line, fgets,
}
use c_chat_rooms_app.Client.Menu.Choosing.{parse-logout}
use c_chat_rooms_app.Client.Controller
use c_chat_rooms_app.Client.App.{
  Windows, Network, ClientApp, read_password, read_credentials, read_group_name,
}
use c_chat_rooms_app.Client.App.Handlers.{handle_connect, handle_exit}
use c_chat_rooms_app.Client.App.Run.{Next, ended, goes_on, after, perform, step, finished, run}
use c_chat_rooms_app.Client.App.Exchanges.{IsFit}
use c_chat_rooms_app.Client.App.Sessions.{
  IsSession, Ends, send_credentials-Ends, send_group-Ends, handle_logout-Ends,
  handle_list_action-Ends,
}

fgets_le : (room : ℕ) (input : Bytes) → length (fgets room input).1 ≤ length input
unfolding fgets
fgets_le room [] = omega arith
fgets_le zero (c ∷ cs) = omega arith
fgets_le (suc room) (c ∷ cs) = elim (Bool-cases (c == 10)) [
  | inl end ↦ rw end (omega arith)
  | inr other ↦ rw other (omega (arith, fgets_le room cs))
]

fgets_lt : (room : ℕ) (c : ℕ) (cs : Bytes) → length (fgets (suc room) (c ∷ cs)).1 < length (c ∷ cs)
unfolding fgets
fgets_lt room c cs = elim (Bool-cases (c == 10)) [
  | inl end ↦ rw end (omega arith)
  | inr other ↦ rw other (omega (arith, fgets_le room cs))
]

-- A line takes at least one byte from the input.
read_line_lt :
    (room : ℕ) (input line rest : Bytes)
    → read_line (suc (suc room)) input ≡ some (line, rest)
    → length rest < length input
unfolding read_line
read_line_lt room [] line rest e = cc
read_line_lt room (c ∷ cs) line rest e =
    let same : suc (suc room) - 1 ≡ suc room = omega arith in
    let rest_is : (fgets (suc room) (c ∷ cs)).1 ≡ rest =
      ap (λ t. t.1) (some-injective _ _ (rw same at e)) in
    subst (λ r. length r < length (c ∷ cs)) rest_is (fgets_lt room c cs)

read_password_le : (name input : Bytes) → length (read_password name input).1 ≤ length input
unfolding read_password
read_password_le name input = elim (Option-cases (read_line 64 input)) [
  | inl out ↦ rw (read_password, out) (omega arith)
  | inr ((line, rest), e) ↦
      let less = read_line_lt 62 input line rest e in
      elim (List-cases line) [
        | inl empty ↦ rw (read_password, e, empty) (omega (arith, less))
        | inr (c, cs, more) ↦ rw (read_password, e, more) (omega (arith, less))
      ]
]

read_credentials_le : (input : Bytes) → length (read_credentials input).1 ≤ length input
unfolding read_credentials
read_credentials_le input = elim (Option-cases (read_line 64 input)) [
  | inl out ↦ rw (read_credentials, out) (omega arith)
  | inr ((line, rest), e) ↦
      let less = read_line_lt 62 input line rest e in
      elim (List-cases line) [
        | inl empty ↦ rw (read_credentials, e, empty) (omega (arith, less))
        | inr (c, cs, more) ↦
            rw (read_credentials, e, more) (omega (arith, less, read_password_le (c ∷ cs) rest))
      ]
]

read_group_name_le : (input : Bytes) → length (read_group_name input).1 ≤ length input
unfolding read_group_name
read_group_name_le input = elim (Option-cases (read_line 128 input)) [
  | inl out ↦ rw (read_group_name, out) (omega arith)
  | inr ((line, rest), e) ↦
      let less = read_line_lt 126 input line rest e in
      elim (List-cases line) [
        | inl empty ↦ rw (read_group_name, e, empty) (omega (arith, less))
        | inr (c, cs, more) ↦ rw (read_group_name, e, more) (omega (arith, less))
      ]
]

module _ (char_signed : Bool) (wins : Windows) where
  abbrev App : Type 0
  App = ClientApp char_signed wins

  -- A round ends the run disconnected, or goes on with a session and no more input than before.
  abbrev Rounds : Bytes → Next char_signed wins → Type 0
  Rounds input next =
      ((app : App) × (next ≡ ended app) × (app.state ≡ SessionState.disconnected))
      ⊎ ((app : App) × (rest : Bytes) × (next ≡ goes_on app rest)
          × IsSession char_signed wins app
          × (length rest ≤ length input))

  handle_exit-disconnected :
      (app : App) → (handle_exit char_signed wins app).state ≡ SessionState.disconnected
  unfolding handle_exit
  handle_exit-disconnected app = ground arith

  handle_connect-IsSession :
      (net : Network) (app : App)
      → IsSession char_signed wins app
      → IsSession char_signed wins (handle_connect char_signed wins net app)
  unfolding handle_connect
  handle_connect-IsSession net app v =
      elim (Bool-cases
        (Controller.is_success (Controller.start net.socket net.connects app.controller).0)) [
          | inl ok ↦ rw ok (λ on. cc)
          | inr error ↦ rw error v
        ]

  after-Rounds :
      (o : Option App) (input rest : Bytes)
      → Ends char_signed wins o
      → length rest ≤ length input
      → Rounds input (after char_signed wins o rest)
  unfolding after
  after-Rounds o input rest (app, e, v) le = inr (app, rest, rw e refl, v, le)

  perform-Rounds :
      (net : Network) (app : App) (input : Bytes) (choice : MenuChoice)
      → IsFit char_signed wins net
      → IsSession char_signed wins app
      → (choice ≡ menu_logout → app.state ≡ SessionState.logged_in)
      → Rounds input (perform char_signed wins net app input choice)
  unfolding perform
  perform-Rounds net app input menu_none fit v on = inr (app, input, refl, v, omega arith)
  perform-Rounds net app input menu_connect fit v on = inr (
    handle_connect char_signed wins net app,
    input,
    refl,
    handle_connect-IsSession net app v,
    omega arith,
  )
  perform-Rounds net app input menu_register fit v on =
      after-Rounds _ input (read_credentials input).1
        (send_credentials-Ends char_signed wins net Opcode.register app (read_credentials input).0
          fit v)
        (read_credentials_le input)
  perform-Rounds net app input menu_login fit v on =
      after-Rounds _ input (read_credentials input).1
        (send_credentials-Ends char_signed wins net Opcode.login app (read_credentials input).0 fit
          v)
        (read_credentials_le input)
  perform-Rounds net app input menu_logout fit v on =
      after-Rounds _ input input (handle_logout-Ends char_signed wins net app fit (on refl) v)
        (omega arith)
  perform-Rounds net app input menu_create_group fit v on =
      after-Rounds _ input (read_group_name input).1
        (send_group-Ends char_signed wins net Opcode.create_group app (read_group_name input).0 fit
          v)
        (read_group_name_le input)
  perform-Rounds net app input menu_join_group fit v on =
      after-Rounds _ input (read_group_name input).1
        (send_group-Ends char_signed wins net Opcode.join_group app (read_group_name input).0 fit v)
        (read_group_name_le input)
  perform-Rounds net app input menu_leave_group fit v on =
      after-Rounds _ input (read_group_name input).1
        (send_group-Ends char_signed wins net Opcode.leave_group app (read_group_name input).0 fit
          v)
        (read_group_name_le input)
  perform-Rounds net app input menu_display_users fit v on =
      after-Rounds _ input input
        (handle_list_action-Ends char_signed wins net Opcode.list_users app fit v) (omega arith)
  perform-Rounds net app input menu_display_groups fit v on =
      after-Rounds _ input input
        (handle_list_action-Ends char_signed wins net Opcode.list_groups app fit v) (omega arith)
  perform-Rounds net app input menu_exit fit v on =
      inl (handle_exit char_signed wins app, refl, handle_exit-disconnected app)

  -- `ClientApp_Run` ends on every finite input, with a number of rounds above that of the input's
  -- bytes, and leaves the session disconnected; it meets no fault. This asks that `strdup` finds
  -- memory, that the buffers have their sizes, and that the text of each response that comes ends
  -- inside its array.
  pub run-finishes :
      (fuel : ℕ) (nets : ℕ → Network) (app : App) (input : Bytes)
      → length input < fuel
      → ((i : ℕ) → IsFit char_signed wins (nets i))
      → IsSession char_signed wins app
      → (app' : App) × (run char_signed wins fuel nets app input ≡ finished app')
        × (app'.state ≡ SessionState.disconnected)
  unfolding run step
  run-finishes zero nets app input enough fit v = absurd (omega (arith, enough))
  run-finishes (suc fuel) nets app input enough fit v = elim (Option-cases (read_line 64 input)) [
    | inl out ↦
        let end : run char_signed wins (suc fuel) nets app input
            ≡ finished (handle_exit char_signed wins app) =
          rw (run, out) refl in
        (handle_exit char_signed wins app, end, handle_exit-disconnected app)
    | inr ((line, rest), e) ↦
        let less = read_line_lt 62 input line rest e in
        elim (perform-Rounds (nets 0) app rest (parse line app.state) (fit 0) v
          (parse-logout line app.state)) [
            | inl (app', exit, off) ↦
                let end : run char_signed wins (suc fuel) nets app input ≡ finished app' =
                  rw (run, e, exit) refl in
                (app', end, off)
            | inr (app₁, rest₁, more, w, le) ↦
                let (app', end, off) =
                  run-finishes fuel (λ i. nets (suc i)) app₁ rest₁ (omega (arith, le, less, enough))
                    (λ i. fit (suc i)) w in
                let next : run char_signed wins (suc fuel) nets app input
                    ≡ run char_signed wins fuel (λ i. nets (suc i)) app₁ rest₁ =
                  rw (run, e, more) refl in
                (app', next ∙ end, off)
          ]
  ]
