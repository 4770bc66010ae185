-- ===== src/Client/Menu.antt =====
-- Client/Menu.c: the choices that are offered in each state of the session, and the reading of one.
pub mod Choosing
use c_chat_rooms_app.Base.{
  ℕ, zero, suc, ◌+◌, ◌-◌, ◌*◌, ◌%◌, ◌^◌, ◌≤◌, ◌<◌, ◌≡◌, refl, ◌⊎◌, inl, inr, Bool, true, false, not,
  ◌&&◌, ◌||◌, Option, none, some, List, [], ◌∷◌, ◌++◌, ltb, leb, ◌==◌, if◌then◌else◌, Bool-cases,
  Option-cases, arith, Bytes, codes, length, get_elem?, Each,
}

pub data SessionState : Type 0 where
  disconnected connected logged_in : SessionState

pub data MenuChoice : Type 0 where
  menu_none menu_connect menu_register menu_login menu_logout menu_create_group : MenuChoice
  menu_join_group menu_leave_group menu_display_users menu_display_groups menu_exit : MenuChoice

-- `GetOptions`
unfoldable pub get_options : SessionState → List MenuChoice
get_options SessionState.disconnected = menu_connect ∷ menu_exit ∷ []
get_options SessionState.connected = menu_register ∷ menu_login ∷ menu_exit ∷ []
get_options SessionState.logged_in =
    menu_logout ∷ menu_create_group ∷ menu_join_group ∷ menu_leave_group ∷ menu_display_users
    ∷ menu_display_groups ∷ menu_exit ∷ []

unfoldable pub choice_label : MenuChoice → Bytes
choice_label menu_connect = codes "Connect"
choice_label menu_register = codes "Register"
choice_label menu_login = codes "Login"
choice_label menu_logout = codes "Logout"
choice_label menu_create_group = codes "Create group"
choice_label menu_join_group = codes "Join group"
choice_label menu_leave_group = codes "Leave group"
choice_label menu_display_users = codes "Display users"
choice_label menu_display_groups = codes "Display groups"
choice_label menu_exit = codes "Exit"
choice_label menu_none = codes "?"

unfoldable pub state_label : SessionState → Bytes
state_label SessionState.disconnected = codes "DISCONNECTED"
state_label SessionState.connected = codes "CONNECTED"
state_label SessionState.logged_in = codes "LOGGED_IN"

-- `isspace` and `isdigit` of ASCII.
abbrev pub is_space : ℕ → Bool
is_space c = c == 32 || (leb 9 c && leb c 13)

abbrev pub is_digit : ℕ → Bool
is_digit c = leb 48 c && leb c 57

-- A line of `Menu_Render`: the number of an option below 10, and its label.
unfoldable pub render_option : ℕ → MenuChoice → Bytes
unfolding choice_label
render_option i choice =
    codes "  " ++ (48 + i + 1) ∷ [] ++ codes ". " ++ choice_label choice ++ codes "\n"

unfoldable pub render_options : ℕ → List MenuChoice → Bytes
unfolding render_option
render_options i [] = []
render_options i (choice ∷ rest) = render_option i choice ++ render_options (suc i) rest

-- `Menu_Render`
unfoldable pub render : SessionState → Bytes
unfolding state_label render_options
render state =
    codes "\n=== Chat client ["
    ++ state_label state
    ++ codes "] ===\n"
    ++ render_options 0 (get_options state)

unfoldable pub skip_space : Bytes → Bytes
skip_space [] = []
skip_space (c ∷ cs) = let rest = skip_space cs in if is_space c then rest else c ∷ cs

-- The number that the digits at the front make, in 64 bits, and what follows them.
unfoldable pub read_selection : ℕ → Bytes → ℕ × Bytes
read_selection selection [] = (selection, [])
read_selection selection (c ∷ cs) =
    let rest = read_selection ((selection * 10 + (c - 48)) % 2 ^ 64) cs in
    if is_digit c then rest else (selection, c ∷ cs)

-- The option of a number.
unfoldable pub option_at : List MenuChoice → ℕ → MenuChoice
option_at opts selection =
    if selection == 0
    then menu_none
    else if ltb (length opts) selection
    then menu_none
    else elim (get_elem? opts (selection - 1)) [ none ↦ menu_none | some choice ↦ choice ]

-- `Menu_Parse`, after the digits.
unfoldable pub select : ℕ × Bytes → List MenuChoice → MenuChoice
unfolding skip_space option_at
select (selection, rest) opts = elim (skip_space rest) [
  | [] ↦ option_at opts selection
  | _ ↦ menu_none
]

-- `Menu_Parse`, after the white space.
unfoldable pub parse_selection : Bytes → List MenuChoice → MenuChoice
unfolding read_selection select
parse_selection [] opts = menu_none
parse_selection (c ∷ cs) opts =
    let choice = select (read_selection 0 (c ∷ cs)) opts in if is_digit c then choice else menu_none

-- `Menu_Parse`
unfoldable pub parse : Bytes → SessionState → MenuChoice
unfolding skip_space parse_selection get_options
parse line state = parse_selection (skip_space line) (get_options state)

-- `fgets` into `size` bytes, above 1: the bytes up to a newline or until `size - 1` are read, and what
-- is left of the input.
unfoldable pub fgets : ℕ → Bytes → Bytes × Bytes
fgets room [] = ([], [])
fgets zero (c ∷ cs) = ([], c ∷ cs)
fgets (suc room) (c ∷ cs) =
    let (line, rest) = fgets room cs in if c == 10 then (c ∷ [], cs) else (c ∷ line, rest)

-- The loop of `Menu_ReadLine` that takes line ends off the back.
unfoldable pub strip_line_end : Bytes → Bytes
strip_line_end [] = []
strip_line_end (c ∷ cs) = elim (strip_line_end cs) [
  | [] ↦ if c == 10 || c == 13 then [] else c ∷ []
  | d ∷ ds ↦ c ∷ d ∷ ds
]

-- The bytes before the first NUL.
unfoldable pub before_nul : Bytes → Bytes
before_nul [] = []
before_nul (c ∷ cs) = let rest = before_nul cs in if c == 0 then [] else c ∷ rest

-- `Menu_ReadLine` into `size` bytes, above 1: `none` at the end of the input.
unfoldable pub read_line : ℕ → Bytes → Option (Bytes × Bytes)
unfolding fgets strip_line_end before_nul
read_line size [] = none
read_line size (c ∷ cs) =
    let (line, rest) = fgets (size - 1) (c ∷ cs) in some (strip_line_end (before_nul line), rest)
