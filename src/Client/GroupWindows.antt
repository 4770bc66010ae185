-- ===== src/Client/GroupWindows.antt =====
-- Client/GroupWindows.c: the two windows of each group that the user is in. What the system does
-- during one call is a record; the signals that a call sends are listed in their order. The manager,
-- the group name and the address are never NULL: the callers pass arrays.
pub mod Closing
pub mod Opening
pub mod Ledger
use c_chat_rooms_app.Base.{
  ℕ, zero, suc, Bool, true, false, ◌≡◌, ◌&&◌, Option, none, some, List, [], ◌∷◌, ◌++◌, ◌-◌, take,
  if◌then◌else◌, ◌>>=◌, Bytes, codes, ℤ, pos, negsuc, int_eq,
}
use c_chat_rooms_app.HashMap.{Key, HashMap, MapResult, is_success}
use c_chat_rooms_app.Keys.{name_key}

pub record GroupPids : Type 0 where
  pub sender : ℤ
  pub receiver : ℤ

-- The key functions are those of the server: `HashGroupName` and `GroupNamesEqual` are the loop and
-- the test of Keys.
abbrev pub group_key : Bool → Key Bytes
group_key char_signed = name_key char_signed

-- GroupWindowsResult
pub data GroupWindowsResult : Type 0 where
  success null_ptr alloc_failed spawn_failed pid_timeout not_found : GroupWindowsResult

abbrev pub succeeded : GroupWindowsResult → Bool
succeeded GroupWindowsResult.success = true
succeeded _ = false

pub record ChatPidMsg : Type 0 where
  pub role : ℤ
  pub pid : ℤ

-- What the system does in one call of GroupWindows_Open: `system` on a command, the two
-- `mq_timedreceive` (none after the deadline), `calloc` and `strdup`.
pub record World : Type 0 where
  pub system : Bytes → ℤ
  pub first : Option ChatPidMsg
  pub second : Option ChatPidMsg
  pub pair_memory : Bool
  pub key_memory : Bool

-- CONF_CHAT_WINDOWS_MAP_SIZE
abbrev pub map_size : ℕ
map_size = 16

-- CONF_CHAT_SPAWN_CMD_MAX
abbrev pub spawn_cmd_max : ℕ
spawn_cmd_max = 256

unfoldable pub is_positive : ℤ → Bool
is_positive (pos zero) = false
is_positive (pos (suc n)) = true
is_positive (negsuc n) = false

-- The process that KillPids signals for one of the two slots.
unfoldable pub signal : ℤ → List ℤ
unfolding is_positive
signal pid = if is_positive pid then pid ∷ [] else []

unfoldable pub kill_pids : GroupPids → List ℤ
unfolding signal
kill_pids pids = signal pids.sender ++ signal pids.receiver

-- `calloc`
abbrev pub no_pids : GroupPids
no_pids = record { sender = pos 0; receiver = pos 0 }

-- `CollectPid`, once a message is there.
unfoldable pub store : ChatPidMsg → GroupPids → GroupPids
store msg pids =
    if int_eq msg.role (pos 0)
    then record pids { sender = msg.pid }
    else record pids { receiver = msg.pid }

unfoldable pub collect_pid : Option ChatPidMsg → GroupPids → GroupWindowsResult × GroupPids
unfolding store
collect_pid none pids = (GroupWindowsResult.pid_timeout, pids)
collect_pid (some msg) pids = (GroupWindowsResult.success, store msg pids)

-- The loop of GroupWindows_Open, over the answers of the queue.
unfoldable pub collect_pids : List (Option ChatPidMsg) → GroupPids → GroupWindowsResult × GroupPids
unfolding collect_pid
collect_pids [] pids = (GroupWindowsResult.success, pids)
collect_pids (answer ∷ answers) pids =
    let (r, pids₁) = collect_pid answer pids in
    let rest = collect_pids answers pids₁ in if succeeded r then rest else (r, pids₁)

unfoldable pub spawn_window : World → Bytes → GroupWindowsResult
spawn_window w command =
    if int_eq (w.system command) (pos 0)
    then GroupWindowsResult.success
    else GroupWindowsResult.spawn_failed

-- The commands, cut off where the buffer ends; the argument prints a port by `%u`.
unfoldable pub receiver_command : (ℕ → Bytes) → Bytes → ℕ → Bytes
receiver_command print_unsigned ip port =
    take (spawn_cmd_max - 1)
      (codes "gnome-terminal -- build/out.chat_receiver " ++ ip ++ codes " " ++ print_unsigned port)

unfoldable pub sender_command : (ℕ → Bytes) → Bytes → ℕ → Bytes → Bytes
sender_command print_unsigned ip port username = take (spawn_cmd_max - 1) (
    codes "gnome-terminal -- build/out.chat_sender "
    ++ ip
    ++ codes " "
    ++ print_unsigned port
    ++ codes " "
    ++ username)

module _ (char_signed : Bool) (maps : HashMap Bytes GroupPids (group_key char_signed)) where
  -- The map is NULL if GroupWindows_CloseAll could not create it again; its operations then report
  -- MAP_UNINITIALIZED_ERROR.
  pub record GroupWindows : Type 0 where
    pub groups : Option maps.Map

  pub record Call : Type 0 where
    pub result : GroupWindowsResult
    pub windows : GroupWindows
    pub signals : List ℤ

  abbrev pub call : GroupWindowsResult → Option maps.Map → List ℤ → Call
  call r m signals = record { result = r; windows = record { groups = m }; signals = signals }

  -- `GroupWindows_Create`, with what `malloc` and `mq_open` report.
  unfoldable pub create : Bool → Bool → Option GroupWindows
  create memory queue =
      if memory
      then (do m ← maps.create map_size; if queue then some (record { groups = some m }) else none)
      else none

  -- `GroupWindows_Close`; NULL pids after a removal that succeeds are a fault.
  unfoldable pub close : GroupWindows → Bytes → Option Call
  unfolding kill_pids
  close g name = elim g.groups [
    | none ↦ some (call GroupWindowsResult.not_found none [])
    | some m ↦
        let (r, removed, m') = maps.remove m name in
        if is_success r
        then (do
          (k, pids) ← removed
          some (call GroupWindowsResult.success (some m') (kill_pids pids)))
        else some (call GroupWindowsResult.not_found (some m') [])
  ]

  unfoldable pub is_tracked : GroupWindows → Bytes → Bool
  is_tracked g name = elim g.groups [ none ↦ false | some m ↦ is_success (maps.find m name).0 ]

  -- The stale pair of GroupWindows_Open.
  unfoldable pub close_stale : GroupWindows → Bytes → Option Call
  unfolding close is_tracked
  close_stale g name =
      if is_tracked g name then close g name else some (call GroupWindowsResult.success g.groups [])

  -- The end of GroupWindows_Open, with both pids.
  unfoldable pub track : World → GroupWindows → Bytes → GroupPids → Call
  unfolding kill_pids
  track w g name pids = elim g.groups [
    | none ↦ call GroupWindowsResult.alloc_failed none (kill_pids pids)
    | some m ↦
        let (r, m') = maps.insert m name pids in
        if w.key_memory
        then (if is_success r
            then call GroupWindowsResult.success (some m') []
            else call GroupWindowsResult.alloc_failed (some m') (kill_pids pids))
        else call GroupWindowsResult.alloc_failed (some m) (kill_pids pids)
  ]

  -- GroupWindows_Open, once both windows are spawned.
  unfoldable pub collect : World → GroupWindows → Bytes → Call
  unfolding collect_pids track kill_pids
  collect w g name =
      let (r, pids) = collect_pids (w.first ∷ w.second ∷ []) no_pids in
      if w.pair_memory
      then (if succeeded r then track w g name pids else call r g.groups (kill_pids pids))
      else call GroupWindowsResult.alloc_failed g.groups []

  -- GroupWindows_Open, once the stale pair is closed.
  unfoldable pub launch : (ℕ → Bytes) → World → GroupWindows → Bytes → Bytes → ℕ → Bytes → Call
  unfolding spawn_window receiver_command sender_command collect
  launch print_unsigned w g name ip port username =
      let r₁ = spawn_window w (receiver_command print_unsigned ip port) in
      let r₂ = spawn_window w (sender_command print_unsigned ip port username) in
      if succeeded r₁
      then (if succeeded r₂ then collect w g name else call r₂ g.groups [])
      else call r₁ g.groups []

  -- `GroupWindows_Open`
  unfoldable pub open_window :
      (ℕ → Bytes) → World → GroupWindows → Bytes → Bytes → ℕ → Option Bytes → Option Call
  unfolding close_stale launch
  open_window print_unsigned w g name ip port none =
      some (call GroupWindowsResult.null_ptr g.groups [])
  open_window print_unsigned w g name ip port (some username) = do
    stale ← close_stale g name
    let opened = launch print_unsigned w stale.windows name ip port username
    some (record opened { signals = stale.signals ++ opened.signals })

  -- `HashMap_ForEach` with KillPidsForEach
  unfoldable pub kill_each : List (Bytes × GroupPids) → List ℤ
  unfolding kill_pids
  kill_each [] = []
  kill_each ((k, pids) ∷ es) = kill_pids pids ++ kill_each es

  unfoldable pub kill_all : GroupWindows → List ℤ
  unfolding kill_each
  kill_all g = elim g.groups [ none ↦ [] | some m ↦ kill_each (maps.entries m) ]

  -- `GroupWindows_CloseAll`: the signals and the manager, with a new map if there is memory for it.
  unfoldable pub close_all : GroupWindows → List ℤ × GroupWindows
  unfolding kill_all
  close_all g = (kill_all g, record { groups = maps.create map_size })

  -- `GroupWindows_Destroy`: the signals before the manager is freed.
  unfoldable pub destroy : GroupWindows → List ℤ
  unfolding kill_all
  destroy g = kill_all g
