-- ===== src/Tests/Windows.antt =====
-- The windows of the client on a small run: a group is opened again, and one of its windows does not
-- report.
use c_chat_rooms_app.Base.{
  str_eq, int_eq, ◌≡◌, refl, true, Option, some, Each, none, ℤ, List, [], ◌∷◌, ◌++◌, Bytes, codes,
  pos,
}
use c_chat_rooms_app.HashMap.{HashMap, lookup}
use c_chat_rooms_app.HashMap.Assoc.{assoc}
use c_chat_rooms_app.HashMap.Assoc
use c_chat_rooms_app.Keys.{equal_names}
use c_chat_rooms_app.Tests.Example.{ann, chess}
use c_chat_rooms_app.Client.GroupWindows.{
  GroupPids, group_key, GroupWindows, World, GroupWindowsResult, Call, open_window, kill_pids,
  signal, is_positive, collect_pids, collect_pid, store, launch, collect, track, close_stale, close,
  is_tracked, spawn_window,
}
use c_chat_rooms_app.Client.GroupWindows.Ledger.{
  occurs, Event, opens, closes, closes_all, Ledger, after_all, after_all-signals,
}
use c_chat_rooms_app.Client.GroupWindows.Opening.{Opened, spawned, reporting, open_window-Opened}

abbrev maps : HashMap Bytes GroupPids (group_key true)
maps = assoc GroupPids (group_key true) 100

-- The user is in a group, with its two windows open.
abbrev windows : GroupWindows true maps
unfolding assoc lookup
windows = record {
  groups = some (record {
    pairs = (chess, record { sender = pos 11; receiver = pos 12 }) ∷ [];
    distinct = (refl, tt);
  });
}

-- Both windows start, and only the receiver reports.
abbrev world : World
world = record {
  system = λ command. pos 0;
  first = some (record { role = pos 1; pid = pos 21 });
  second = none;
  pair_memory = true;
  key_memory = true;
}

open_window-Opened_example :
    Opened true maps windows chess
      (reporting world (spawned (λ n. codes "5000") world (codes "239.0.0.1") 5000 ann))
      (open_window true maps
        (λ n. codes "5000")
        world
        windows
        chess
        (codes "239.0.0.1")
        5000
        (some ann))
open_window-Opened_example =
    open_window-Opened true maps (λ n. codes "5000") world windows chess (codes "239.0.0.1") 5000
      ann

abbrev outcome : Option (Call true maps) → Option (GroupWindowsResult × List ℤ)
outcome none = none
outcome (some c) = some (c.result, c.signals)

-- The stale pair and the receiver are signalled, and the call fails.
reopened :
    outcome (
      open_window true maps
        (λ n. codes "5000")
        world
        windows
        chess
        (codes "239.0.0.1")
        5000
        (some ann))
    ≡ some (GroupWindowsResult.pid_timeout, pos 11 ∷ pos 12 ∷ pos 21 ∷ [])
unfolding open_window windows assoc lookup Assoc.insert Assoc.remove Assoc.insert_case Assoc.erase
    launch collect track close_stale close is_tracked spawn_window kill_pids signal is_positive
    collect_pids collect_pid store equal_names str_eq int_eq
reopened = refl

abbrev ledger : Ledger true maps (λ n. codes "5000")
ledger = record { windows = windows; reported = []; signalled = [] }

abbrev events : List Event
events = opens world chess (codes "239.0.0.1") 5000 ann ∷ closes chess ∷ []

after_all-signals_example :
    (l' : Ledger true maps (λ n. codes "5000")) × (after_all true maps
        (λ n. codes "5000")
        (events ++ closes_all ∷ [])
        ledger
      ≡ some l')
    × Each (λ p. occurs p l'.signalled ≡ true) l'.reported
after_all-signals_example =
    after_all-signals true maps (λ n. codes "5000") events ledger (λ p r. cc)
