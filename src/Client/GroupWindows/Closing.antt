-- ===== src/Client/GroupWindows/Closing.antt =====
-- Client/GroupWindows.c: the pair that is tracked for a group, and its closing.
use c_chat_rooms_app.Base.{
  Bool, true, false, ◌≡◌, refl, inl, inr, Option, none, some, List, [], if◌then◌else◌, ◌>>=◌, Bytes,
  ℤ, Bool-cases, Option-cases,
}
use c_chat_rooms_app.HashMap.{HashMap, lookup}
use c_chat_rooms_app.Keys.{equal_names, equal_names_iff}
use c_chat_rooms_app.Client.GroupWindows.{
  GroupPids, group_key, GroupWindowsResult, kill_pids, GroupWindows, Call, call, close, close_stale,
  is_tracked,
}

-- The pids of a pair, if there is one.
abbrev pub pids_of : Option GroupPids → List ℤ
pids_of none = []
pids_of (some pids) = kill_pids pids

module _ (char_signed : Bool) (maps : HashMap Bytes GroupPids (group_key char_signed)) where
  abbrev pub over : Option maps.Map → GroupWindows char_signed maps
  over groups = record { groups = groups }

  -- The pair that is tracked for a group.
  abbrev pub held : GroupWindows char_signed maps → Bytes → Option GroupPids
  held g name = elim g.groups [
    | none ↦ none
    | some m ↦ lookup (group_key char_signed) name (maps.entries m)
  ]

  abbrev pub Reads :
      GroupWindows char_signed maps
      → GroupWindows char_signed maps
      → Bytes
      → Option GroupPids
      → Type 0
  Reads g g' name o = (n : Bytes) → held g' n ≡ (if equal_names n name then o else held g n)

  pub unchanged :
      (g : GroupWindows char_signed maps) (name : Bytes) (o : Option GroupPids)
      → held g name ≡ o
      → Reads g g name o
  unchanged g name o h n = elim (Bool-cases (equal_names n name)) [
    | inl e ↦ let same = (equal_names_iff n name).0 e in rw (e, same) h
    | inr e ↦ rw e refl
  ]

  -- What GroupWindows_Close does.
  pub record Closed (g : GroupWindows char_signed maps) (name : Bytes)
      (o : Option (Call char_signed maps)) : Type 0 where
    pub out : Call char_signed maps
    pub ends : o ≡ some out
    pub reads : Reads g out.windows name none
    pub signals : out.signals ≡ pids_of (held g name)

  pub close-Closed :
      (groups : Option maps.Map) (name : Bytes)
      → let g = over groups in Closed g name (close char_signed maps g name)
  unfolding close
  close-Closed none name = record {
    out = call char_signed maps GroupWindowsResult.not_found none [];
    ends = refl;
    reads = λ n. unchanged (over none) name none refl n;
    signals = refl;
  }
  close-Closed (some m) name =
      elim (Option-cases (lookup (group_key char_signed) name (maps.entries m))) [
        | inl e ↦ record {
          out = call char_signed maps GroupWindowsResult.not_found (some m) [];
          ends = rw (maps.remove_missing m name e) refl;
          reads = λ n. unchanged (over (some m)) name none e n;
          signals = rw e refl;
        }
        | inr (pids, e) ↦
            let (m', run, rem) = maps.remove_present m name pids e in
            record {
              out = call char_signed maps GroupWindowsResult.success (some m') (kill_pids pids);
              ends = rw (run, ◌>>=◌) refl;
              reads = rem.reads;
              signals = rw e refl;
            }
      ]

  is_tracked_lem :
      (groups : Option maps.Map) (name : Bytes)
      → let g = over groups in
        is_tracked char_signed maps g name ≡ elim (held g name) [ none ↦ false | some p ↦ true ]
  unfolding is_tracked
  is_tracked_lem none name = refl
  is_tracked_lem (some m) name =
      elim (Option-cases (lookup (group_key char_signed) name (maps.entries m))) [
        | inl e ↦ rw (maps.find_lem m name, e) refl
        | inr (p, e) ↦ rw (maps.find_lem m name, e) refl
      ]

  pub close_stale-Closed :
      (g : GroupWindows char_signed maps) (name : Bytes)
      → Closed g name (close_stale char_signed maps g name)
  unfolding close_stale
  close_stale-Closed g name = elim (Option-cases (held g name)) [
    | inl e ↦ record {
      out = call char_signed maps GroupWindowsResult.success g.groups [];
      ends = rw (is_tracked_lem g.groups name, e) refl;
      reads = λ n. unchanged g name none e n;
      signals = rw e refl;
    }
    | inr (p, e) ↦ rw (is_tracked_lem g.groups name, e) (close-Closed g.groups name)
  ]
