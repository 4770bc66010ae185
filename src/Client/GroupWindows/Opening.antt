-- ===== src/Client/GroupWindows/Opening.antt =====
-- Client/GroupWindows.c: what becomes of the windows that report their pids.
use c_chat_rooms_app.Base.{
  ℕ, Bool, true, false, ◌≡◌, refl, sym, ◌∙◌, inl, inr, ◌&&◌, Option, none, some, ◌++◌,
  if◌then◌else◌, ◌>>=◌, Bytes, pos, int_eq, Bool-cases, Option-cases, append-nil, append_assoc,
}
use c_chat_rooms_app.HashMap.{HashMap}
use c_chat_rooms_app.Keys.{equal_names, equal_names_iff}
use c_chat_rooms_app.Client.GroupWindows.{
  GroupPids, group_key, GroupWindowsResult, succeeded, ChatPidMsg, World, kill_pids, no_pids, store,
  collect_pid, collect_pids, spawn_window, receiver_command, sender_command, GroupWindows, Call,
  call, track, collect, launch, open_window,
}
use c_chat_rooms_app.Client.GroupWindows.Closing.{
  over, held, Reads, unchanged, pids_of, close_stale-Closed,
}

-- The windows that report during one call, whatever the call makes of them.
abbrev pub gathered : Option ChatPidMsg → Option ChatPidMsg → GroupPids
gathered none second = no_pids
gathered (some a) none = store a no_pids
gathered (some a) (some b) = store b (store a no_pids)

abbrev pub spawned : (ℕ → Bytes) → World → Bytes → ℕ → Bytes → Bool
spawned print_unsigned w ip port username =
    int_eq (w.system (receiver_command print_unsigned ip port)) (pos 0)
    && int_eq (w.system (sender_command print_unsigned ip port username)) (pos 0)

abbrev pub reporting : World → Bool → GroupPids
reporting w spawned = if spawned && w.pair_memory then gathered w.first w.second else no_pids

module _ (char_signed : Bool) (maps : HashMap Bytes GroupPids (group_key char_signed)) where
  -- What the rest of GroupWindows_Open does with a group that is not tracked: the pids of `pair` are
  -- tracked under its name or signalled.
  record Settled (g : GroupWindows char_signed maps) (name : Bytes) (pair : GroupPids)
      (out : Call char_signed maps) : Type 0 where
    kept : Option GroupPids
    reads : Reads char_signed maps g out.windows name kept
    settled : out.signals ++ pids_of kept ≡ kill_pids pair
    success : elim kept [ none ↦ false | some p ↦ true ] ≡ succeeded out.result

  refused :
      (g : GroupWindows char_signed maps) (name : Bytes) (pair : GroupPids) (r : GroupWindowsResult)
      → held char_signed maps g name ≡ none
      → succeeded r ≡ false
      → Settled g name pair (call char_signed maps r g.groups (kill_pids pair))
  refused g name pair r fresh failed = record {
    kept = none;
    reads = λ n. unchanged char_signed maps g name none fresh n;
    settled = append-nil (kill_pids pair);
    success = sym failed;
  }

  track-Settled :
      (w : World) (groups : Option maps.Map) (name : Bytes) (pair : GroupPids)
      → let g = over char_signed maps groups in
        held char_signed maps g name ≡ none
        → Settled g name pair (track char_signed maps w g name pair)
  unfolding track
  track-Settled w none name pair fresh =
      refused (over char_signed maps none) name pair GroupWindowsResult.alloc_failed fresh refl
  track-Settled w (some m) name pair fresh = elim (Bool-cases w.key_memory) [
    | inr e ↦ rw e (
        refused (over char_signed maps (some m)) name pair GroupWindowsResult.alloc_failed fresh
          refl)
    | inl e ↦ elim (maps.insert_fresh m name pair fresh) [
      | inl full ↦
          rw (e, full)
            (refused (over char_signed maps (some m)) name pair GroupWindowsResult.alloc_failed
              fresh refl)
      | inr (m', run, ins) ↦
          rw (e, run)
            (record { kept = some pair; reads = ins.reads; settled = refl; success = refl })
    ]
  ]

  collect-Settled :
      (w : World) (g : GroupWindows char_signed maps) (name : Bytes)
      → held char_signed maps g name ≡ none
      → Settled g name (reporting w true) (collect char_signed maps w g name)
  unfolding collect collect_pids collect_pid
  collect-Settled w g name fresh = elim (Bool-cases w.pair_memory) [
    | inr e ↦ rw e (refused g name no_pids GroupWindowsResult.alloc_failed fresh refl)
    | inl e ↦ elim (Option-cases w.first) [
      | inl h ↦ rw (e, h) (refused g name no_pids GroupWindowsResult.pid_timeout fresh refl)
      | inr (a, h) ↦ elim (Option-cases w.second) [
        | inl i ↦
            rw (e, h, i)
              (refused g name (store a no_pids) GroupWindowsResult.pid_timeout fresh refl)
        | inr (b, i) ↦
            rw (e, h, i) (track-Settled w g.groups name (store b (store a no_pids)) fresh)
      ]
    ]
  ]

  launch-Settled :
      (print_unsigned : ℕ → Bytes) (w : World) (g : GroupWindows char_signed maps) (name ip : Bytes)
      (port : ℕ) (username : Bytes)
      → held char_signed maps g name ≡ none
      → Settled g name
          (reporting w (spawned print_unsigned w ip port username))
          (launch char_signed maps print_unsigned w g name ip port username)
  unfolding launch spawn_window
  launch-Settled print_unsigned w g name ip port username fresh =
      elim (Bool-cases (int_eq (w.system (receiver_command print_unsigned ip port)) (pos 0))) [
        | inr e ↦ rw e (refused g name no_pids GroupWindowsResult.spawn_failed fresh refl)
        | inl e ↦
            elim (Bool-cases
              (int_eq (w.system (sender_command print_unsigned ip port username)) (pos 0))) [
                | inr h ↦
                    rw (e, h) (refused g name no_pids GroupWindowsResult.spawn_failed fresh refl)
                | inl h ↦ rw (e, h) (collect-Settled w g name fresh)
              ]
      ]

  -- What GroupWindows_Open returned, and the pair that it leaves under the name.
  pub record Opened (g : GroupWindows char_signed maps) (name : Bytes) (pair : GroupPids)
      (o : Option (Call char_signed maps)) : Type 0 where
    pub out : Call char_signed maps
    pub ends : o ≡ some out
    pub kept : Option GroupPids
    pub reads : Reads char_signed maps g out.windows name kept
    pub settled :
        out.signals ++ pids_of kept ≡ pids_of (held char_signed maps g name) ++ kill_pids pair
    pub success : elim kept [ none ↦ false | some p ↦ true ] ≡ succeeded out.result

  -- GroupWindows_Open for a user with a name returns, reads no missing pair, and changes what is
  -- tracked under the given name only. The windows that it signals, with those that are then tracked
  -- under the name, are the pair that was tracked there before followed by the windows that reported
  -- in the call, on every branch; a new pair is tracked exactly if it returns
  -- GROUP_WINDOWS_SUCCESS. Of two reports with one role the second counts.
  pub open_window-Opened :
      (print_unsigned : ℕ → Bytes) (w : World) (g : GroupWindows char_signed maps) (name ip : Bytes)
      (port : ℕ) (username : Bytes)
      → Opened g name
          (reporting w (spawned print_unsigned w ip port username))
          (open_window char_signed maps print_unsigned w g name ip port (some username))
  unfolding open_window
  open_window-Opened print_unsigned w g name ip port username =
      let stale = close_stale-Closed char_signed maps g name in
      let absent : held char_signed maps stale.out.windows name ≡ none =
        stale.reads name ∙ rw ((equal_names_iff name name).1 refl) refl in
      let opened : Call char_signed maps =
        launch char_signed maps print_unsigned w stale.out.windows name ip port username in
      let done = launch-Settled print_unsigned w stale.out.windows name ip port username absent in
      record {
        out = record opened { signals = stale.out.signals ++ opened.signals };
        ends = rw (stale.ends, ◌>>=◌) refl;
        kept = done.kept;
        reads = λ n. elim (Bool-cases (equal_names n name)) [
          | inl e ↦ done.reads n ∙ rw e refl
          | inr e ↦ done.reads n ∙ rw e (stale.reads n ∙ rw e refl)
        ];
        settled = append_assoc stale.out.signals _ _ ∙ rw (done.settled, stale.signals) refl;
        success = done.success;
      }
