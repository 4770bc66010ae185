-- ===== src/GroupManager/Listing.antt =====
-- ServerMng/GroupManager.c: `GroupManager_FormatGroupList`, which writes the names of the groups into
-- a buffer through `appendGroupName`.
use c_chat_rooms_app.Base.{
  ℕ, ◌-◌, ◌<◌, ◌≡◌, ap, Bool, true, List, [], map, arith, Bytes, codes, length, length-take, take,
  append_pieces, append_pieces-joined, joined,
}
use c_chat_rooms_app.Keys.{Library}
use c_chat_rooms_app.GroupManager.{GroupManager}

-- The buffer's string after `appendGroupName` on each name in turn, until one does not fit.
unfoldable pub append_group_names : ℕ → Bool → Bytes → List Bytes → Bytes
append_group_names size first text names = append_pieces (codes ", ") size first text names

module _ (lib : Library) where
  open lib use {names}

  -- The names in the order in which the map visits them.
  abbrev pub group_names : GroupManager lib → List Bytes
  group_names m = map (λ e. e.0) (names.entries m.groups)

  -- `GroupManager_FormatGroupList` into a buffer of `size` bytes, above 0.
  unfoldable pub format_group_list : GroupManager lib → ℕ → Bytes
  unfolding append_group_names
  format_group_list m size = append_group_names size true [] (group_names m)

  -- `GroupManager_FormatGroupList` into a buffer of at least one byte writes the names of all groups,
  -- with commas between them, cut off where the buffer ends; the string and its NUL fit.
  pub format_group_list-joined :
      (m : GroupManager lib) (size : ℕ)
      → 0 < size
      → (format_group_list m size ≡ take (size - 1) (joined (codes ", ") true (group_names m)))
        × (length (format_group_list m size) < size)
  unfolding format_group_list
  format_group_list-joined m size h =
      let e = append_pieces-joined (codes ", ") size true [] (group_names m) (omega (arith, h)) in
      (
        e,
        omega (
          arith,
          ap length e,
          length-take (size - 1) (joined (codes ", ") true (group_names m)),
          h,
        ),
      )
