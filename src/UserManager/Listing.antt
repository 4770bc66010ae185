-- ===== src/UserManager/Listing.antt =====
-- ServerMng/UserManager.c: `UserManager_FormatAllUsersAndGroups`, which writes one line for each user
-- into a buffer through `FormatUserGroupsLine` and `AppendUserGroupsLine`.
use c_chat_rooms_app.Base.{
  ℕ, ◌-◌, ◌<◌, ◌≡◌, refl, ap, sym, Bool, true, false, Option, none, some, List, [], ◌∷◌, ◌++◌, inl,
  inr, if◌then◌else◌, ◌>>=◌, Bool-cases, Option-cases, arith, Bytes, codes, length, length-append,
  length-take, take, leb, Each, Each-imp, piece, joined, append_pieces, append_pieces-joined,
  take-append_ge, List-cases, append_assoc, ◌⊎◌,
}
use c_chat_rooms_app.Heap.{Heap}
use c_chat_rooms_app.Keys.{Library}
use c_chat_rooms_app.User.{User}
use c_chat_rooms_app.User
use c_chat_rooms_app.User.Groups.{names_of}
use c_chat_rooms_app.UserManager.{UserManager}
use c_chat_rooms_app.UserManager.Invariant.{IsValid, names_at}

abbrev pub user_groups_line_buf_size : ℕ
user_groups_line_buf_size = 256

module _ (lib : Library) where
  open lib use {lists, names, char_signed}

  -- The part of `FormatUserGroupsLine` after the name: the line's string.
  unfoldable pub format_groups : Option lists.Rep → Bytes → ℕ → Bytes
  format_groups none text size = text ++ take (size - length text - 1) (codes "(none)")
  format_groups (some l) text size =
      if leb (lists.size l) 0
      then text ++ take (size - length text - 1) (codes "(none)")
      else append_pieces (codes ", ") size true text (lists.items l)

  -- `FormatUserGroupsLine` into a buffer of `size` bytes, above 0; `none` when the name does not fit.
  unfoldable pub format_user_groups_line : User lists → ℕ → Option Bytes
  unfolding format_groups
  format_user_groups_line u size =
      let text = u.username ++ codes " -> " in
      if leb size (length text)
      then none
      else some (format_groups (User.get_groups lists u).1 text size)

  -- `AppendUserGroupsLine` on each user in turn, until a line does not fit; `none` is a dead user.
  unfoldable pub append_user_groups_lines :
      Heap (User lists) → ℕ → Bool → Bytes → List (Bytes × ℕ) → Option Bytes
  unfolding format_user_groups_line
  append_user_groups_lines heap size first text [] = some text
  append_user_groups_lines heap size first text ((key, p) ∷ es) = do
    u ← heap.cell p
    elim (format_user_groups_line u user_groups_line_buf_size) [
      | none ↦ append_user_groups_lines heap size first text es
      | some line ↦
          let added = piece (codes "\n") first line in
          let room = size - length text in
          let rest = append_user_groups_lines heap size false (text ++ added) es in
          if leb room (length added) then some (text ++ take (room - 1) added) else rest
    ]

  -- `UserManager_FormatAllUsersAndGroups` into a buffer of `size` bytes, above 0.
  unfoldable pub format_all_users_and_groups : UserManager lib → ℕ → Option Bytes
  unfolding append_user_groups_lines
  format_all_users_and_groups m size =
      append_user_groups_lines m.users size true [] (names.entries m.by_name)

  -- What a line says of the groups of a user.
  abbrev pub shown : List Bytes → Bytes
  shown [] = codes "(none)"
  shown (name ∷ rest) = joined (codes ", ") true (name ∷ rest)

  -- The line of a user, cut off at 255 bytes, before those of the others; a user whose name has more
  -- than 251 bytes has none.
  abbrev pub line_before : Option (User lists) → List Bytes → List Bytes
  line_before none rest = rest
  line_before (some u) rest =
      if leb 252 (length u.username)
      then rest
      else take 255 (u.username ++ codes " -> " ++ shown (names_of lists u.groups)) ∷ rest

  abbrev pub lines_of : (ℕ → Option (User lists)) → List (Bytes × ℕ) → List Bytes
  lines_of cell [] = []
  lines_of cell ((key, p) ∷ es) = line_before (cell p) (lines_of cell es)

  none-cut :
      (text : Bytes) (size : ℕ)
      → length text < size
      → text ++ take (size - length text - 1) (codes "(none)")
        ≡ take (size - 1) (text ++ codes "(none)")
  none-cut text size h =
      sym (
        take-append_ge (size - 1) (size - length text - 1) text (codes "(none)") (omega (arith, h)))

  format_groups-cut :
      (o : Option lists.Rep) (text : Bytes) (size : ℕ)
      → length text < size
      → format_groups o text size ≡ take (size - 1) (text ++ shown (names_of lists o))
  unfolding format_groups names_of
  format_groups-cut none text size h = none-cut text size h
  format_groups-cut (some l) text size h = elim (List-cases (lists.items l)) [
    | inl e ↦
        let z : leb (lists.size l) 0 ≡ true = ground (arith, lists.size_lem l, ap length e) in
        rw (z, e) (none-cut text size h)
    | inr (x, xs, e) ↦
        let z : leb (lists.size l) 0 ≡ false = ground (arith, lists.size_lem l, ap length e) in
        rw (z, e) (append_pieces-joined (codes ", ") size true text (x ∷ xs) h)
  ]

  -- `FormatUserGroupsLine` into the buffer of a line.
  format_user_groups_line_lem :
      (u : User lists) (rest : List Bytes)
      → ((leb 252 (length u.username) ≡ true)
          × (format_user_groups_line u user_groups_line_buf_size ≡ none)
          × (line_before (some u) rest ≡ rest))
        ⊎ ((line : Bytes) × (format_user_groups_line u user_groups_line_buf_size ≡ some line)
            × (line_before (some u) rest ≡ line ∷ rest))
  unfolding format_user_groups_line User.get_groups
  format_user_groups_line_lem u rest = elim (Bool-cases (leb 252 (length u.username))) [
    | inl long ↦
        let over : leb 256 (length (u.username ++ codes " -> ")) ≡ true =
          ground (arith, long, length-append u.username (codes " -> ")) in
        inl (long, rw over refl, rw long refl)
    | inr short ↦
        let text = u.username ++ codes " -> " in
        let fits : leb 256 (length text) ≡ false =
          ground (arith, short, length-append u.username (codes " -> ")) in
        let cut = format_groups-cut u.groups text 256 (ground (arith, fits)) in
        inr (
          format_groups u.groups text 256,
          rw fits refl,
          rw (short, cut, append_assoc u.username (codes " -> ") (shown (names_of lists u.groups)))
              refl,
        )
  ]

  -- The user of every pair is live.
  abbrev AllLive : (ℕ → Option (User lists)) → List (Bytes × ℕ) → Type 0
  AllLive cell es = Each (λ e. (u : User lists) × (cell e.1 ≡ some u)) es

  append_user_groups_lines-pieces :
      (heap : Heap (User lists)) (size : ℕ) (first : Bool) (text : Bytes) (es : List (Bytes × ℕ))
      → AllLive heap.cell es
      → append_user_groups_lines heap size first text es
        ≡ some (append_pieces (codes "\n") size first text (lines_of heap.cell es))
  unfolding append_user_groups_lines append_pieces
  append_user_groups_lines-pieces heap size first text [] live = refl
  append_user_groups_lines-pieces heap size first text ((key, p) ∷ es) ((u, c), live) =
      elim (format_user_groups_line_lem u (lines_of heap.cell es)) [
        | inl (long, skipped, same) ↦
            rw (c, ◌>>=◌, skipped, same)
              (append_user_groups_lines-pieces heap size first text es live)
        | inr (line, found, more) ↦
            let rest =
              append_user_groups_lines-pieces heap size false
                (text ++ piece (codes "\n") first line) es live in
            rw (c, ◌>>=◌, found, more, append_pieces) (ground (arith, rest))
      ]

  -- The lines of the users, in the order in which the map visits them.
  abbrev pub user_lines : UserManager lib → List Bytes
  user_lines m = lines_of m.users.cell (names.entries m.by_name)

  all_live : (m : UserManager lib) → IsValid lib m → AllLive m.users.cell (names.entries m.by_name)
  all_live m v =
      Each-imp (λ e. names_at lib m e.0 ≡ some e.1) _
        (λ e there. elim (Option-cases (m.users.cell e.1)) [
          | inl dead ↦ absurd (v.named e.0 e.1 there dead)
          | inr live ↦ live
        ])
        (names.entries m.by_name) (names.entries_distinct m.by_name)

  -- `UserManager_FormatAllUsersAndGroups` on a well-formed manager, into a buffer of at least one
  -- byte, reads no dead object; it writes the lines of the users with newlines between them, cut off
  -- where the buffer ends, and the string and its NUL fit. A line is the name, an arrow, and the
  -- names of the groups with commas between them or `(none)`, cut off at 255 bytes; a user whose name
  -- has more than 251 bytes has no line.
  pub format_all_users_and_groups-joined :
      (m : UserManager lib) (size : ℕ)
      → 0 < size
      → IsValid lib m
      → (text : Bytes) × (format_all_users_and_groups m size ≡ some text)
        × (text ≡ take (size - 1) (joined (codes "\n") true (user_lines m)))
        × (length text < size)
  unfolding format_all_users_and_groups
  format_all_users_and_groups-joined m size h v =
      let lines = user_lines m in
      let e = append_pieces-joined (codes "\n") size true [] lines (omega (arith, h)) in
      (
        append_pieces (codes "\n") size true [] lines,
        append_user_groups_lines-pieces m.users size true [] (names.entries m.by_name)
            (all_live m v),
        e,
        omega (arith, ap length e, length-take (size - 1) (joined (codes "\n") true lines), h),
      )
