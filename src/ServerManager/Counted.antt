-- ===== src/ServerManager/Counted.antt =====
-- When a server is well formed: both managers are, and the count of every group is the number of
-- its members.
use c_chat_rooms_app.Base.{
  ℕ, zero, suc, ◌+◌, ◌≤◌, ◌<◌, ◌≡◌, inl, inr, true, false, Option, none, some, List, [], ◌∷◌, ◌++◌,
  Bool-cases, arith, Bytes, str_eq, str_eq_iff, to_nat,
}
use c_chat_rooms_app.DList.{any, RemovesFirst}
use c_chat_rooms_app.Heap.{sum_below}
use c_chat_rooms_app.Keys.{Library, equal_names}
use c_chat_rooms_app.User.{User}
use c_chat_rooms_app.User.Groups.{names_of, any-append, RemovesFirst-reads, IsDistinct}
use c_chat_rooms_app.Group.{Group}
use c_chat_rooms_app.UserManager
use c_chat_rooms_app.UserManager.Members.{members, weight}
use c_chat_rooms_app.GroupManager.{GroupManager}
use c_chat_rooms_app.GroupManager.Table
use c_chat_rooms_app.GroupManager.Table.{group_at}
use c_chat_rooms_app.ServerManager.{ServerManager}

-- The count of a group; a name without a group counts as 0.
unfoldable pub ref_of : Option Group → ℕ
ref_of none = 0
ref_of (some g) = g.ref_count

module _ (lib : Library) where
  open lib use {lists}

  -- The number of users that are in a group.
  abbrev pub members_of : ServerManager lib → Bytes → ℕ
  members_of s n = members lists n s.users.users.next s.users.users.cell

  -- The counts of the groups are `count`, and no group counts 0.
  pub record Counts (groups : GroupManager lib) (count : Bytes → ℕ) : Type 0 where
    pub counted : (n : Bytes) → ref_of (group_at lib groups n) ≡ count n
    pub used : (n : Bytes) (g : Group) → group_at lib groups n ≡ some g → 0 < g.ref_count

  pub record IsValid (s : ServerManager lib) : Type 0 where
    pub users : UserManager.Invariant.IsValid lib s.users
    pub groups : Table.IsValid lib s.groups
    pub counts : Counts s.groups (members_of s)

  pub weight_le : (n : Bytes) (o : Option (User lists)) → weight lists n o ≤ 1
  unfolding weight
  weight_le n none = omega arith
  weight_le n (some u) = elim (Bool-cases (any (str_eq n) (names_of lists u.groups))) [
    | inl e ↦ rw e (omega arith)
    | inr e ↦ rw e (omega arith)
  ]

  pub members_le :
      (n : Bytes) (next : ℕ) (cell : ℕ → Option (User lists)) → members lists n next cell ≤ next
  unfolding members sum_below
  members_le n zero cell = omega arith
  members_le n (suc k) cell = omega (arith, members_le n k cell, weight_le n (cell k))

  -- One more member of `name`, and one less.
  abbrev pub plus : (Bytes → ℕ) → Bytes → Bytes → ℕ
  plus f name n = f n + to_nat (equal_names n name)

  pub weight-append :
      (name n : Bytes) (before : List Bytes)
      → any (str_eq name) before ≡ false
      → to_nat (any (str_eq n) (before ++ name ∷ []))
        ≡ to_nat (any (str_eq n) before) + to_nat (equal_names n name)
  unfolding equal_names any
  weight-append name n before fresh =
      ground (arith, any-append (str_eq n) before (name ∷ []), str_eq_iff n name)

  pub weight-drop :
      (name x n : Bytes) (before after : List Bytes)
      → IsDistinct before
      → RemovesFirst (str_eq name) x before after
      → to_nat (any (str_eq n) before) ≡ to_nat (any (str_eq n) after) + to_nat (equal_names n name)
  unfolding equal_names any
  weight-drop name x n before after d r =
      let (reads, d') = RemovesFirst-reads name x before after n d r in
      let there : any (str_eq name) before ≡ true =
        rw r.split (ground (arith, any-append (str_eq name) r.front (x ∷ r.back), r.hit)) in
      ground (arith, reads, there, str_eq_iff n name)
