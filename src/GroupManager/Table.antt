-- ===== src/GroupManager/Table.antt =====
-- The group manager as a table from names to groups: what each operation does to it.
use c_chat_rooms_app.Base.{
  ℕ, ◌≡◌, refl, ap, ◌∙◌, ◌⊎◌, inl, inr, Option, none, some, ◌>>=◌, if◌then◌else◌, Option-cases,
  Bytes,
}
use c_chat_rooms_app.HashMap.{found, lookup, is_success}
use c_chat_rooms_app.Keys.{Library, name_key}
use c_chat_rooms_app.Group.{Group}
use c_chat_rooms_app.GroupManager.{GroupManager, get_group}
use c_chat_rooms_app.GroupManager.View.{IsView}

found-is_success :
    {V : Type 0} (o : Option V) → (if is_success (found o).0 then (found o).1 else none) ≡ o
found-is_success none = refl
found-is_success (some v) = refl

module _ (lib : Library) where
  open lib use {names, char_signed}

  -- The address that the map holds for a name.
  abbrev pub at : GroupManager lib → Bytes → Option ℕ
  at m n = lookup (name_key char_signed) n (names.entries m.groups)

  abbrev pub IsValid : GroupManager lib → Type 0
  IsValid m = IsView m.objects.next m.objects.cell (at m)

  -- The group of a name.
  abbrev pub group_at : GroupManager lib → Bytes → Option Group
  group_at m n = do p ← at m n; m.objects.cell p

  pub get_group-at : (m : GroupManager lib) (n : Bytes) → get_group lib m n ≡ at m n
  unfolding get_group
  get_group-at m n =
      ap (λ r. if is_success r.0 then r.1 else none) (names.find_lem m.groups n)
      ∙ found-is_success (at m n)

  -- A name leads nowhere or to a live group of that name.
  pub at_cases :
      (m : GroupManager lib) (n : Bytes)
      → IsValid m
      → ((at m n ≡ none) × (group_at m n ≡ none))
        ⊎ ((p : ℕ) × (g : Group) × (at m n ≡ some p)
            × (m.objects.cell p ≡ some g)
            × (g.name ≡ n)
            × (group_at m n ≡ some g))
  at_cases m n v = elim (Option-cases (at m n)) [
    | inl e ↦ inl (e, rw e refl)
    | inr (p, e) ↦ elim (Option-cases (m.objects.cell p)) [
      | inl dead ↦ absurd (v.named n p e dead)
      | inr (g, c) ↦ inr (p, g, e, c, v.named_as n p g e c, rw (e, ◌>>=◌) c)
    ]
  ]
