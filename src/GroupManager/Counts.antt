-- ===== src/GroupManager/Counts.antt =====
-- The operations on a group that is there: its count, its endpoint, and its removal.
use c_chat_rooms_app.Base.{
  ℕ, ◌+◌, ◌-◌, ◌%◌, ◌^◌, ◌≡◌, refl, ap, ◌∙◌, ◌⊎◌, inl, inr, Option, none, some, ◌>>=◌,
  if◌then◌else◌, ◌==◌, Option-cases, Bool-cases, arith, Bytes, ltb,
}
use c_chat_rooms_app.HashMap.{Removes}
use c_chat_rooms_app.Heap
use c_chat_rooms_app.Keys.{Library, name_key, equal_names, equal_names_iff}
use c_chat_rooms_app.Group.{Group, GroupEndpoint}
use c_chat_rooms_app.Group
use c_chat_rooms_app.GroupManager.{
  GroupManager, GroupManagerResult, remove_empty, remove_group_if_empty, put_group,
  increase_group_ref_count, decrease_group_ref_count,
}
use c_chat_rooms_app.GroupManager.View.{put-IsView, remove-IsView}
use c_chat_rooms_app.GroupManager.Table.{at, IsValid, group_at, get_group-at, at_cases}

module _ (lib : Library) where
  open lib use {names, char_signed}

  -- The table with one name changed.
  abbrev pub Reads : GroupManager lib → GroupManager lib → Bytes → Option Group → Type 0
  Reads m m' name o =
      (n : Bytes) → group_at lib m' n ≡ (if equal_names n name then o else group_at lib m n)

  put-group_at :
      (m : GroupManager lib) (name : Bytes) (p : ℕ) (g : Group) (k : ℕ)
      → IsValid lib m
      → at lib m name ≡ some p
      → m.objects.cell p ≡ some g
      → Reads m
          (put_group lib m p (record g { ref_count = k }))
          name
          (some (record g { ref_count = k }))
  unfolding Heap.write
  put-group_at m name p g k v e c n = elim (Bool-cases (equal_names n name)) [
    | inl h ↦ ground (arith, equal_names_iff n name)
    | inr h ↦ elim (Option-cases (at lib m n)) [
      | inl a ↦ rw (h, a, ◌>>=◌) refl
      | inr (q, a) ↦
          rw (h, a, ◌>>=◌)
            (ground (arith, v.named_as n q g a, v.named_as name p g e c, equal_names_iff n name))
    ]
  ]

  unchanged :
      (m : GroupManager lib) (name : Bytes) (o : Option Group)
      → group_at lib m name ≡ o
      → Reads m m name o
  unchanged m name o h n = elim (Bool-cases (equal_names n name)) [
    | inl e ↦ let same = (equal_names_iff n name).0 e in rw (e, same) h
    | inr e ↦ rw e refl
  ]

  -- `GroupManager_IncreaseGroupRefCount` on a well-formed manager reads no dead object: with no such
  -- group nothing changes, and otherwise its count, and nothing else in the table, goes up by one
  -- and wraps around at 2^64. The manager stays well formed.
  pub increase_group_ref_count_lem :
      (m : GroupManager lib) (name : Bytes)
      → IsValid lib m
      → ((group_at lib m name ≡ none)
          × (increase_group_ref_count lib m name ≡ some (GroupManagerResult.not_found, m)))
        ⊎ ((g : Group) × (m' : GroupManager lib) × (group_at lib m name ≡ some g)
            × (increase_group_ref_count lib m name ≡ some (GroupManagerResult.success, m'))
            × Reads m m' name (some (record g { ref_count = (g.ref_count + 1) % 2 ^ 64 }))
            × IsValid lib m')
  unfolding increase_group_ref_count Group.inc_ref
  increase_group_ref_count_lem m name v = elim (at_cases lib m name v) [
    | inl (e, h) ↦ inl (h, rw (get_group-at lib m name, e, increase_group_ref_count) refl)
    | inr (p, g, e, c, same, h) ↦ inr (
      g,
      put_group lib m p (record g { ref_count = (g.ref_count + 1) % 2 ^ 64 }),
      h,
      rw (get_group-at lib m name, e, increase_group_ref_count, c, ◌>>=◌) refl,
      put-group_at m name p g _ v e c,
      unfold Heap.write in put-IsView v p g _ c,
    )
  ]

  -- `GroupManager_DecreaseGroupRefCount` on a well-formed manager reads no dead object: with no such
  -- group or a count of 0 nothing changes, and otherwise the count, and nothing else in the table,
  -- goes down by one. The manager stays well formed.
  pub decrease_group_ref_count_lem :
      (m : GroupManager lib) (name : Bytes)
      → IsValid lib m
      → ((group_at lib m name ≡ none)
          × (decrease_group_ref_count lib m name ≡ some (GroupManagerResult.not_found, m)))
        ⊎ ((g : Group) × (m' : GroupManager lib) × (group_at lib m name ≡ some g)
            × (decrease_group_ref_count lib m name
                ≡ some (
                  (if g.ref_count == 0
                      then GroupManagerResult.empty_group
                      else GroupManagerResult.success),
                  m',
                ))
            × Reads m m' name (some (record g { ref_count = g.ref_count - 1 }))
            × IsValid lib m')
  unfolding decrease_group_ref_count Group.dec_ref Group.get_ref_count
  decrease_group_ref_count_lem m name v = elim (at_cases lib m name v) [
    | inl (e, h) ↦ inl (h, rw (get_group-at lib m name, e, decrease_group_ref_count) refl)
    | inr (p, g, e, c, same, h) ↦ elim (Bool-cases (g.ref_count == 0)) [
      | inl z ↦ inr (
        g,
        m,
        h,
        rw (get_group-at lib m name, e, decrease_group_ref_count, c, ◌>>=◌, z) refl,
        unchanged m name _ (h ∙ ap (λ k. some (record g { ref_count = k })) (ground (arith, z))),
        v,
      )
      | inr z ↦ inr (
        g,
        put_group lib m p (record g { ref_count = g.ref_count - 1 }),
        h,
        rw (get_group-at lib m name, e, decrease_group_ref_count, c, ◌>>=◌, z) refl,
        put-group_at m name p g _ v e c,
        unfold Heap.write in put-IsView v p g _ c,
      )
    ]
  ]

  removed : (m : GroupManager lib) → ℕ → names.Map → GroupManager lib
  removed m p groups = record { objects = Heap.free m.objects p; groups = groups }

  removed-group_at :
      (m : GroupManager lib) (name : Bytes) (p : ℕ) (g : Group) (groups : names.Map)
      → IsValid lib m
      → at lib m name ≡ some p
      → m.objects.cell p ≡ some g
      → Removes (name_key char_signed) name (names.entries m.groups) (names.entries groups)
      → Reads m (removed m p groups) name none
  unfolding removed Heap.free
  removed-group_at m name p g groups v e c rem n = elim (Bool-cases (equal_names n name)) [
    | inl h ↦ rw (rem.reads n, h, ◌>>=◌) refl
    | inr h ↦ elim (Option-cases (at lib m n)) [
      | inl a ↦ rw (rem.reads n, h, a, ◌>>=◌) refl
      | inr (q, a) ↦
          rw (rem.reads n, h, a, ◌>>=◌)
            (ground (arith, v.named_as n q g a, v.named_as name p g e c, equal_names_iff n name))
    ]
  ]

  -- `GroupManager_RemoveGroupIfEmpty` on a well-formed manager reads no dead object: with no such
  -- group, or one whose count is not 0, nothing changes, and otherwise the group, and nothing else,
  -- is gone from the table. The manager stays well formed.
  pub remove_group_if_empty_lem :
      (m : GroupManager lib) (name : Bytes)
      → IsValid lib m
      → ((group_at lib m name ≡ none)
          × (remove_group_if_empty lib m name ≡ some (GroupManagerResult.not_found, m)))
        ⊎ ((g : Group) × (m' : GroupManager lib) × (group_at lib m name ≡ some g)
            × (remove_group_if_empty lib m name
                ≡ some (
                  (if ltb 0 g.ref_count
                      then GroupManagerResult.not_empty
                      else GroupManagerResult.success),
                  m',
                ))
            × Reads m m' name (if ltb 0 g.ref_count then some g else none)
            × IsValid lib m')
  unfolding remove_group_if_empty Group.get_ref_count remove_empty removed
  remove_group_if_empty_lem m name v = elim (at_cases lib m name v) [
    | inl (e, h) ↦ inl (h, rw (get_group-at lib m name, e, remove_group_if_empty) refl)
    | inr (p, g, e, c, same, h) ↦ elim (Bool-cases (ltb 0 g.ref_count)) [
      | inl z ↦ inr (
        g,
        m,
        h,
        rw (get_group-at lib m name, e, remove_group_if_empty, c, ◌>>=◌, z) refl,
        rw z (unchanged m name _ h),
        v,
      )
      | inr z ↦
          let (groups, run, rem) = names.remove_present m.groups name p e in
          inr (
            g,
            removed m p groups,
            h,
            rw
                (
                  get_group-at lib m name,
                  e,
                  remove_group_if_empty,
                  c,
                  ◌>>=◌,
                  z,
                  run,
                  ap (λ t. t.2) run,
                )
                refl,
            rw z (removed-group_at m name p g groups v e c rem),
            unfold Heap.free in remove-IsView v p g _ c (λ n. rw same (rem.reads n)),
          )
    ]
  ]
