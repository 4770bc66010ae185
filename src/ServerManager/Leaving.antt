-- ===== src/ServerManager/Leaving.antt =====
-- How the counts of the groups move.
use c_chat_rooms_app.Base.{
  ℕ, ◌+◌, ◌^◌, ◌<◌, ◌≡◌, refl, ◌∙◌, inl, inr, false, some, List, [], ◌∷◌, ◌>>=◌, arith, Bytes,
  str_eq, str_eq_iff, to_nat,
}
use c_chat_rooms_app.DList.{any}
use c_chat_rooms_app.Keys.{Library, equal_names, equal_names_iff}
use c_chat_rooms_app.User.Groups.{IsDistinct}
use c_chat_rooms_app.Group.{Group}
use c_chat_rooms_app.GroupManager.{
  GroupManager, GroupManagerResult, increase_group_ref_count, decrease_group_ref_count,
  remove_group_if_empty,
}
use c_chat_rooms_app.GroupManager.Table.{IsValid, group_at}
use c_chat_rooms_app.GroupManager.Counts.{
  increase_group_ref_count_lem, decrease_group_ref_count_lem, remove_group_if_empty_lem,
}
use c_chat_rooms_app.ServerManager.{leave_each}
use c_chat_rooms_app.ServerManager.Counted.{Counts, ref_of, plus}

module _ (lib : Library) where
  -- The same, but the group of `name` may count 0.
  pub record CountsBut (name : Bytes) (groups : GroupManager lib) (count : Bytes → ℕ) : Type 0 where
    pub counted : (n : Bytes) → ref_of (group_at lib groups n) ≡ count n
    pub used :
        (n : Bytes) (g : Group)
        → equal_names n name ≡ false
        → group_at lib groups n ≡ some g
        → 0 < g.ref_count

  pub Counts-CountsBut :
      (name : Bytes) {m : GroupManager lib} {f : Bytes → ℕ} → Counts lib m f → CountsBut name m f
  Counts-CountsBut name c = record { counted = c.counted; used = λ n g d e. c.used n g e }

  pub Counts-congr :
      {m : GroupManager lib} {f f' : Bytes → ℕ}
      → ((n : Bytes) → f n ≡ f' n)
      → Counts lib m f
      → Counts lib m f'
  Counts-congr h c = record { counted = λ n. c.counted n ∙ h n; used = c.used }

  -- One user more, for a group that is there.
  pub increase-Counts :
      (m : GroupManager lib) (name : Bytes) (f : Bytes → ℕ) (g : Group)
      → IsValid lib m
      → CountsBut name m f
      → group_at lib m name ≡ some g
      → f name + 1 < 2 ^ 64
      → (m' : GroupManager lib) × (increase_group_ref_count lib m name
          ≡ some (GroupManagerResult.success, m'))
        × Counts lib m' (plus lib f name)
        × IsValid lib m'
  unfolding ref_of
  increase-Counts m name f g v c here few = elim (increase_group_ref_count_lem lib m name v) [
    | inl (out, run) ↦ cc (out, here)
    | inr (g', m', e, run, reads, v') ↦ (
      m',
      run,
      record {
        counted = λ n.
            ground (arith, reads n, e, c.counted n, c.counted name, equal_names_iff n name, few);
        used = λ n h k. ground (arith, reads n, e, c.used n h, c.counted name, few);
      },
      v',
    )
  ]

  -- One user less, for a group that has one.
  pub decrease-CountsBut :
      (m : GroupManager lib) (name : Bytes) (f : Bytes → ℕ)
      → IsValid lib m
      → Counts lib m (plus lib f name)
      → (m' : GroupManager lib) × (decrease_group_ref_count lib m name
          ≡ some (GroupManagerResult.success, m'))
        × CountsBut name m' f
        × IsValid lib m'
  unfolding ref_of
  decrease-CountsBut m name f v c = elim (decrease_group_ref_count_lem lib m name v) [
    | inl (out, run) ↦ absurd (ground (arith, out, c.counted name, equal_names_iff name name))
    | inr (g, m', e, run, reads, v') ↦ (
      m',
      ground (arith, run, e, c.used name g),
      record {
        counted = λ n. ground (
          arith,
          reads n,
          e,
          c.counted n,
          c.counted name,
          equal_names_iff n name,
          equal_names_iff name name,
        );
        used = λ n h d k. ground (arith, reads n, c.used n h);
      },
      v',
    )
  ]

  -- The group of `name` goes if nobody uses it.
  pub remove-Counts :
      (m : GroupManager lib) (name : Bytes) (f : Bytes → ℕ)
      → IsValid lib m
      → CountsBut name m f
      → (r : GroupManagerResult) × (m' : GroupManager lib) × (remove_group_if_empty lib m name
          ≡ some (r, m'))
        × Counts lib m' f
        × IsValid lib m'
  unfolding ref_of
  remove-Counts m name f v c = elim (remove_group_if_empty_lem lib m name v) [
    | inl (out, run) ↦ (
      GroupManagerResult.not_found,
      m,
      run,
      record {
        counted = c.counted;
        used = λ n g e. ground (arith, out, c.used n g, equal_names_iff n name);
      },
      v,
    )
    | inr (g, m', e, run, reads, v') ↦ (
      _,
      m',
      run,
      record {
        counted = λ n. ground (arith, reads n, e, c.counted n, equal_names_iff n name);
        used = λ n h k. ground (arith, reads n, e, c.used n h);
      },
      v',
    )
  ]

  -- A user leaves a group: one user less, and the group goes with the last.
  pub drop_one :
      (m : GroupManager lib) (name : Bytes) (f : Bytes → ℕ)
      → IsValid lib m
      → Counts lib m (plus lib f name)
      → (m₁ : GroupManager lib) × (r : GroupManagerResult) × (m₂ : GroupManager lib)
        × (decrease_group_ref_count lib m name ≡ some (GroupManagerResult.success, m₁))
        × (remove_group_if_empty lib m₁ name ≡ some (r, m₂))
        × Counts lib m₂ f
        × IsValid lib m₂
  drop_one m name f v c =
      let (m₁, run₁, c₁, v₁) = decrease-CountsBut m name f v c in
      let (r, m₂, run₂, c₂, v₂) = remove-Counts m₁ name f v₁ c₁ in (m₁, r, m₂, run₁, run₂, c₂, v₂)

  -- The loop over the groups of a user takes each of them one user.
  pub leave_each-Counts :
      (names : List Bytes) (m : GroupManager lib) (f : Bytes → ℕ)
      → IsDistinct names
      → IsValid lib m
      → Counts lib m (λ n. f n + to_nat (any (str_eq n) names))
      → (m' : GroupManager lib) × (leave_each lib m names ≡ some m')
        × Counts lib m' f
        × IsValid lib m'
  unfolding leave_each any
  leave_each-Counts [] m f d v c = (m, refl, Counts-congr (λ n. omega arith) c, v)
  leave_each-Counts (name ∷ names) m f d v c =
      let split : (n : Bytes)
          → f n + to_nat (any (str_eq n) (name ∷ names))
            ≡ plus lib (λ k. f k + to_nat (any (str_eq k) names)) name n =
        λ n. unfold equal_names in ground (arith, d.0, str_eq_iff n name) in
      let (m₁, r, m₂, run₁, run₂, c₂, v₂) = drop_one m name _ v (Counts-congr split c) in
      let (m', run, c', v') = leave_each-Counts names m₂ f d.1 v₂ c₂ in
      (m', rw (run₁, ◌>>=◌, run₂) run, c', v')
