-- ===== src/GroupManager/Add.antt =====
-- `GroupManager_AddGroup`: when it makes a group, and which endpoint the group gets.
use c_chat_rooms_app.Base.{
  ℕ, ◌+◌, ◌%◌, ◌^◌, ◌≤◌, ◌<◌, ◌≡◌, refl, ap, inl, inr, true, false, Option, none, some, ◌>>=◌,
  if◌then◌else◌, Option-cases, Bool-cases, arith, Bytes, length, ltb, leb, codes,
}
use c_chat_rooms_app.HashMap.{found, is_success, MapResult, Inserts}
use c_chat_rooms_app.Heap
use c_chat_rooms_app.Keys.{Library, name_key, equal_names}
use c_chat_rooms_app.User.{Memory}
use c_chat_rooms_app.Group.{Group, GroupEndpoint}
use c_chat_rooms_app.Group
use c_chat_rooms_app.GroupManager.{
  GroupManager, GroupManagerResult, network_convert_ip_p_to_n, allocate_group_endpoint,
  is_name_taken, add_named, add_group,
}
use c_chat_rooms_app.GroupManager.View.{add-IsView, IsView-congr}
use c_chat_rooms_app.GroupManager.Table.{at, IsValid, group_at}

found-is_success-none : {V : Type 0} (o : Option V) → o ≡ none → is_success (found o).0 ≡ false
found-is_success-none none e = refl
found-is_success-none (some v) e = cc

found-is_success-some :
    {V : Type 0} (o : Option V) (v : V) → o ≡ some v → is_success (found o).0 ≡ true
found-is_success-some none v e = cc
found-is_success-some (some w) v e = refl

module _ (lib : Library) where
  open lib use {names, char_signed}

  -- The group that a manager with `n` groups makes.
  unfoldable pub nth_group : Bytes → ℕ → Group
  nth_group name n = Group.create name (record {
    multicast_addr = network_convert_ip_p_to_n lib (codes "239.0.0.1");
    port = 5000 + n;
  })

  -- Why a group is not made.
  pub data Refusal (m : GroupManager lib) (mem : Memory) (name : Bytes)
      : GroupManagerResult → Type 0 where
    too_long : 32 < length name → Refusal m mem name GroupManagerResult.name_too_long
    taken : (p : ℕ) → at lib m name ≡ some p → Refusal m mem name GroupManagerResult.name_taken
    no_port : 1000 ≤ names.size m.groups → Refusal m mem name GroupManagerResult.internal_error
    no_memory : mem.group ≡ false → Refusal m mem name GroupManagerResult.allocation_failed
    no_entry :
        names.insert m.groups name m.objects.next ≡ (MapResult.allocation_error, m.groups)
        → Refusal m mem name GroupManagerResult.allocation_failed

  -- What asking for a group does to the table.
  pub data Adds (m : GroupManager lib) (mem : Memory) (name : Bytes)
      : GroupManagerResult → GroupManager lib → Type 0 where
    refused :
        {r : GroupManagerResult} {m' : GroupManager lib}
        → Refusal m mem name r
        → ((n : Bytes) → group_at lib m' n ≡ group_at lib m n)
        → Adds m mem name r m'
    added :
        {m' : GroupManager lib}
        → length name ≤ 32
        → at lib m name ≡ none
        → names.size m.groups < 1000
        → ((n : Bytes)
            → group_at lib m' n ≡ (
                if equal_names n name
                then some (nth_group name (names.size m.groups))
                else group_at lib m n))
        → Adds m mem name GroupManagerResult.success m'

  is_name_taken-at :
      (m : GroupManager lib) (name : Bytes)
      → is_name_taken lib m name ≡ is_success (found (at lib m name)).0
  unfolding is_name_taken
  is_name_taken-at m name = ap (λ r. is_success r.0) (names.find_lem m.groups name)

  next_free : (m : GroupManager lib) → IsValid lib m → m.objects.cell m.objects.next ≡ none
  next_free m v = elim (Option-cases (m.objects.cell m.objects.next)) [
    | inl e ↦ e
    | inr (g, e) ↦ absurd (omega (arith, v.live m.objects.next g e))
  ]

  allocate-nth :
      (m : GroupManager lib) (name : Bytes)
      → names.size m.groups < 1000
      → (e : GroupEndpoint) × (allocate_group_endpoint lib m.groups ≡ some e)
        × (Group.create name e ≡ nth_group name (names.size m.groups))
  unfolding allocate_group_endpoint nth_group
  allocate-nth m name l = (
    record {
      multicast_addr = network_convert_ip_p_to_n lib (codes "239.0.0.1");
      port = (5000 + names.size m.groups) % 2 ^ 16;
    },
    ground arith,
    ap
        (λ k.
          Group.create name (record {
            multicast_addr = network_convert_ip_p_to_n lib (codes "239.0.0.1");
            port = k;
          }))
        (omega arith),
  )

  module _ (m : GroupManager lib) (mem : Memory) (name : Bytes) (v : IsValid lib m)
      (fits : length name ≤ 32) (free : at lib m name ≡ none)
      (room : names.size m.groups < 1000) where
    named : Group
    named = nth_group name (names.size m.groups)

    made : names.Map → GroupManager lib
    made groups = record { objects = Heap.alloc m.objects named; groups = groups }

    made-IsValid :
        (groups : names.Map)
        → Inserts
            (name_key char_signed)
            name
            m.objects.next
            (names.entries m.groups)
            (names.entries groups)
        → IsValid lib (made groups)
    unfolding made Heap.alloc named nth_group Group.create
    made-IsValid groups ins =
        add-IsView v named _ free ins.reads fits (omega arith) (omega (arith, room))

    made-group_at :
        (groups : names.Map)
        → Inserts
            (name_key char_signed)
            name
            m.objects.next
            (names.entries m.groups)
            (names.entries groups)
        → (n : Bytes)
        → group_at lib (made groups) n
          ≡ (if equal_names n name then some named else group_at lib m n)
    unfolding made Heap.alloc
    made-group_at groups ins n = elim (Bool-cases (equal_names n name)) [
      | inl e ↦ rw (ins.reads n, e, ◌>>=◌) (ground arith)
      | inr e ↦ elim (Option-cases (at lib m n)) [
        | inl a ↦ rw (ins.reads n, e, a, ◌>>=◌) refl
        | inr (q, a) ↦ rw (ins.reads n, e, a, ◌>>=◌) (ground (arith, next_free m v, v.named n q a))
      ]
    ]

    -- The object goes again when the map does not take it.
    unmade-IsValid : IsValid lib (record {
      objects = Heap.free (Heap.alloc m.objects named) m.objects.next;
      groups = m.groups;
    })
    unfolding Heap.alloc Heap.free
    unmade-IsValid =
        IsView-congr v _ _ _ (omega arith) (λ p. ground (arith, next_free m v)) (λ n. refl)

    unmade-group_at :
        (n : Bytes)
        → group_at lib
            (record {
              objects = Heap.free (Heap.alloc m.objects named) m.objects.next;
              groups = m.groups;
            })
            n
          ≡ group_at lib m n
    unfolding Heap.alloc Heap.free
    unmade-group_at n = elim (Option-cases (at lib m n)) [
      | inl a ↦ rw (a, ◌>>=◌) refl
      | inr (q, a) ↦ rw (a, ◌>>=◌) (ground (arith, next_free m v))
    ]

    add_named-Adds :
        (endpoint : GroupEndpoint)
        → Group.create name endpoint ≡ named
        → (r : GroupManagerResult) × (m' : GroupManager lib) × (add_named lib m mem name endpoint
            ≡ (r, m'))
          × Adds m mem name r m'
          × IsValid lib m'
    unfolding add_named Group.create named
    add_named-Adds endpoint same = elim (Bool-cases mem.group) [
      | inr out ↦ (
        GroupManagerResult.allocation_failed,
        m,
        rw out refl,
        refused (no_memory out) (λ n. refl),
        v,
      )
      | inl ok ↦ elim (names.insert_fresh m.groups name m.objects.next free) [
        | inl full ↦ (
          GroupManagerResult.allocation_failed,
          record {
            objects = Heap.free (Heap.alloc m.objects named) m.objects.next;
            groups = m.groups;
          },
          rw (ok, full, same) refl,
          refused (no_entry full) unmade-group_at,
          unmade-IsValid,
        )
        | inr (groups, run, ins) ↦ (
          GroupManagerResult.success,
          made groups,
          unfold made in rw (ok, run, same) refl,
          added fits free room (made-group_at groups ins),
          made-IsValid groups ins,
        )
      ]
    ]

  pub add_group-Adds :
      (m : GroupManager lib) (mem : Memory) (name : Bytes)
      → IsValid lib m
      → (r : GroupManagerResult) × (m' : GroupManager lib) × (add_group lib m mem name ≡ (r, m'))
        × Adds m mem name r m'
        × IsValid lib m'
  unfolding add_group
  add_group-Adds m mem name v = elim (Bool-cases (ltb 32 (length name))) [
    | inl long ↦ (_, m, rw long refl, refused (too_long (ground (arith, long))) (λ n. refl), v)
    | inr fits ↦ elim (Option-cases (at lib m name)) [
      | inr (p, e) ↦ (
        _,
        m,
        rw (fits, is_name_taken-at m name, found-is_success-some (at lib m name) p e) refl,
        refused (taken p e) (λ n. refl),
        v,
      )
      | inl free ↦ elim (Bool-cases (leb 1000 (names.size m.groups))) [
        | inl full ↦ (
          GroupManagerResult.internal_error,
          m,
          rw (fits, is_name_taken-at m name, found-is_success-none (at lib m name) free)
              (unfold allocate_group_endpoint in rw full refl),
          refused (no_port (ground (arith, full))) (λ n. refl),
          v,
        )
        | inr room ↦
            let few : names.size m.groups < 1000 = ground (arith, room) in
            let short : length name ≤ 32 = ground (arith, fits) in
            let (endpoint, run, same) = allocate-nth m name few in
            let (r, m', step, a, w) =
              add_named-Adds m mem name v short free few endpoint (unfold named in same) in
            (
              r,
              m',
              rw (fits, is_name_taken-at m name, found-is_success-none (at lib m name) free, run)
                  step,
              a,
              w,
            )
      ]
    ]
  ]
