-- ===== src/GroupManager/Endpoint.antt =====
-- `GroupManager_GetGroupEndpoint`, and what it hands out after `GroupManager_AddGroup`.
use c_chat_rooms_app.Base.{
  ◌+◌, ◌≤◌, ◌<◌, ◌≡◌, refl, ap, sym, ◌≢◌, ◌∙◌, ◌⊎◌, inl, inr, Option, none, some, ◌>>=◌,
  if◌then◌else◌, Bool-cases, Bytes, codes,
}
use mathlib.Core.Path.{subst}
use c_chat_rooms_app.Keys.{Library, equal_names}
use c_chat_rooms_app.Group.{Group, GroupEndpoint}
use c_chat_rooms_app.Group
use c_chat_rooms_app.GroupManager.{
  GroupManager, GroupManagerResult, get_group_endpoint, add_group, network_convert_ip_p_to_n,
}
use c_chat_rooms_app.User.{Memory}
use c_chat_rooms_app.GroupManager.Add.{
  Refusal, too_long, taken, no_port, no_memory, no_entry, Adds, refused, added, nth_group,
  add_group-Adds,
}
use c_chat_rooms_app.GroupManager.Table.{IsValid, group_at, get_group-at, at_cases}

module _ (lib : Library) where
  open lib use {names, char_signed}

  -- `GroupManager_GetGroupEndpoint` on a well-formed manager reads no dead object and hands out the
  -- endpoint of the group, whose port is one of the 1000 from 5000 on; with no such group it writes
  -- nothing.
  pub get_group_endpoint_lem :
      (m : GroupManager lib) (name : Bytes)
      → IsValid lib m
      → ((group_at lib m name ≡ none)
          × (get_group_endpoint lib m name ≡ some (GroupManagerResult.not_found, none)))
        ⊎ ((g : Group) × (group_at lib m name ≡ some g)
            × (get_group_endpoint lib m name ≡ some (GroupManagerResult.success, some g.endpoint))
            × (5000 ≤ g.endpoint.port)
            × (g.endpoint.port < 6000))
  unfolding get_group_endpoint Group.get_endpoint
  get_group_endpoint_lem m name v = elim (at_cases lib m name v) [
    | inl (e, h) ↦ inl (h, rw (get_group-at lib m name, e, get_group_endpoint) refl)
    | inr (p, g, e, c, same, h) ↦ inr (
      g,
      h,
      rw (get_group-at lib m name, e, get_group_endpoint, c, ◌>>=◌) refl,
      v.low p g c,
      v.high p g c,
    )
  ]

  -- What is handed out, by the table.
  abbrev endpoint_of : Option Group → GroupManagerResult × Option GroupEndpoint
  endpoint_of none = (GroupManagerResult.not_found, none)
  endpoint_of (some g) = (GroupManagerResult.success, some g.endpoint)

  get_group_endpoint-group_at :
      (m : GroupManager lib) (name : Bytes)
      → IsValid lib m
      → get_group_endpoint lib m name ≡ some (endpoint_of (group_at lib m name))
  get_group_endpoint-group_at m name v = elim (get_group_endpoint_lem m name v) [
    | inl (h, run) ↦ run ∙ rw h refl
    | inr (g, h, run, low, high) ↦ run ∙ rw h refl
  ]

  Refusal-fails :
      {m : GroupManager lib} {mem : Memory} {name : Bytes} {r : GroupManagerResult}
      → Refusal lib m mem name r
      → r ≢ GroupManagerResult.success
  Refusal-fails (too_long h) e = cc
  Refusal-fails (taken p h) e = cc
  Refusal-fails (no_port h) e = cc
  Refusal-fails (no_memory h) e = cc
  Refusal-fails (no_entry h) e = cc

  Adds-endpoint :
      {r : GroupManagerResult} (m m' : GroupManager lib) (mem : Memory) (name n : Bytes)
      → IsValid lib m
      → IsValid lib m'
      → Adds lib m mem name r m'
      → r ≡ GroupManagerResult.success
      → (names.size m.groups < 1000)
        × (get_group_endpoint lib m' n ≡ (
            if equal_names n name
            then some (
              GroupManagerResult.success,
              some (record {
                multicast_addr = network_convert_ip_p_to_n lib (codes "239.0.0.1");
                port = 5000 + names.size m.groups;
              }),
            )
            else get_group_endpoint lib m n))
  unfolding nth_group Group.create
  Adds-endpoint m m' mem name n v w (refused why same) e = absurd (Refusal-fails why e)
  Adds-endpoint m m' mem name n v w (added short free room reads) e = (
    room,
    get_group_endpoint-group_at m' n w ∙ elim (Bool-cases (equal_names n name)) [
      | inl same ↦ rw (reads n, same) refl
      | inr other ↦ rw (reads n, other) (sym (get_group_endpoint-group_at m n v))
    ],
  )

  -- `GroupManager_GetGroupEndpoint` after `GroupManager_AddGroup` has made a group on a well-formed
  -- manager: the group of the name has the address 239.0.0.1 and the port 5000 plus the number of the
  -- groups before, below 6000; what is handed out for any other name is as before.
  pub get_group_endpoint-add_group :
      (m m' : GroupManager lib) (mem : Memory) (name n : Bytes)
      → IsValid lib m
      → add_group lib m mem name ≡ (GroupManagerResult.success, m')
      → (names.size m.groups < 1000)
        × (get_group_endpoint lib m' n ≡ (
            if equal_names n name
            then some (
              GroupManagerResult.success,
              some (record {
                multicast_addr = network_convert_ip_p_to_n lib (codes "239.0.0.1");
                port = 5000 + names.size m.groups;
              }),
            )
            else get_group_endpoint lib m n))
  get_group_endpoint-add_group m m' mem name n v e =
      let (r, m₁, run, a, w) = add_group-Adds lib m mem name v in
      let both : (r, m₁) ≡ (GroupManagerResult.success, m') = sym run ∙ e in
      let same : m₁ ≡ m' = ap (λ t. t.1) both in
      Adds-endpoint m m' mem name n v (subst (IsValid lib) same w)
        (subst (Adds lib m mem name r) same a) (ap (λ t. t.0) both)
