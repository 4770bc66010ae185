-- ===== src/User/Groups.antt =====
-- The list of groups of a user, seen as the names that it holds.
use c_chat_rooms_app.Base.{
  ◌≡◌, refl, ap, ◌≢◌, ◌⊎◌, inl, inr, Bool, true, false, ◌||◌, Option, none, some, List, [], ◌∷◌,
  ◌++◌, if◌then◌else◌, arith, Bytes, str_eq, str_eq_iff, Bool-cases, is_some,
}
use c_chat_rooms_app.DList.{DList, any, RemovesFirst}
use c_chat_rooms_app.User.{
  User, Memory, UserResult, find_group, is_in_group, push_group, add_to_list, add_group,
  remove_from_list, remove_group,
}

pub any-append :
    {A : Type 0} (p : A → Bool) (xs ys : List A) → any p (xs ++ ys) ≡ any p xs || any p ys
unfolding any
any-append p [] ys = refl
any-append p (x ∷ xs) ys = ground (arith, any-append p xs ys)

-- No name stands twice in the list.
abbrev pub IsDistinct : List Bytes → Type 0
IsDistinct [] = Unit {0}
IsDistinct (x ∷ xs) = (any (str_eq x) xs ≡ false) × IsDistinct xs

pub concat-IsDistinct :
    (x : Bytes) (xs : List Bytes)
    → any (str_eq x) xs ≡ false
    → IsDistinct xs
    → IsDistinct (xs ++ x ∷ [])
unfolding any
concat-IsDistinct x [] h d = (refl, tt)
concat-IsDistinct x (y ∷ ys) h d = ground (
  arith,
  concat-IsDistinct x ys,
  any-append (str_eq y) ys (x ∷ []),
  str_eq_iff x y,
  str_eq_iff y x,
)

-- Dropping one name of a list without repetitions.
pub middle-IsDistinct :
    (front back : List Bytes) (x : Bytes)
    → IsDistinct (front ++ x ∷ back)
    → IsDistinct (front ++ back) × (any (str_eq x) (front ++ back) ≡ false)
unfolding any
middle-IsDistinct [] back x d = (d.1, d.0)
middle-IsDistinct (y ∷ front) back x d = ground (
  arith,
  middle-IsDistinct front back x d.1,
  any-append (str_eq y) front (x ∷ back),
  any-append (str_eq y) front back,
  str_eq_iff x y,
  str_eq_iff y x,
)

-- What asking for `name` to be added does to a list of names.
-- `Fails` says when `ListPushTail` fails, and the two Booleans whether
-- `ListCreate` and `strdup` find memory.
pub data Adds (Fails : Type 0) (list_memory name_memory : Bool) (name : Bytes) (before : List Bytes)
    : UserResult → List Bytes → Type 0 where
  already :
      any (str_eq name) before ≡ true
      → Adds Fails list_memory name_memory name before UserResult.already_in_group before
  added :
      any (str_eq name) before ≡ false
      → name_memory ≡ true
      → Adds Fails list_memory name_memory name before UserResult.success (before ++ name ∷ [])
  -- `ListPushTail` failed, which the code does not see.
  lost :
      Fails
      → any (str_eq name) before ≡ false
      → Adds Fails list_memory name_memory name before UserResult.success before
  no_memory :
      any (str_eq name) before ≡ false
      → (before ≡ []) × (list_memory ≡ false) ⊎ (name_memory ≡ false)
      → Adds Fails list_memory name_memory name before UserResult.allocation_failed before

-- What asking for `name` to be removed does.
pub data Drops (name : Bytes) (before : List Bytes) : UserResult → List Bytes → Type 0 where
  absent : any (str_eq name) before ≡ false → Drops name before UserResult.not_in_group before
  dropped :
      {after : List Bytes} (x : Bytes)
      → RemovesFirst (str_eq name) x before after
      → Drops name before UserResult.success after

module _ (lists : DList Bytes) where
  -- The names in a list, or none for NULL.
  unfoldable pub names_of : Option lists.Rep → List Bytes
  names_of none = []
  names_of (some l) = lists.items l

  -- Every `ListPushTail` finds memory.
  abbrev pub Pushes : Type 0
  Pushes = (l : lists.Rep) (x : Bytes) → (lists.push_tail l x).0 ≢ none

  -- Some `ListPushTail` of the name finds no memory.
  abbrev pub Fails : Bytes → Type 0
  Fails name = (l : lists.Rep) × (lists.push_tail l name ≡ (none, l))

  push_group-Adds :
      (list_memory : Bool) (mem : Memory) (l : lists.Rep) (name : Bytes)
      → any (str_eq name) (lists.items l) ≡ false
      → Adds
          (Fails name)
          list_memory
          mem.group_name
          name
          (lists.items l)
          (push_group lists mem l name).0
          (lists.items (push_group lists mem l name).1)
  unfolding push_group
  push_group-Adds list_memory mem l name h = elim (Bool-cases mem.group_name) [
    | inr e ↦ rw e (no_memory h (inr refl))
    | inl e ↦ elim (lists.push_tail_lem l name) [
      | inl lost_it ↦ rw (e, lost_it) (lost (l, lost_it) h)
      | inr (i, l', run, kept) ↦ rw (e, run, kept) (added h refl)
    ]
  ]

  add_to_list-Adds :
      (mem : Memory) (o : Option lists.Rep) (name : Bytes)
      → Adds
          (Fails name)
          mem.list
          mem.group_name
          name
          (names_of o)
          (add_to_list lists mem o name).0
          (names_of (add_to_list lists mem o name).1)
  unfolding add_to_list names_of find_group any
  add_to_list-Adds mem none name = elim (Bool-cases mem.list) [
    | inr e ↦ rw e (no_memory refl (inl (refl, refl)))
    | inl e ↦ rw e (
        rw lists.items-create at
          (push_group-Adds true mem lists.create name (rw lists.items-create refl)))
  ]
  add_to_list-Adds mem (some l) name = elim (Bool-cases (any (str_eq name) (lists.items l))) [
    | inl h ↦
        let (i, x, l', at, cut, r) = lists.find_hit l (str_eq name) h in
        rw (at, add_to_list) (already h)
    | inr h ↦
        rw (lists.find_miss l (str_eq name) h, add_to_list) (push_group-Adds mem.list mem l name h)
  ]

  find_group-any :
      (o : Option lists.Rep) (name : Bytes)
      → is_some (find_group lists o name) ≡ any (str_eq name) (names_of o)
  unfolding find_group names_of any
  find_group-any none name = refl
  find_group-any (some l) name = elim (Bool-cases (any (str_eq name) (lists.items l))) [
    | inl h ↦ let (i, x, l', at, cut, r) = lists.find_hit l (str_eq name) h in rw (at, h)
    | inr h ↦ rw (lists.find_miss l (str_eq name) h, h)
  ]

  pub is_in_group-any :
      (u : User lists) (name : Bytes)
      → is_some (is_in_group lists u name) ≡ any (str_eq name) (names_of u.groups)
  unfolding is_in_group
  is_in_group-any u name = find_group-any u.groups name

  -- `User_AddGroup`, on every branch.
  pub add_group-Adds :
      (mem : Memory) (u : User lists) (name : Bytes)
      → (g : Option lists.Rep) × (r : UserResult) × (add_group lists mem u name
          ≡ (r, record u { groups = g }))
        × Adds (Fails name) mem.list mem.group_name name (names_of u.groups) r (names_of g)
  unfolding add_group
  add_group-Adds mem u name =
      ((add_to_list lists mem u.groups name).1, _, refl, add_to_list-Adds mem u.groups name)

  remove_from_list-Drops :
      (o : Option lists.Rep) (name : Bytes)
      → Drops name
          (names_of o)
          (remove_from_list lists o (find_group lists o name)).0
          (names_of (remove_from_list lists o (find_group lists o name)).1)
  unfolding remove_from_list names_of find_group any
  remove_from_list-Drops none name = absent refl
  remove_from_list-Drops (some l) name = elim (Bool-cases (any (str_eq name) (lists.items l))) [
    | inl h ↦
        let (i, x, l', at, cut, r) = lists.find_hit l (str_eq name) h in
        rw (at, remove_from_list, cut, ap (λ t. t.1) cut) (dropped x r)
    | inr h ↦ rw (lists.find_miss l (str_eq name) h) (absent h)
  ]

  -- `User_RemoveGroup`, on every branch.
  pub remove_group-Drops :
      (u : User lists) (name : Bytes)
      → (g : Option lists.Rep) × (r : UserResult) × (remove_group lists u name
          ≡ (r, record u { groups = g }))
        × Drops name (names_of u.groups) r (names_of g)
  unfolding remove_group is_in_group
  remove_group-Drops u name = (
    (remove_from_list lists u.groups (find_group lists u.groups name)).1,
    _,
    refl,
    remove_from_list-Drops u.groups name,
  )

pub Adds-IsDistinct :
    {Fails : Type 0} {list_memory name_memory : Bool} {name : Bytes} {before : List Bytes}
    {r : UserResult} {after : List Bytes}
    → IsDistinct before
    → Adds Fails list_memory name_memory name before r after
    → IsDistinct after
Adds-IsDistinct d (already h) = d
Adds-IsDistinct {name = name} {before = before} d (added h e) = concat-IsDistinct name before h d
Adds-IsDistinct d (lost f h) = d
Adds-IsDistinct d (no_memory h why) = d

-- Removing the first of the names that equal `name` leaves none, and every other name.
pub RemovesFirst-reads :
    (name x : Bytes) (before after : List Bytes) (y : Bytes)
    → IsDistinct before
    → RemovesFirst (str_eq name) x before after
    → (any (str_eq y) after ≡ (if str_eq y name then false else any (str_eq y) before))
      × IsDistinct after
unfolding any
RemovesFirst-reads name x before after y d r =
    let parted : IsDistinct (r.front ++ x ∷ r.back) = rw r.split at d in
    let (kept, gone) = middle-IsDistinct r.front r.back x parted in
    rw (r.split, r.rest)
      (
        ground (
          arith,
          gone,
          r.hit,
          str_eq_iff name x,
          str_eq_iff y name,
          str_eq_iff y x,
          any-append (str_eq y) r.front (x ∷ r.back),
          any-append (str_eq y) r.front r.back,
        ),
        kept,
      )

pub Drops-IsDistinct :
    {name : Bytes} {before : List Bytes} {r : UserResult} {after : List Bytes}
    → IsDistinct before
    → Drops name before r after
    → IsDistinct after
Drops-IsDistinct d (absent h) = d
Drops-IsDistinct {name} {before} d (dropped {after = after} x r) =
    (RemovesFirst-reads name x before after name d r).1
