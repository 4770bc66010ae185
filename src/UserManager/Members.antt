-- ===== src/UserManager/Members.antt =====
-- How many users are in a group, over all the objects.
use c_chat_rooms_app.Base.{
  ℕ, ◌+◌, ◌<◌, ◌≡◌, ap, sym, ◌∙◌, Option, none, some, arith, Bytes, str_eq, to_nat,
}
use c_chat_rooms_app.DList.{DList, any}
use c_chat_rooms_app.Heap.{update, sum_below, sum_below-update}
use c_chat_rooms_app.Heap
use c_chat_rooms_app.User.{User}
use c_chat_rooms_app.User.Groups.{names_of}

module _ (lists : DList Bytes) where
  -- 1 if the object at an address is a user who is in the group.
  unfoldable pub weight : Bytes → Option (User lists) → ℕ
  weight name none = 0
  weight name (some u) = to_nat (any (str_eq name) (names_of lists u.groups))

  unfoldable pub members : Bytes → ℕ → (ℕ → Option (User lists)) → ℕ
  members name next cell = sum_below next (λ p. weight name (cell p))

  -- A change of one object.
  pub members-update :
      (name : Bytes) (next : ℕ) (cell : ℕ → Option (User lists)) (p : ℕ) (o : Option (User lists))
      → p < next
      → members name next (update cell p o) + weight name (cell p)
        ≡ members name next cell + weight name o
  unfolding members
  members-update name next cell p o l =
      let h =
        sum_below-update next p (λ q. weight name (update cell p o q)) (λ q. weight name (cell q)) l
          (λ q d. ground arith) in
      ground (arith, h)

  -- An assignment to a user that is there.
  pub members-write :
      (h : Heap.Heap (User lists)) (n : Bytes) (p : ℕ) (u u' : User lists)
      → p < h.next
      → h.cell p ≡ some u
      → members n (Heap.write h p u').next (Heap.write h p u').cell
          + to_nat (any (str_eq n) (names_of lists u.groups))
        ≡ members n h.next h.cell + to_nat (any (str_eq n) (names_of lists u'.groups))
  unfolding Heap.write weight
  members-write h n p u u' l e =
      ap (λ o. members n h.next (update h.cell p (some u')) + weight n o) (sym e)
      ∙ members-update n h.next h.cell p (some u') l
