-- ===== src/DList/Plain.antt =====
-- A list that meets the documented behaviour: the elements themselves, at most `room` of them; an
-- iterator is a position.
use c_chat_rooms_app.Base.{
  ℕ, zero, suc, ◌≡◌, refl, ap, ◌⊎◌, inl, inr, Bool, true, false, Option, none, some, List, [], ◌∷◌,
  ◌++◌, ltb, if◌then◌else◌, length, get_elem?, arith, Bool-cases,
}
use c_chat_rooms_app.DList.{DList, any, RemovesFirst}

module _ {A : Type 0} where
  unfoldable pub position : (A → Bool) → List A → Option ℕ
  position p [] = none
  position p (x ∷ xs) =
      if p x then some 0 else elim (position p xs) [ none ↦ none | some i ↦ some (suc i) ]

  unfoldable pub remove_at : List A → ℕ → List A
  remove_at [] i = []
  remove_at (x ∷ xs) zero = xs
  remove_at (x ∷ xs) (suc i) = x ∷ remove_at xs i

  unfoldable pub push : ℕ → List A → A → Option ℕ × List A
  push room l x = if ltb (length l) room then (some (length l), l ++ x ∷ []) else (none, l)

  pub push_cases :
      (room : ℕ) (l : List A) (x : A)
      → (push room l x ≡ (none, l))
        ⊎ ((i : ℕ) × (l' : List A) × (push room l x ≡ (some i, l')) × (l' ≡ l ++ x ∷ []))
  unfolding push
  push_cases room l x = elim (Bool-cases (ltb (length l) room)) [
    | inl e ↦ inr (length l, l ++ x ∷ [], rw e, refl)
    | inr e ↦ inl (rw e)
  ]

  pub position_miss : (l : List A) (p : A → Bool) → any p l ≡ false → position p l ≡ none
  unfolding position any
  position_miss [] p h = refl
  position_miss (x ∷ xs) p h = ground (arith, position_miss xs p)

  pub position_hit :
      (l : List A) (p : A → Bool)
      → any p l ≡ true
      → (i : ℕ) × (x : A) × (l' : List A) × (position p l ≡ some i)
        × (◌≡◌ {A = Option A × List A} (get_elem? l i, remove_at l i) (some x, l'))
        × RemovesFirst p x l l'
  unfolding position any remove_at
  position_hit [] p h = cc
  position_hit (y ∷ ys) p h = elim (Bool-cases (p y)) [
    | inl e ↦ (
      0,
      y,
      ys,
      rw e,
      refl,
      record { front = []; back = ys; split = refl; rest = refl; hit = e; first = refl },
    )
    | inr e ↦
        let (i, x, l', at, cut, r) = position_hit ys p (ground arith) in
        (
          suc i,
          x,
          y ∷ l',
          rw (e, at),
          ground arith,
          record {
            front = y ∷ r.front;
            back = r.back;
            split = ap (◌∷◌ y) r.split;
            rest = ap (◌∷◌ y) r.rest;
            hit = r.hit;
            first = rw (e, r.first);
          },
        )
  ]

pub remove_at-front :
    {A : Type 0} (l front : List A) (x : A) (back : List A)
    → l ≡ front ++ x ∷ back
    → (l' : List A) × (◌≡◌ {A = Option A × List A}
        (get_elem? l (length front), remove_at l (length front))
        (some x, l'))
      × (l' ≡ front ++ back)
unfolding remove_at
remove_at-front l [] x back e = (back, rw e refl, refl)
remove_at-front l (y ∷ front) x back e =
    let (l', cut, rest) = remove_at-front (front ++ x ∷ back) front x back refl in
    (y ∷ l', rw e (ground arith), ap (◌∷◌ y) rest)

-- The list with room for a number of elements.
unfoldable pub plain : (A : Type 0) → ℕ → DList A
plain A room = record {
  Rep = List A;
  Itr = ℕ;
  create = [];
  push_tail = push room;
  find = λ l p. position p l;
  itr_remove = λ l i. (get_elem? l i, remove_at l i);
  size = length;
  items = λ l. l;
  items-create = refl;
  push_tail_lem = push_cases room;
  find_miss = position_miss;
  find_hit = position_hit;
  size_lem = λ l. refl;
  itr_at = λ l k. k;
  itr_at_lem = remove_at-front;
}

boundless_push : {A : Type 0} → List A → A → Option ℕ × List A
boundless_push l x = (some (length l), l ++ x ∷ [])

-- The list that always finds memory.
unfoldable pub boundless : (A : Type 0) → DList A
unfolding plain boundless_push
boundless A = record (plain A 0) {
  push_tail = boundless_push;
  push_tail_lem = λ l x. inr (length l, l ++ x ∷ [], refl, refl);
}
