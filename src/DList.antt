-- ===== src/DList.antt =====
-- db/gen_dlist.h. The implementation is a binary archive, so the list is a parameter of the model:
-- the operations that the program calls, with the behaviour that the header documents.
pub mod Plain
use c_chat_rooms_app.Base.{
  ℕ, ◌≡◌, ◌⊎◌, Bool, true, false, ◌||◌, Option, none, some, List, [], ◌∷◌, ◌++◌, length,
}

module _ {A : Type 0} where
  -- Some element passes the test.
  unfoldable pub any : (A → Bool) → List A → Bool
  any p [] = false
  any p (x ∷ xs) = p x || any p xs

  -- `after` is `before` without its first element that passes the test.
  pub record RemovesFirst (p : A → Bool) (x : A) (before after : List A) : Type 0 where
    pub front : List A
    pub back : List A
    pub split : before ≡ front ++ x ∷ back
    pub rest : after ≡ front ++ back
    pub hit : p x ≡ true
    pub first : any p front ≡ false

pub record DList (A : Type 0) : Type 1 where
  pub Rep : Type 0
  pub Itr : Type 0
  -- ListCreate, when it finds memory.
  pub create : Rep
  -- ListPushTail: NULL on error.
  pub push_tail : Rep → A → Option Itr × Rep
  -- ListFind, with the test that `Compare` against the target makes.
  pub find : Rep → (A → Bool) → Option Itr
  -- ListItrRemove, with the element that it hands back.
  pub itr_remove : Rep → Itr → Option A × Rep
  pub size : Rep → ℕ
  -- The elements that iterators visit from ListItrBegin to ListItrEnd.
  pub items : Rep → List A
  pub items-create : items create ≡ []
  pub push_tail_lem :
      (l : Rep) (x : A)
      → (push_tail l x ≡ (none, l))
        ⊎ ((i : Itr) × (l' : Rep) × (push_tail l x ≡ (some i, l')) × (items l' ≡ items l ++ x ∷ []))
  pub find_miss : (l : Rep) (p : A → Bool) → any p (items l) ≡ false → find l p ≡ none
  pub find_hit :
      (l : Rep) (p : A → Bool)
      → any p (items l) ≡ true
      → (i : Itr) × (x : A) × (l' : Rep) × (find l p ≡ some i)
        × (itr_remove l i ≡ (some x, l'))
        × RemovesFirst p x (items l) (items l')
  pub size_lem : (l : Rep) → size l ≡ length (items l)
  -- ListItrBegin followed by a number of ListItrNext.
  pub itr_at : Rep → ℕ → Itr
  -- ListItrRemove takes out the element at the iterator and leaves the others in their order.
  pub itr_at_lem :
      (l : Rep) (front : List A) (x : A) (back : List A)
      → items l ≡ front ++ x ∷ back
      → (l' : Rep) × (itr_remove l (itr_at l (length front)) ≡ (some x, l'))
        × (items l' ≡ front ++ back)
