-- ===== src/HashMap/Assoc.antt =====
-- A map that meets the documented behaviour: a list of pairs with distinct keys, at most `room` of
-- them, after which an insertion reports that it found no memory.
use c_chat_rooms_app.Base.{
  ℕ, ◌+◌, ◌≡◌, refl, sym, ap, ◌⊎◌, inl, inr, Option, none, some, List, [], ◌∷◌, ltb, if◌then◌else◌,
  length, arith, Bool-cases, Each, Each-imp,
}
use mathlib.Core.Option.{some-injective}
use c_chat_rooms_app.HashMap.{
  MapResult, success, key_duplicate_error, key_not_found_error, allocation_error, Key, lookup,
  Inserts, Removes, found, HashMap,
}

module _ {K V : Type 0} (key : Key K) where
  abbrev pub IsDistinct : List (K × V) → Type 0
  IsDistinct [] = Unit {0}
  IsDistinct ((k, v) ∷ es) = (lookup key k es ≡ none) × IsDistinct es

  -- In a list with distinct keys every pair is found under its key.
  pub IsDistinct-Each :
      (es : List (K × V)) → IsDistinct es → Each (λ e. lookup key e.0 es ≡ some e.1) es
  unfolding lookup
  IsDistinct-Each [] d = tt
  IsDistinct-Each ((k, v) ∷ es) d = (
    ground (arith, key.equal_iff k k),
    Each-imp (λ e. lookup key e.0 es ≡ some e.1) _
        (λ e there. ground (arith, key.equal_iff e.0 k, d.0, there)) es (IsDistinct-Each es d.1),
  )

  unfoldable pub erase : K → List (K × V) → List (K × V)
  erase k [] = []
  erase k ((j, v) ∷ es) = if key.equal k j then es else (j, v) ∷ erase k es

  lookup-erase :
      (k j : K) (es : List (K × V))
      → IsDistinct es
      → lookup key j (erase k es) ≡ (if key.equal j k then none else lookup key j es)
  unfolding lookup erase
  lookup-erase k j [] d = ground arith
  lookup-erase k j ((i, v) ∷ es) d =
      ground
        (arith, lookup-erase k j es d.1, key.equal_iff k i, key.equal_iff j i, key.equal_iff j k)

  pub erase-IsDistinct : (k : K) (es : List (K × V)) → IsDistinct es → IsDistinct (erase k es)
  unfolding erase
  erase-IsDistinct k [] d = tt
  erase-IsDistinct k ((i, v) ∷ es) d =
      ground (arith, erase-IsDistinct k es d.1, lookup-erase k i es d.1)

  length-erase :
      (k : K) (es : List (K × V)) (v : V)
      → lookup key k es ≡ some v
      → length es ≡ length (erase k es) + 1
  unfolding lookup erase
  length-erase k [] v e = cc
  length-erase k ((i, w) ∷ es) v e = ground (arith, length-erase k es v)

module _ {K : Type 0} (V : Type 0) (key : Key K) where
  pub record Pairs : Type 0 where
    pub pairs : List (K × V)
    pub distinct : IsDistinct key pairs

  unfoldable pub create : ℕ → Option Pairs
  create n = some (record { pairs = []; distinct = tt })

  unfoldable pub insert_case :
      (room : ℕ) (m : Pairs) (k : K)
      → V
      → (o : Option V) → lookup key k m.pairs ≡ o
      → MapResult × Pairs
  insert_case room m k v none absent =
      if ltb (length m.pairs) room
      then (success, record { pairs = (k, v) ∷ m.pairs; distinct = (absent, m.distinct) })
      else (allocation_error, m)
  insert_case room m k v (some w) e = (key_duplicate_error, m)

  unfoldable pub insert : ℕ → Pairs → K → V → MapResult × Pairs
  insert room m k v = insert_case room m k v (lookup key k m.pairs) refl

  unfoldable pub remove : Pairs → K → MapResult × Option (K × V) × Pairs
  remove m k = elim (lookup key k m.pairs) [
    | none ↦ (key_not_found_error, none, m)
    | some v ↦ (
      success,
      some (k, v),
      record { pairs = erase key k m.pairs; distinct = erase-IsDistinct key k m.pairs m.distinct },
    )
  ]

  pub entries-create : (n : ℕ) (m : Pairs) → create n ≡ some m → m.pairs ≡ []
  unfolding create
  entries-create n m e = sym (ap pairs_of (some-injective _ _ e))
    where
      pairs_of : Pairs → List (K × V)
      pairs_of x = x.pairs

  pub insert_case-some :
      (room : ℕ) (m : Pairs) (k : K) (v w : V) (o : Option V) (p : lookup key k m.pairs ≡ o)
      → o ≡ some w
      → insert_case room m k v o p ≡ (key_duplicate_error, m)
  unfolding insert_case
  insert_case-some room m k v w none p e = cc
  insert_case-some room m k v w (some _) p e = refl

  pub insert_case-none :
      (room : ℕ) (m : Pairs) (k : K) (v : V) (o : Option V) (p : lookup key k m.pairs ≡ o)
      → o ≡ none
      → (insert_case room m k v o p ≡ (allocation_error, m))
        ⊎ ((m' : Pairs) × (insert_case room m k v o p ≡ (success, m'))
            × Inserts key k v m.pairs m'.pairs)
  unfolding insert_case lookup
  insert_case-none room m k v (some w) p e = cc
  insert_case-none room m k v none p e = elim (Bool-cases (ltb (length m.pairs) room)) [
    | inr full ↦ inl (rw full)
    | inl free ↦ inr (
      record { pairs = (k, v) ∷ m.pairs; distinct = (p, m.distinct) },
      rw free,
      record { reads = λ j. refl; grows = omega arith },
    )
  ]

  pub remove_missing :
      (m : Pairs) (k : K)
      → lookup key k m.pairs ≡ none
      → remove m k ≡ (key_not_found_error, none, m)
  unfolding remove
  remove_missing m k e = rw (e, remove)

  pub remove_present :
      (m : Pairs) (k : K) (v : V)
      → lookup key k m.pairs ≡ some v
      → (m' : Pairs) × (remove m k ≡ (success, some (k, v), m')) × Removes key k m.pairs m'.pairs
  unfolding remove
  remove_present m k v e = (
    record { pairs = erase key k m.pairs; distinct = erase-IsDistinct key k m.pairs m.distinct },
    rw (e, remove),
    record {
      reads = λ j. lookup-erase key k j m.pairs m.distinct;
      shrinks = length-erase key k m.pairs v e;
    },
  )

  -- The map with room for a number of pairs.
  unfoldable pub assoc : ℕ → HashMap K V key
  unfolding create insert_case insert remove
  assoc room = record {
    Map = Pairs;
    create = create;
    insert = insert room;
    remove = remove;
    find = λ m k. found (lookup key k m.pairs);
    size = λ m. length m.pairs;
    entries = λ m. m.pairs;
    entries_distinct = λ m. IsDistinct-Each key m.pairs m.distinct;
    entries-create = entries-create;
    find_lem = λ m k. refl;
    size_lem = λ m. refl;
    insert_duplicate = λ m k v w. insert_case-some room m k v w (lookup key k m.pairs) refl;
    insert_fresh = λ m k v. insert_case-none room m k v (lookup key k m.pairs) refl;
    remove_missing = remove_missing;
    remove_present = remove_present;
  }
