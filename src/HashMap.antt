-- ===== src/HashMap.antt =====
-- db/HashMap.h. The implementation is a binary archive, so the map is a parameter of the model: a
-- record of the operations that the program calls, with the behaviour that the header documents.
pub mod Assoc
use c_chat_rooms_app.Base.{
  ℕ, ◌+◌, ◌≡◌, ◌⊎◌, Bool, true, false, ◌↔◌, Option, none, some, List, [], ◌∷◌, if◌then◌else◌,
  length, Each,
}

-- Map_Result
pub data MapResult : Type 0 where
  success uninitialized_error key_null_error null_ptr_error key_duplicate_error : MapResult
  key_not_found_error allocation_error : MapResult

-- Whether a call returned MAP_SUCCESS.
abbrev pub is_success : MapResult → Bool
is_success MapResult.success = true
is_success _ = false

-- The hash and equality functions that a caller passes to `HashMap_Create`.
pub record Key (K : Type 0) : Type 0 where
  pub hash : K → ℕ
  pub equal : K → K → Bool
  pub equal_iff : (a b : K) → (equal a b ≡ true) ↔ (a ≡ b)

module _ {K V : Type 0} (key : Key K) where
  -- The value that a list of pairs gives for a key.
  unfoldable pub lookup : K → List (K × V) → Option V
  lookup k [] = none
  lookup k ((j, v) ∷ es) = if key.equal k j then some v else lookup k es

  -- What a new pair does to the pairs of a map.
  pub record Inserts (k : K) (v : V) (es es' : List (K × V)) : Type 0 where
    pub reads : (j : K) → lookup j es' ≡ (if key.equal j k then some v else lookup j es)
    pub grows : length es' ≡ length es + 1

  -- What the removal of a pair does.
  pub record Removes (k : K) (es es' : List (K × V)) : Type 0 where
    pub reads : (j : K) → lookup j es' ≡ (if key.equal j k then none else lookup j es)
    pub shrinks : length es ≡ length es' + 1

-- What `HashMap_Find` returns and leaves at `_pValue`: the callers that ignore the result rely on
-- its being NULL after a miss.
abbrev pub found : {V : Type 0} → Option V → MapResult × Option V
found none = (MapResult.key_not_found_error, none)
found (some v) = (MapResult.success, some v)

pub record HashMap (K V : Type 0) (key : Key K) : Type 1 where
  pub Map : Type 0
  -- HashMap_Create: NULL on failure.
  pub create : ℕ → Option Map
  pub insert : Map → K → V → MapResult × Map
  -- HashMap_Remove, with the pair that it hands back.
  pub remove : Map → K → MapResult × Option (K × V) × Map
  pub find : Map → K → MapResult × Option V
  pub size : Map → ℕ
  -- The pairs in the order in which HashMap_ForEach visits them.
  pub entries : Map → List (K × V)
  -- No key stands in two pairs.
  pub entries_distinct : (m : Map) → Each (λ e. lookup key e.0 (entries m) ≡ some e.1) (entries m)
  pub entries-create : (n : ℕ) (m : Map) → create n ≡ some m → entries m ≡ []
  pub find_lem : (m : Map) (k : K) → find m k ≡ found (lookup key k (entries m))
  pub size_lem : (m : Map) → size m ≡ length (entries m)
  pub insert_duplicate :
      (m : Map) (k : K) (v w : V)
      → lookup key k (entries m) ≡ some w
      → insert m k v ≡ (MapResult.key_duplicate_error, m)
  pub insert_fresh :
      (m : Map) (k : K) (v : V)
      → lookup key k (entries m) ≡ none
      → (insert m k v ≡ (MapResult.allocation_error, m))
        ⊎ ((m' : Map) × (insert m k v ≡ (MapResult.success, m'))
            × Inserts key k v (entries m) (entries m'))
  pub remove_missing :
      (m : Map) (k : K)
      → lookup key k (entries m) ≡ none
      → remove m k ≡ (MapResult.key_not_found_error, none, m)
  pub remove_present :
      (m : Map) (k : K) (v : V)
      → lookup key k (entries m) ≡ some v
      → (m' : Map) × (remove m k ≡ (MapResult.success, some (k, v), m'))
        × Removes key k (entries m) (entries m')
