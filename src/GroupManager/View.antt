-- ===== src/GroupManager/View.antt =====
-- The state of the group manager, seen as the live objects and the map as a function.
use c_chat_rooms_app.Base.{
  ℕ, suc, ◌≤◌, ◌<◌, ◌≡◌, ◌≢◌, inl, inr, Option, none, some, if◌then◌else◌, Option-cases, arith,
  Bytes, length,
}
use c_chat_rooms_app.Heap.{update}
use c_chat_rooms_app.Keys.{equal_names, equal_names_iff}
use c_chat_rooms_app.Group.{Group}

-- `next` bounds the live addresses; `at` is what the map gives.
pub record IsView (next : ℕ) (cell : ℕ → Option Group) (at : Bytes → Option ℕ) : Type 0 where
  pub live : (p : ℕ) (g : Group) → cell p ≡ some g → p < next
  -- Every object is registered under its name, and every name leads to its object.
  pub registered : (p : ℕ) (g : Group) → cell p ≡ some g → at g.name ≡ some p
  pub named : (n : Bytes) (p : ℕ) → at n ≡ some p → cell p ≢ none
  pub named_as : (n : Bytes) (p : ℕ) (g : Group) → at n ≡ some p → cell p ≡ some g → g.name ≡ n
  -- The names are short, and the ports are those of the multicast range.
  pub short : (p : ℕ) (g : Group) → cell p ≡ some g → length g.name ≤ 32
  pub low : (p : ℕ) (g : Group) → cell p ≡ some g → 5000 ≤ g.endpoint.port
  pub high : (p : ℕ) (g : Group) → cell p ≡ some g → g.endpoint.port < 6000

module _ {next : ℕ} {cell : ℕ → Option Group} {at : Bytes → Option ℕ}
    (v : IsView next cell at) where
  pub named-lt : (n : Bytes) (p : ℕ) → at n ≡ some p → p < next
  named-lt n p h = elim (Option-cases (cell p)) [
    | inl dead ↦ absurd (v.named n p h dead)
    | inr (g, e) ↦ v.live p g e
  ]

  -- Changing only the count of an object.
  pub put-IsView :
      (p : ℕ) (g : Group) (n : ℕ)
      → cell p ≡ some g
      → IsView next (update cell p (some (record g { ref_count = n }))) at
  put-IsView p g n e = record {
    live = λ q w h. ground (arith, v.live q w, v.live p g e);
    registered = λ q w h. ground (arith, v.registered q w, v.registered p g e);
    named = λ n q h. ground (arith, v.named n q h);
    named_as = λ n q w h k. ground (arith, v.named_as n q w h, v.named_as n q g h);
    short = λ q w h. ground (arith, v.short q w, v.short p g e);
    low = λ q w h. ground (arith, v.low q w, v.low p g e);
    high = λ q w h. ground (arith, v.high q w, v.high p g e);
  }

  -- A new object under a new name.
  pub add-IsView :
      (g : Group) (at' : Bytes → Option ℕ)
      → at g.name ≡ none
      → ((n : Bytes) → at' n ≡ (if equal_names n g.name then some next else at n))
      → length g.name ≤ 32
      → 5000 ≤ g.endpoint.port
      → g.endpoint.port < 6000
      → IsView (suc next) (update cell next (some g)) at'
  add-IsView g at' free reads short low high = record {
    live = λ q w h. ground (arith, v.live q w);
    registered = λ q w h. ground (
      arith,
      reads w.name,
      reads g.name,
      equal_names_iff w.name g.name,
      equal_names_iff g.name g.name,
      v.registered q w,
    );
    named = λ n q h. ground (arith, reads n, v.named n q);
    named_as = λ n q w h k.
        ground (arith, reads n, equal_names_iff n g.name, v.named_as n q w, named-lt n q);
    short = λ q w h. ground (arith, v.short q w);
    low = λ q w h. ground (arith, v.low q w);
    high = λ q w h. ground (arith, v.high q w);
  }

  -- The death of an object, with its entry in the map.
  pub remove-IsView :
      (p : ℕ) (g : Group) (at' : Bytes → Option ℕ)
      → cell p ≡ some g
      → ((n : Bytes) → at' n ≡ (if equal_names n g.name then none else at n))
      → IsView next (update cell p none) at'
  remove-IsView p g at' e reads = record {
    live = λ q w h. ground (arith, v.live q w);
    registered = λ q w h.
        ground (
          arith,
          reads w.name,
          equal_names_iff w.name g.name,
          v.registered q w,
          v.registered p g e,
        );
    named =
        λ n q h. ground (arith, reads n, equal_names_iff n g.name, v.named n q, v.named_as n q g);
    named_as = λ n q w h k. ground (arith, reads n, v.named_as n q w);
    short = λ q w h. ground (arith, v.short q w);
    low = λ q w h. ground (arith, v.low q w);
    high = λ q w h. ground (arith, v.high q w);
  }

  -- Only what the functions give matters, and the bound may grow.
  pub IsView-congr :
      (next' : ℕ) (cell' : ℕ → Option Group) (at' : Bytes → Option ℕ)
      → next ≤ next'
      → ((p : ℕ) → cell' p ≡ cell p)
      → ((n : Bytes) → at' n ≡ at n)
      → IsView next' cell' at'
  IsView-congr next' cell' at' l cells reads = record {
    live = λ q w h. ground (arith, cells q, v.live q w);
    registered = λ q w h. ground (arith, cells q, reads w.name, v.registered q w);
    named = λ n q h. ground (arith, reads n, cells q, v.named n q);
    named_as = λ n q w h k. ground (arith, reads n, cells q, v.named_as n q w);
    short = λ q w h. ground (arith, cells q, v.short q w);
    low = λ q w h. ground (arith, cells q, v.low q w);
    high = λ q w h. ground (arith, cells q, v.high q w);
  }
