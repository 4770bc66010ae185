-- ===== src/Heap.antt =====
-- Objects behind pointers: an address never names two objects, and a dead address reads as `none`.
use c_chat_rooms_app.Base.{
  ℕ_discrete, ℕ, zero, suc, ◌+◌, ◌<◌, ◌≡◌, ◌≢◌, refl, ap, Option, none, some, ◌==◌, if◌then◌else◌,
  arith,
}

pub record Heap (A : Type 0) : Type 0 where
  pub next : ℕ
  pub cell : ℕ → Option A

module _ {A : Type 0} where
  abbrev pub update : (ℕ → Option A) → ℕ → Option A → ℕ → Option A
  update f p v q = if q == p then v else f q

  unfoldable pub empty : Heap A
  empty = record { next = 0; cell = λ p. none }

  -- `malloc` and the initialisation of the object.
  unfoldable pub alloc : Heap A → A → Heap A
  alloc h a = record { next = suc h.next; cell = update h.cell h.next (some a) }

  -- Assignments to an object that is live.
  unfoldable pub write : Heap A → ℕ → A → Heap A
  write h p a = record h { cell = update h.cell p (some a) }

  unfoldable pub free : Heap A → ℕ → Heap A
  free h p = record h { cell = update h.cell p none }

-- Sums over the addresses below a bound.
unfoldable pub sum_below : ℕ → (ℕ → ℕ) → ℕ
sum_below zero f = 0
sum_below (suc n) f = f n + sum_below n f

pub sum_below_congr :
    (n : ℕ) (f g : ℕ → ℕ) → ((q : ℕ) → q < n → f q ≡ g q) → sum_below n f ≡ sum_below n g
unfolding sum_below
sum_below_congr zero f g h = refl
sum_below_congr (suc n) f g h =
    omega (arith, h n (omega arith), sum_below_congr n f g (λ q l. h q (omega arith)))

-- A change at one address.
pub sum_below-update :
    (n p : ℕ) (f g : ℕ → ℕ)
    → p < n
    → ((q : ℕ) → q ≢ p → f q ≡ g q)
    → sum_below n f + g p ≡ sum_below n g + f p
unfolding sum_below
sum_below-update zero p f g l h = absurd (omega arith)
sum_below-update (suc n) p f g l h = elim (ℕ_discrete n p) [
  | yes e ↦
      let same : sum_below n f ≡ sum_below n g = sum_below_congr n f g (λ q k. h q (omega arith)) in
      omega (arith, ap f e, ap g e, same)
  | no d ↦ omega (arith, h n d, sum_below-update n p f g (omega arith) h)
]
