-- ===== src/Client/GroupWindows/Ledger.antt =====
-- Client/GroupWindows.c: every window that reported, over a run of calls.
use c_chat_rooms_app.Base.{
  ℕ, Bool, true, false, ◌≡◌, refl, sym, ap, ◌∙◌, ◌⊎◌, inl, inr, ◌||◌, Option, none, some, List, [],
  ◌∷◌, ◌++◌, ◌>>=◌, Bytes, ℤ, int_eq, int_eq_iff, Each, arith, Bool-cases, append-nil,
}
use c_chat_rooms_app.HashMap.{HashMap, lookup}
use c_chat_rooms_app.Keys.{equal_names, equal_names_iff}
use c_chat_rooms_app.Client.GroupWindows.{
  GroupPids, group_key, World, kill_pids, GroupWindows, close, open_window, close_all, kill_all,
  kill_each, map_size,
}
use c_chat_rooms_app.Client.GroupWindows.Closing.{held, Reads, pids_of, close-Closed}
use c_chat_rooms_app.Client.GroupWindows.Opening.{spawned, reporting, open_window-Opened}

abbrev pub occurs : ℤ → List ℤ → Bool
occurs p [] = false
occurs p (x ∷ xs) = int_eq p x || occurs p xs

occurs-append : (p : ℤ) (xs ys : List ℤ) → occurs p (xs ++ ys) ≡ (occurs p xs || occurs p ys)
occurs-append p [] ys = refl
occurs-append p (x ∷ xs) ys = ground (arith, occurs-append p xs ys)

Each-occurs :
    (ys xs : List ℤ)
    → ((p : ℤ) → occurs p xs ≡ true → occurs p ys ≡ true)
    → Each (λ p. occurs p ys ≡ true) xs
Each-occurs ys [] f = tt
Each-occurs ys (x ∷ xs) f =
    (f x (ground (arith, int_eq_iff x x)), Each-occurs ys xs (λ p h. f p (ground (arith, h))))

-- A call of the client.
pub data Event : Type 0 where
  opens : World → Bytes → Bytes → ℕ → Bytes → Event
  closes : Bytes → Event
  closes_all : Event

module _ (char_signed : Bool) (maps : HashMap Bytes GroupPids (group_key char_signed))
    (print_unsigned : ℕ → Bytes) where
  -- The manager, with the windows that reported so far and the signals that were sent.
  pub record Ledger : Type 0 where
    pub windows : GroupWindows char_signed maps
    pub reported : List ℤ
    pub signalled : List ℤ

  unfoldable pub after : Event → Ledger → Option Ledger
  after (opens w name ip port username) l = do
    c ← open_window char_signed maps print_unsigned w l.windows name ip port (some username)
    some (record {
      windows = c.windows;
      reported = l.reported ++ kill_pids (reporting w (spawned print_unsigned w ip port username));
      signalled = l.signalled ++ c.signals;
    })
  after (closes name) l = do
    c ← close char_signed maps l.windows name
    some (record l { windows = c.windows; signalled = l.signalled ++ c.signals })
  after closes_all l =
      let (signals, windows) = close_all char_signed maps l.windows in
      some (record l { windows = windows; signalled = l.signalled ++ signals })

  unfoldable pub after_all : List Event → Ledger → Option Ledger
  unfolding after
  after_all [] l = some l
  after_all (e ∷ es) l = do l' ← after e l; after_all es l'

  -- Every window that reported is signalled or still tracked.
  abbrev pub IsSettled : Ledger → Type 0
  IsSettled l =
      (p : ℤ)
      → occurs p l.reported ≡ true
      → (occurs p l.signalled ≡ true)
        ⊎ ((name : Bytes) × (occurs p (pids_of (held char_signed maps l.windows name)) ≡ true))

  -- A call that changes one name keeps the ledger settled, if what it signals, with what it leaves
  -- under the name, is what was there and what has reported.
  keeps :
      (l : Ledger) (g' : GroupWindows char_signed maps) (name : Bytes) (kept : Option GroupPids)
      (new signals : List ℤ)
      → Reads char_signed maps l.windows g' name kept
      → signals ++ pids_of kept ≡ pids_of (held char_signed maps l.windows name) ++ new
      → IsSettled l
      → IsSettled (record {
        windows = g';
        reported = l.reported ++ new;
        signalled = l.signalled ++ signals;
      })
  keeps l g' name kept new signals reads same v p r =
      let old = pids_of (held char_signed maps l.windows name) in
      let split : (occurs p signals || occurs p (pids_of kept)) ≡ (occurs p old || occurs p new) =
        sym (occurs-append p signals (pids_of kept))
        ∙ ap (occurs p) same
        ∙ occurs-append p old new in
      let sent = occurs-append p l.signalled signals in
      let came : (occurs p l.reported || occurs p new) ≡ true =
        sym (occurs-append p l.reported new) ∙ r in
      let here : held char_signed maps g' name ≡ kept =
        reads name ∙ rw ((equal_names_iff name name).1 refl) refl in
      elim (Bool-cases (occurs p (pids_of kept))) [
        | inl k ↦ inr (name, rw here k)
        | inr k ↦ elim (Bool-cases (occurs p l.reported)) [
          | inr o ↦ inl (ground (arith, split, sent, came, k, o))
          | inl o ↦ elim (v p o) [
            | inl s ↦ inl (ground (arith, sent, s))
            | inr (n, h) ↦ elim (Bool-cases (equal_names n name)) [
              | inl e ↦
                  let there : occurs p old ≡ true = rw (sym ((equal_names_iff n name).0 e)) h in
                  inl (ground (arith, split, sent, k, there))
              | inr e ↦ inr (n, rw (reads n, e) h)
            ]
          ]
        ]
      ]

  -- `KillPidsForEach` reaches the pair of every name.
  occurs-kill_each :
      (p : ℤ) (n : Bytes) (es : List (Bytes × GroupPids))
      → occurs p (pids_of (lookup (group_key char_signed) n es)) ≡ true
      → occurs p (kill_each char_signed maps es) ≡ true
  unfolding lookup kill_each
  occurs-kill_each p n [] h = h
  occurs-kill_each p n ((k, pids) ∷ es) h =
      let both = occurs-append p (kill_pids pids) (kill_each char_signed maps es) in
      elim (Bool-cases (equal_names n k)) [
        | inl e ↦ ground (arith, both, e, h)
        | inr e ↦ ground (arith, both, e, h, occurs-kill_each p n es)
      ]

  opens-IsSettled :
      (w : World) (name ip : Bytes) (port : ℕ) (username : Bytes) (l : Ledger)
      → IsSettled l
      → (l' : Ledger) × (after (opens w name ip port username) l ≡ some l') × IsSettled l'
  unfolding after
  opens-IsSettled w name ip port username l v =
      let o =
        open_window-Opened char_signed maps print_unsigned w l.windows name ip port username in
      let new = kill_pids (reporting w (spawned print_unsigned w ip port username)) in
      (
        record {
          windows = o.out.windows;
          reported = l.reported ++ new;
          signalled = l.signalled ++ o.out.signals;
        },
        rw (o.ends, ◌>>=◌) refl,
        keeps l o.out.windows name o.kept new o.out.signals o.reads o.settled v,
      )

  closes-IsSettled :
      (name : Bytes) (l : Ledger)
      → IsSettled l
      → (l' : Ledger) × (after (closes name) l ≡ some l') × IsSettled l'
  unfolding after
  closes-IsSettled name l v =
      let c = close-Closed char_signed maps l.windows.groups name in
      let same : c.out.signals ++ [] ≡ pids_of (held char_signed maps l.windows name) ++ [] =
        ap (λ s. s ++ []) c.signals in
      (
        record l { windows = c.out.windows; signalled = l.signalled ++ c.out.signals },
        rw (c.ends, ◌>>=◌) refl,
        λ p r.
            keeps l c.out.windows name none [] c.out.signals c.reads same v p
              (rw (append-nil l.reported) r),
      )

  held-kill_all :
      (p : ℤ) (groups : Option maps.Map) (n : Bytes)
      → let g : GroupWindows char_signed maps = record { groups = groups } in
        occurs p (pids_of (held char_signed maps g n)) ≡ true
        → occurs p (kill_all char_signed maps g) ≡ true
  unfolding kill_all
  held-kill_all p none n h = h
  held-kill_all p (some m) n h = occurs-kill_each p n (maps.entries m) h

  -- What GroupWindows_CloseAll leaves: every window that reported has been signalled.
  closes_all-signals :
      (l : Ledger)
      → IsSettled l
      → (l' : Ledger) × (after closes_all l ≡ some l')
        × ((p : ℤ) → occurs p l'.reported ≡ true → occurs p l'.signalled ≡ true)
  unfolding after close_all
  closes_all-signals l v = (
    record l {
      windows = record { groups = maps.create map_size };
      signalled = l.signalled ++ kill_all char_signed maps l.windows;
    },
    refl,
    λ p r.
        let sent = occurs-append p l.signalled (kill_all char_signed maps l.windows) in
        elim (v p r) [
          | inl s ↦ ground (arith, sent, s)
          | inr (n, h) ↦ ground (arith, sent, held-kill_all p l.windows.groups n h)
        ],
  )

  after-IsSettled :
      (e : Event) (l : Ledger) → IsSettled l → (l' : Ledger) × (after e l ≡ some l') × IsSettled l'
  after-IsSettled (opens w name ip port username) l v = opens-IsSettled w name ip port username l v
  after-IsSettled (closes name) l v = closes-IsSettled name l v
  after-IsSettled closes_all l v =
      let (l', run, done) = closes_all-signals l v in (l', run, λ p r. inl (done p r))

  run-signals :
      (es : List Event) (l : Ledger)
      → IsSettled l
      → (l' : Ledger) × (after_all (es ++ closes_all ∷ []) l ≡ some l')
        × ((p : ℤ) → occurs p l'.reported ≡ true → occurs p l'.signalled ≡ true)
  unfolding after_all
  run-signals [] l v =
      let (l', run, done) = closes_all-signals l v in (l', rw (run, ◌>>=◌) refl, done)
  run-signals (e ∷ es) l v =
      let (l₁, run, w) = after-IsSettled e l v in
      let (l', rest, done) = run-signals es l₁ w in (l', rw (run, ◌>>=◌) rest, done)

  -- From a state in which every window that reported is signalled or still tracked, a run of calls
  -- of GroupWindows_Open with a user name, GroupWindows_Close and GroupWindows_CloseAll, in any order
  -- and with any answers of the system, that ends with GroupWindows_CloseAll: it reads no missing
  -- pair, and every process that has reported has been sent a signal. Of two reports in one call
  -- with one role only the second counts, and a pid that is not positive counts as none.
  pub after_all-signals :
      (es : List Event) (l : Ledger)
      → IsSettled l
      → (l' : Ledger) × (after_all (es ++ closes_all ∷ []) l ≡ some l')
        × Each (λ p. occurs p l'.signalled ≡ true) l'.reported
  after_all-signals es l v =
      let (l', run, done) = run-signals es l v in
      (l', run, Each-occurs l'.signalled l'.reported done)
