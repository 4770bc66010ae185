-- ===== src/Client/Menu/Choosing.antt =====
-- What `Menu_Parse` makes of a line.
use c_chat_rooms_app.Base.{
  ℕ, zero, suc, ◌+◌, ◌-◌, ◌*◌, ◌%◌, ◌^◌, ◌≤◌, ◌<◌, ◌≡◌, refl, ap, sym, ◌∙◌, ◌⊎◌, inl, inr, true,
  false, some, List, [], ◌∷◌, ◌++◌, ltb, ◌==◌, Bool-cases, Option-cases, List-cases, arith, Bytes,
  length, get_elem?, Each, codes, append_assoc,
}
use mathlib.Core.Path.{subst}
use mathlib.Core.Option.{some-injective}
use c_chat_rooms_app.Client.Menu.{
  SessionState, MenuChoice, menu_none, get_options, is_space, is_digit, skip_space, read_selection,
  option_at, select, parse_selection, parse, menu_logout, render, render_option, render_options,
  choice_label, state_label,
}

-- A line of white space.
abbrev pub IsSpace : Bytes → Type 0
IsSpace cs = Each (λ c. is_space c ≡ true) cs

skip_space-append : (before cs : Bytes) → IsSpace before → skip_space (before ++ cs) ≡ skip_space cs
unfolding skip_space
skip_space-append [] cs h = refl
skip_space-append (b ∷ before) cs (h, rest) = rw h (skip_space-append before cs rest)

skip_space-all : (cs : Bytes) → IsSpace cs → skip_space cs ≡ []
unfolding skip_space
skip_space-all [] h = refl
skip_space-all (c ∷ cs) (h, rest) = rw h (skip_space-all cs rest)

read_selection-space : (n : ℕ) (cs : Bytes) → IsSpace cs → read_selection n cs ≡ (n, cs)
unfolding read_selection
read_selection-space n [] h = refl
read_selection-space n (c ∷ cs) (h, rest) =
    let other : is_digit c ≡ false = ground (arith, h) in rw other refl

get_elem?-length :
    {A : Type 0} (xs : List A) (i : ℕ) (x : A) → get_elem? xs i ≡ some x → i < length xs
get_elem?-length [] i x e = cc
get_elem?-length (y ∷ ys) zero x e = omega arith
get_elem?-length (y ∷ ys) (suc i) x e = omega (arith, get_elem?-length ys i x e)

option_at-hit :
    (opts : List MenuChoice) (i : ℕ) (choice : MenuChoice)
    → get_elem? opts i ≡ some choice
    → option_at opts (i + 1) ≡ choice
unfolding option_at
option_at-hit opts i choice e =
    let within = get_elem?-length opts i choice e in
    let not_zero : ((i + 1) == 0) ≡ false = ground arith in
    let not_above : ltb (length opts) (i + 1) ≡ false = ground (arith, within) in
    let back : i + 1 - 1 ≡ i = omega arith in rw (not_zero, not_above, back, e) refl

few_options : (state : SessionState) → length (get_options state) ≤ 7
unfolding get_options
few_options SessionState.disconnected = omega arith
few_options SessionState.connected = omega arith
few_options SessionState.logged_in = omega arith

read_selection-digit :
    (i : ℕ) (after : Bytes)
    → i < 7
    → IsSpace after
    → read_selection 0 ((48 + i + 1) ∷ after) ≡ (i + 1, after)
unfolding read_selection
read_selection-digit i after small sa =
    let digit : is_digit (48 + i + 1) ≡ true = ground (arith, small) in
    let value : (0 * 10 + (48 + i + 1 - 48)) % 2 ^ 64 ≡ i + 1 = omega (arith, small) in
    rw (digit, value) (read_selection-space (i + 1) after sa)

skip_space-digit :
    (before after : Bytes) (d : ℕ)
    → IsSpace before
    → is_space d ≡ false
    → skip_space (before ++ d ∷ after) ≡ d ∷ after
unfolding skip_space
skip_space-digit before after d sb h = skip_space-append before (d ∷ after) sb ∙ rw h refl

select-option :
    (state : SessionState) (i : ℕ) (after : Bytes) (choice : MenuChoice)
    → IsSpace after
    → get_elem? (get_options state) i ≡ some choice
    → select (i + 1, after) (get_options state) ≡ choice
unfolding select
select-option state i after choice sa e =
    rw (select, skip_space-all after sa) (option_at-hit (get_options state) i choice e)

-- A line of the options, with what `Menu_Render` prints before and after it.
render_options-line :
    (k i : ℕ) (opts : List MenuChoice) (choice : MenuChoice)
    → get_elem? opts i ≡ some choice
    → (front back : Bytes) × (render_options k opts
        ≡ front ++ (render_option (k + i) choice ++ back))
unfolding render_options
render_options-line k i [] choice e = cc
render_options-line k zero (c ∷ opts) choice e =
    let same : k + 0 ≡ k = omega arith in
    ([], render_options (suc k) opts, rw (some-injective _ _ e, same) refl)
render_options-line k (suc i) (c ∷ opts) choice e =
    let (front, back, split) = render_options-line (suc k) i opts choice e in
    let same : suc k + i ≡ k + suc i = omega arith in
    let line = render_option (k + suc i) choice in
    (
      render_option k c ++ front,
      back,
      ap (λ t. render_option k c ++ t) (rw same at split)
          ∙ sym (append_assoc (render_option k c) front (line ++ back)),
    )

parse-digit :
    (state : SessionState) (before after : Bytes) (i : ℕ) (choice : MenuChoice)
    → IsSpace before
    → IsSpace after
    → get_elem? (get_options state) i ≡ some choice
    → parse (before ++ (48 + i + 1) ∷ after) state ≡ choice
unfolding parse parse_selection
parse-digit state before after i choice sb sa e =
    let opts = get_options state in
    let small : i < 7 = omega (arith, few_options state, get_elem?-length opts i choice e) in
    let digit : is_digit (48 + i + 1) ≡ true = ground (arith, small) in
    let skipped = skip_space-digit before after (48 + i + 1) sb (ground (arith, small)) in
    let run : parse (before ++ (48 + i + 1) ∷ after) state
        ≡ select (read_selection 0 ((48 + i + 1) ∷ after)) opts =
      rw (skipped, parse_selection, digit) refl in
    run
    ∙ ap (λ t. select t opts) (read_selection-digit i after small sa)
    ∙ select-option state i after choice sa e

-- `Menu_Render` prints, for each option of the state, a number and the label of the option in a line
-- of its own; and that number, with any white space around it, is read back by `Menu_Parse` as that
-- option.
pub parse-option :
    (state : SessionState) (before after : Bytes) (i : ℕ) (choice : MenuChoice)
    → IsSpace before
    → IsSpace after
    → get_elem? (get_options state) i ≡ some choice
    → (front number back : Bytes) × (render state
        ≡ front
          ++ ((codes "  " ++ number ++ codes ". " ++ choice_label choice ++ codes "\n") ++ back))
      × (parse (before ++ (number ++ after)) state ≡ choice)
unfolding render render_option
parse-option state before after i choice sb sa e =
    let head = codes "\n=== Chat client [" ++ state_label state ++ codes "] ===\n" in
    let (front, back, split) = render_options-line 0 i (get_options state) choice e in
    let start : 0 + i ≡ i = omega arith in
    (
      head ++ front,
      (48 + i + 1) ∷ [],
      back,
      ap (λ t. head ++ t) (rw start at split)
          ∙ sym (append_assoc head front (render_option i choice ++ back)),
      parse-digit state before after i choice sb sa e,
    )

-- What is chosen is offered.
option_at-offered :
    (opts : List MenuChoice) (selection : ℕ)
    → (option_at opts selection ≡ menu_none)
      ⊎ ((i : ℕ) × (get_elem? opts i ≡ some (option_at opts selection)))
unfolding option_at
option_at-offered opts selection = elim (Bool-cases (selection == 0)) [
  | inl zeroth ↦ inl (rw zeroth refl)
  | inr other ↦ elim (Bool-cases (ltb (length opts) selection)) [
    | inl above ↦ inl (rw (other, above) refl)
    | inr within ↦ elim (Option-cases (get_elem? opts (selection - 1))) [
      | inl gone ↦ inl (rw (other, within, gone) refl)
      | inr (choice, there) ↦ inr (selection - 1, rw (other, within, there) refl)
    ]
  ]
]

select-offered :
    (selection : ℕ) (rest : Bytes) (opts : List MenuChoice)
    → (select (selection, rest) opts ≡ menu_none)
      ⊎ ((i : ℕ) × (get_elem? opts i ≡ some (select (selection, rest) opts)))
unfolding select
select-offered selection rest opts = elim (List-cases (skip_space rest)) [
  | inl end ↦ rw (select, end) (option_at-offered opts selection)
  | inr (c, cs, more) ↦ inl (rw (select, more) refl)
]

parse_selection-offered :
    (cs : Bytes) (opts : List MenuChoice)
    → (parse_selection cs opts ≡ menu_none)
      ⊎ ((i : ℕ) × (get_elem? opts i ≡ some (parse_selection cs opts)))
unfolding parse_selection
parse_selection-offered [] opts = inl refl
parse_selection-offered (c ∷ cs) opts = elim (Bool-cases (is_digit c)) [
  | inr other ↦ inl (rw (parse_selection, other) refl)
  | inl digit ↦
      let run : parse_selection (c ∷ cs) opts ≡ select (read_selection 0 (c ∷ cs)) opts =
        rw (parse_selection, digit) refl in
      subst (λ o. (o ≡ menu_none) ⊎ ((i : ℕ) × (get_elem? opts i ≡ some o))) (sym run)
        (select-offered (read_selection 0 (c ∷ cs)).0 (read_selection 0 (c ∷ cs)).1 opts)
]

parse-offered :
    (line : Bytes) (state : SessionState)
    → (parse line state ≡ menu_none)
      ⊎ ((i : ℕ) × (get_elem? (get_options state) i ≡ some (parse line state)))
unfolding parse
parse-offered line state = parse_selection-offered (skip_space line) (get_options state)

logout_at :
    (state : SessionState) (i : ℕ)
    → get_elem? (get_options state) i ≡ some menu_logout
    → state ≡ SessionState.logged_in
unfolding get_options
logout_at SessionState.logged_in i h = refl
logout_at SessionState.disconnected zero h = cc
logout_at SessionState.disconnected (suc zero) h = cc
logout_at SessionState.disconnected (suc (suc i)) h = cc
logout_at SessionState.connected zero h = cc
logout_at SessionState.connected (suc zero) h = cc
logout_at SessionState.connected (suc (suc zero)) h = cc
logout_at SessionState.connected (suc (suc (suc i))) h = cc

-- The only state in which a logout can be chosen.
pub parse-logout :
    (line : Bytes) (state : SessionState)
    → parse line state ≡ menu_logout
    → state ≡ SessionState.logged_in
parse-logout line state e = elim (parse-offered line state) [
  | inl nothing ↦ cc (e, nothing)
  | inr (i, there) ↦ logout_at state i (there ∙ ap some e)
]
