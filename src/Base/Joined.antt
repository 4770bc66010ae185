-- ===== src/Base/Joined.antt =====
-- Printing a list into a buffer by `snprintf`, one piece after the other, with a separator.
use Prim.Native.Nat.{ℕ, ◌-◌, ◌<◌}
use mathlib.Core.Path.{◌≡◌, sym, ap, ◌∙◌}
use mathlib.Core.Logic.{inl, inr}
use mathlib.Core.Bool.{Bool, false}
use mathlib.Core.List.{List, [], ◌∷◌, ◌++◌}
use native.Mathlib.Omega.{arith}
use c_chat_rooms_app.Base.Tests.{leb, if◌then◌else◌, Bool-cases}
use c_chat_rooms_app.Base.Lists.{
  length, take, length-append, take-append_le, take-all, append_assoc, append-nil, take-append_ge,
}
use c_chat_rooms_app.Base.Text.{Bytes}

-- What one call prints: the text, after the separator unless it is the first.
unfoldable pub piece : Bytes → Bool → Bytes → Bytes
piece sep first name = if first then name else sep ++ name

-- The pieces one after the other.
unfoldable pub joined : Bytes → Bool → List Bytes → Bytes
joined sep first [] = []
joined sep first (name ∷ names) = piece sep first name ++ joined sep false names

-- The string in a buffer of `size` bytes that holds `text`, after each piece in turn until one does
-- not fit: `snprintf` has then written as much of it as leaves room for the NUL.
unfoldable pub append_pieces : Bytes → ℕ → Bool → Bytes → List Bytes → Bytes
append_pieces sep size first text [] = text
append_pieces sep size first text (name ∷ names) =
    let added = piece sep first name in
    let room = size - length text in
    let rest = append_pieces sep size false (text ++ added) names in
    if leb room (length added) then text ++ take (room - 1) added else rest

pub append_pieces-joined :
    (sep : Bytes) (size : ℕ) (first : Bool) (text : Bytes) (names : List Bytes)
    → length text < size
    → append_pieces sep size first text names ≡ take (size - 1) (text ++ joined sep first names)
unfolding append_pieces joined
append_pieces-joined sep size first text [] h =
    sym (ap (take (size - 1)) (append-nil text) ∙ take-all (size - 1) text (omega (arith, h)))
append_pieces-joined sep size first text (name ∷ names) h =
    elim (Bool-cases (leb (size - length text) (length (piece sep first name)))) [
      | inl full ↦
          let k = size - length text - 1 in
          let whole =
            take-append_ge (size - 1) k text (piece sep first name ++ joined sep false names)
              (omega (arith, h)) in
          let cut =
            take-append_le k (piece sep first name) (joined sep false names)
              (ground (arith, full)) in
          rw full (sym (whole ∙ ap (λ t. text ++ t) cut))
      | inr fits ↦ rw fits (
          append_pieces-joined sep size false (text ++ piece sep first name) names
            (ground (arith, fits, length-append text (piece sep first name)))
          ∙ ap (take (size - 1))
              (append_assoc text (piece sep first name) (joined sep false names)))
    ]
