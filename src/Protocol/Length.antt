-- ===== src/Protocol/Length.antt =====
-- `Chat_GetLength`, by its value on every pair of bytes.
use c_chat_rooms_app.Base.{
  ℕ, ◌+◌, ◌*◌, ◌<◌, ◌≡◌, refl, Bool, true, false, ◌&&◌, leb, ◌==◌, if◌then◌else◌, every_below,
  every_below-true, ==_iff,
}
use c_chat_rooms_app.Protocol.{get_length}

-- A signed low byte from 128 up spreads its sign over the high byte.
abbrev pub length_of : Bool → ℕ → ℕ → ℕ
length_of char_signed b1 b2 = if char_signed && leb 128 b1 then 0xff00 + b1 else b2 * 256 + b1

abbrev agree : Bool → ℕ → ℕ → Bool
agree s b1 b2 = get_length s b1 b2 == length_of s b1 b2

get_length_table : (s : Bool) → every_below (λ b1. every_below (agree s b1) 256) 256 ≡ true
unfolding every_below get_length
get_length_table true = refl
get_length_table false = refl

pub get_length_lem :
    (s : Bool) (b1 b2 : ℕ) → b1 < 256 → b2 < 256 → get_length s b1 b2 ≡ length_of s b1 b2
get_length_lem s b1 b2 h1 h2 =
    let row = every_below-true (λ b. every_below (agree s b) 256) 256 b1 h1 (get_length_table s) in
    (==_iff _ _).0 (every_below-true (agree s b1) 256 b2 h2 row)
