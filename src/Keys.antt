-- ===== src/Keys.antt =====
-- The hash and equality functions that the managers pass to `HashMap_Create`, and the containers
-- that the server is built over.
use c_chat_rooms_app.Base.{
  ℕ, ◌+◌, ◌-◌, ◌*◌, ◌%◌, ◌^◌, Bool, true, ◌≡◌, ◌↔◌, ◌&&◌, [], ◌∷◌, leb, if◌then◌else◌, Bytes,
  str_eq, str_eq_iff, Option, ℤ, pos, negsuc, int_eq, int_eq_iff,
}
use c_chat_rooms_app.DList.{DList}
use c_chat_rooms_app.HashMap.{Key, HashMap}

-- A `char` promoted to `int` and converted to `unsigned long`.
unfoldable pub char_to_ulong : Bool → ℕ → ℕ
char_to_ulong char_signed b = if char_signed && leb 128 b then 2 ^ 64 - 256 + b else b

-- The loop of `ServerManagerHashFunctionDJB2`, over the bytes before the NUL.
unfoldable pub djb2_loop : Bool → ℕ → Bytes → ℕ
unfolding char_to_ulong
djb2_loop s hash [] = hash
djb2_loop s hash (c ∷ cs) =
    djb2_loop s (((hash * 2 ^ 5 % 2 ^ 64 + hash) % 2 ^ 64 + char_to_ulong s c) % 2 ^ 64) cs

unfoldable pub djb2 : Bool → Bytes → ℕ
unfolding djb2_loop
djb2 s str = djb2_loop s 5381 str

-- `ServerManagerEqualFunction`
unfoldable pub equal_names : Bytes → Bytes → Bool
equal_names a b = str_eq a b

-- `UserManagerHashFunctionFd`: an `int` converted to `size_t`.
unfoldable pub hash_fd : ℤ → ℕ
hash_fd (pos n) = n
hash_fd (negsuc n) = 2 ^ 64 - 1 - n

-- `UserManagerEqualFunctionFd`
unfoldable pub equal_fds : ℤ → ℤ → Bool
equal_fds a b = int_eq a b

pub equal_names_iff : (a b : Bytes) → (equal_names a b ≡ true) ↔ (a ≡ b)
unfolding equal_names
equal_names_iff = str_eq_iff

pub equal_fds_iff : (a b : ℤ) → (equal_fds a b ≡ true) ↔ (a ≡ b)
unfolding equal_fds
equal_fds_iff = int_eq_iff

abbrev pub name_key : Bool → Key Bytes
name_key char_signed = record {
  hash = djb2 char_signed;
  equal = equal_names;
  equal_iff = equal_names_iff;
}

abbrev pub fd_key : Key ℤ
fd_key = record { hash = hash_fd; equal = equal_fds; equal_iff = equal_fds_iff }

-- What the server takes from db/ and from the compiler. A pointer is an address of the model's heap.
pub record Library : Type 1 where
  pub char_signed : Bool
  pub lists : DList Bytes
  pub names : HashMap Bytes ℕ (name_key char_signed)
  pub fds : HashMap ℤ ℕ fd_key
  -- inet_pton(AF_INET): the address of a text, or `none` when it is not one.
  pub inet_pton : Bytes → Option ℕ
  -- inet_ntop(AF_INET): the text of an address.
  pub inet_ntop : ℕ → Bytes
  -- What `%u` prints.
  pub print_unsigned : ℕ → Bytes
