-- ===== src/Client/Requests.antt =====
-- Client/ClientApp.c: the payloads of the requests that the client sends, and the reading of the
-- endpoint that it gets back.
pub mod Readable
pub mod Endpoint
use c_chat_rooms_app.Base.{
  ℕ, suc, ◌+◌, ◌-◌, ◌*◌, ◌%◌, ◌^◌, Bool, true, false, not, ◌||◌, Option, none, some, List, [], ◌∷◌,
  ◌++◌, ◌==◌, ltb, leb, if◌then◌else◌, ◌>>=◌, length, take, drop, replicate, Bytes, codes,
}
use c_chat_rooms_app.Protocol.{ChatMessage, chat_max_value, memcpy}
use c_chat_rooms_app.Protocol.Status
use c_chat_rooms_app.Client.Menu.{is_space, is_digit, skip_space}

-- `ChatMessage req = {0}` with an opcode and CHAT_OK.
abbrev pub empty_request : ℕ → ChatMessage
empty_request opcode = record {
  opcode = opcode;
  size = 0;
  status = Status.ok;
  value = replicate chat_max_value 0;
}

-- `memcpy(target + offset, source, n)`; `none` is a read or a write past an array.
unfoldable pub memcpy_at : Bytes → ℕ → Bytes → Option Bytes
memcpy_at target offset source =
    if leb (offset + length source) (length target)
    then some (take offset target ++ source ++ drop (offset + length source) target)
    else none

-- `PackCredentials`
unfoldable pub pack_credentials : ChatMessage → Bytes → Bytes → Option ChatMessage
unfolding memcpy_at
pack_credentials m name password = do
  value₁ ← memcpy_at m.value 0 (name ++ 0 ∷ [])
  value₂ ← memcpy_at value₁ (length name + 1) (password ++ 0 ∷ [])
  some (record m { value = value₂; size = (length name + length password + 2) % 2 ^ 16 })

-- The request of `HandleCredentialedAction`: `none` inside is a refusal, outside a fault.
unfoldable pub credentials_request : ℕ → Bytes → Bytes → Option (Option ChatMessage)
unfolding pack_credentials
credentials_request opcode name password =
    let pack = (do m ← pack_credentials (empty_request opcode) name password; some (some m)) in
    if ltb chat_max_value (length name + length password + 2) then some none else pack

-- The request of `HandleGroupAction`.
unfoldable pub group_request : ℕ → Bytes → Option (Option ChatMessage)
unfolding memcpy_at
group_request opcode name =
    let pack = (do
      value ← memcpy_at (empty_request opcode).value 0 (name ++ 0 ∷ [])
      some (
          some (record (empty_request opcode) {
            value = value;
            size = (length name + 1) % 2 ^ 16;
          }))) in
    if ltb chat_max_value (length name + 1) then some none else pack

-- `strchr`: what stands before the first byte that is `c`, and what follows it.
unfoldable pub split_at : ℕ → Bytes → Option (Bytes × Bytes)
split_at c [] = none
split_at c (x ∷ xs) =
    let rest = split_at c xs in
    if x == c then some ([], xs) else (do (before, after) ← rest; some (x ∷ before, after))

-- The digits at the front, as `atoi` reads them; above 2^31 - 1 its behaviour is undefined.
unfoldable pub read_digits : ℕ → Bytes → ℕ
read_digits n [] = n
read_digits n (c ∷ cs) =
    let rest = read_digits (n * 10 + (c - 48)) cs in if is_digit c then rest else n

-- `atoi`, when the number is not negative; `none` is a negative number.
unfoldable pub atoi : Bytes → Option ℕ
unfolding skip_space read_digits
atoi text = elim (skip_space text) [
  | [] ↦ some 0
  | c ∷ cs ↦
      if c == 45
      then (if leb (read_digits 0 cs) 0 then some 0 else none)
      else if c == 43
      then some (read_digits 0 cs)
      else some (read_digits 0 (c ∷ cs))
]

-- `ParseEndpoint` into an array of `size` bytes: the text of the address and the port.
unfoldable pub parse_endpoint : ℕ → Bytes → Option (Bytes × ℕ)
unfolding split_at atoi
parse_endpoint size endpoint = do
  (ip, after) ← split_at 58 endpoint
  port ← atoi after
  let bad_ip = length ip == 0 || leb size (length ip)
  let bad_port = leb port 0 || ltb 65535 port
  if bad_ip || bad_port then none else some (ip, port)
