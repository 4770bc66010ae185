-- ===== src/Protocol.antt =====
-- NetworkProtocol.h: the frame format, its encoder and its decoder.
-- A byte is a number below 256. The enums of C hold any number that a cast puts there, so opcodes
-- and statuses are numbers. An `int` is its 32-bit pattern. Whether plain `char` is signed is the
-- compiler's choice (it is for gcc on x86) and an argument of the decoder.
pub mod Opcode
pub mod Status
pub mod Length
pub mod RoundTrip
pub mod Errors
mod Tests
use Prim.Native.Nat.{bit_or}
use c_chat_rooms_app.Base.{
  ℕ, ◌+◌, ◌-◌, ◌*◌, ◌/◌, ◌%◌, ◌^◌, ◌≤◌, Bool, true, false, ◌&&◌, Option, none, some, List, [], ◌∷◌,
  ◌++◌, ltb, leb, if◌then◌else◌, ◌>>=◌, length, take, drop, get_elem?, Bytes,
}

abbrev pub chat_header_size : ℕ
chat_header_size = 4

abbrev pub chat_max_value : ℕ
chat_max_value = 256

abbrev pub chat_max_total : ℕ
chat_max_total = chat_header_size + chat_max_value

-- `value` is the array of 256 bytes, of which the first `length` are the payload.
pub record ChatMessage : Type 0 where
  pub opcode : ℕ
  pub size : ℕ
  pub status : ℕ
  pub value : Bytes

-- A `char` promoted to `int`, as a 32-bit pattern.
unfoldable pub promote : Bool → ℕ → ℕ
promote char_signed b = if char_signed && leb 128 b then 2 ^ 32 - 256 + b else b

-- `(MessageOpcode)(uint8_t)buf[0]`
unfoldable pub get_opcode : ℕ → ℕ
get_opcode b0 = b0 % 2 ^ 8

-- `(uint16_t)(buf[1] | (buf[2] << 8))`
unfoldable pub get_length : Bool → ℕ → ℕ → ℕ
unfolding promote
get_length char_signed b1 b2 =
    bit_or (promote char_signed b1) (promote char_signed b2 * 2 ^ 8 % 2 ^ 32) % 2 ^ 16

-- `(ChatStatus)buf[3]`
unfoldable pub get_status : Bool → ℕ → ℕ
unfolding promote
get_status char_signed b3 = promote char_signed b3

unfoldable pub validate : ℕ → ℕ → ℕ
validate buf_size value_len =
    if ltb chat_max_value value_len
    then Status.err_malformed
    else if ltb buf_size (chat_header_size + value_len)
    then Status.err_malformed
    else Status.ok

-- What `DeserializeChatMessage` returns, with the caller's message as it leaves it.
-- `none` is a read past the end of the array that the caller passed.
abbrev pub Decoded : Type 0
Decoded = Option (ℕ × ChatMessage)

-- `memcpy(target, source, n)`: the new target; `none` if the source or the target is too short.
unfoldable pub memcpy : Bytes → Bytes → ℕ → Option Bytes
memcpy target source n =
    if leb n (length source) && leb n (length target)
    then some (take n source ++ drop n target)
    else none

-- The part of `DeserializeChatMessage` after the test of the buffer's size.
unfoldable pub decode_fields : Bool → Bytes → ℕ → ChatMessage → Decoded
unfolding get_opcode get_length get_status validate memcpy
decode_fields char_signed buf buf_size out = do
  b0 ← get_elem? buf 0
  b1 ← get_elem? buf 1
  b2 ← get_elem? buf 2
  b3 ← get_elem? buf 3
  let value_len = get_length char_signed b1 b2
  let code = validate buf_size value_len
  let accepted = do
    value ← memcpy out.value (drop chat_header_size buf) value_len
    some (
      Status.ok,
      record {
        opcode = get_opcode b0;
        size = value_len;
        status = get_status char_signed b3;
        value = value;
      },
    )
  if ltb 0 code then some (code, out) else accepted

-- `DeserializeChatMessage`; an argument `none` is a null pointer.
unfoldable pub deserialize : Bool → Option Bytes → ℕ → ChatMessage → Decoded
unfolding decode_fields
deserialize char_signed none buf_size out = some (Status.err_null_ptr, out)
deserialize char_signed (some buf) buf_size out =
    if ltb buf_size chat_header_size
    then some (Status.err_malformed, out)
    else decode_fields char_signed buf buf_size out

-- What `SerializeChatMessage` leaves: -1, or the bytes that it wrote at the buffer's start, whose
-- number it returns.
pub data Encoded : Type 0 where
  failed : Encoded
  wrote : Bytes → Encoded

-- `SerializeChatMessage` into a buffer of `buf_size` bytes; `none` is a read past `m_value`.
unfoldable pub serialize : ChatMessage → ℕ → Option Encoded
serialize m buf_size =
    if ltb buf_size (chat_header_size + m.size)
    then some failed
    else if ltb (length m.value) m.size
    then none
    else some (
        wrote (
          (m.opcode % 2 ^ 8)
          ∷ (m.size % 2 ^ 8)
          ∷ (m.size / 2 ^ 8 % 2 ^ 8)
          ∷ (m.status % 2 ^ 8)
          ∷ take m.size m.value))
