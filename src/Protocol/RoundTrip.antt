-- ===== src/Protocol/RoundTrip.antt =====
-- `SerializeChatMessage` followed by `DeserializeChatMessage`, for both signs of `char`.
use c_chat_rooms_app.Base.{
  ℕ, ◌+◌, ◌/◌, ◌%◌, ◌^◌, ◌≤◌, ◌<◌, ◌≡◌, refl, Bool, true, some, ◌∷◌, ◌++◌, length, take, drop,
  Bytes, arith, take-take_append, length-append, length-take,
}
use c_chat_rooms_app.Protocol.{
  ChatMessage, wrote, serialize, deserialize, decode_fields, get_length, get_opcode, get_status,
  promote, validate, memcpy, chat_header_size, chat_max_value,
}
use c_chat_rooms_app.Protocol.Status
use c_chat_rooms_app.Protocol.Length.{get_length_lem, length_of}

-- A message that the program builds: opcode and status of 8 and 7 bits, at most 256 bytes.
pub record IsMessage (m : ChatMessage) : Type 0 where
  pub opcode : m.opcode < 256
  pub status : m.status < 128
  pub size : m.size ≤ chat_max_value
  pub array : length m.value ≡ chat_max_value

-- The bytes on the wire.
abbrev pub frame : ChatMessage → Bytes
frame m =
    (m.opcode % 2 ^ 8)
    ∷ (m.size % 2 ^ 8)
    ∷ (m.size / 2 ^ 8 % 2 ^ 8)
    ∷ (m.status % 2 ^ 8)
    ∷ take m.size m.value

-- The message that the receiver's `out` becomes: past the payload its array keeps its old bytes.
abbrev pub received : ChatMessage → ChatMessage → ChatMessage
received m out = record m { value = take m.size m.value ++ drop m.size out.value }

-- The low byte of the size does not look negative to the receiver.
abbrev pub Survives : Bool → ChatMessage → Type 0
Survives char_signed m = char_signed ≡ true → m.size % 2 ^ 8 < 128

pub serialize-frame :
    (m : ChatMessage) (buf_size : ℕ)
    → IsMessage m
    → chat_header_size + m.size ≤ buf_size
    → serialize m buf_size ≡ some (wrote (frame m))
unfolding serialize
serialize-frame m buf_size v h = ground arith

validate-ok :
    (n size : ℕ) → chat_header_size + size ≤ n → size ≤ chat_max_value → validate n size ≡ Status.ok
unfolding validate
validate-ok n size h k = ground arith

memcpy-frame :
    (target a rest : Bytes) (k : ℕ)
    → k ≤ length a
    → k ≤ length target
    → memcpy target (take k a ++ rest) k ≡ some (take k a ++ drop k target)
unfolding memcpy
memcpy-frame target a rest k h l =
    ground (arith, take-take_append k a rest, length-append (take k a) rest, length-take k a)

module _ (s : Bool) (m out : ChatMessage) (rest : Bytes) (n : ℕ) (v : IsMessage m)
    (array : length out.value ≡ chat_max_value) (fits : chat_header_size + m.size ≤ n) where
  size_bytes :
      get_length s (m.size % 2 ^ 8) (m.size / 2 ^ 8 % 2 ^ 8)
      ≡ length_of s (m.size % 2 ^ 8) (m.size / 2 ^ 8 % 2 ^ 8)
  size_bytes = get_length_lem s _ _ (omega arith) (omega arith)

  size-Survives : Survives s m → get_length s (m.size % 2 ^ 8) (m.size / 2 ^ 8 % 2 ^ 8) ≡ m.size
  size-Survives h = ground (arith, size_bytes, v.size)

  pub deserialize-frame :
      Survives s m → deserialize s (some (frame m ++ rest)) n out ≡ some (Status.ok, received m out)
  unfolding deserialize decode_fields get_opcode get_status promote
  deserialize-frame h =
      rw
        (
          size-Survives h,
          validate-ok n m.size fits v.size,
          memcpy-frame out.value m.value rest m.size (omega arith) (omega arith),
        )
        (ground (arith, v.status))

  -- A low byte that looks negative makes the size read as 0xff80 or more.
  pub deserialize-frame_negative :
      s ≡ true
      → 128 ≤ m.size % 2 ^ 8
      → deserialize s (some (frame m ++ rest)) n out ≡ some (Status.err_malformed, out)
  unfolding deserialize decode_fields validate
  deserialize-frame_negative e h = ground (arith, size_bytes)

-- A message of up to 256 bytes, serialized into a buffer that has room for it, fills it with the
-- header and the payload, and `DeserializeChatMessage` reads the opcode, the size, the status and
-- the payload back, whatever bytes follow the frame. Where `char` is signed this asks that the low
-- byte of the size be below 128.
pub deserialize-serialize :
    (s : Bool) (m out : ChatMessage) (rest : Bytes) (buf_size n : ℕ)
    → IsMessage m
    → length out.value ≡ chat_max_value
    → chat_header_size + m.size ≤ buf_size
    → chat_header_size + m.size ≤ n
    → Survives s m
    → (bytes : Bytes) × (serialize m buf_size ≡ some (wrote bytes))
      × (length bytes ≡ chat_header_size + m.size)
      × (deserialize s (some (bytes ++ rest)) n out ≡ some (Status.ok, received m out))
      × (take m.size (received m out).value ≡ take m.size m.value)
deserialize-serialize s m out rest buf_size n v array room fits h = (
  frame m,
  serialize-frame m buf_size v room,
  omega (arith, length-take m.size m.value, v.size, v.array),
  deserialize-frame s m out rest n v array fits h,
  take-take_append m.size m.value (drop m.size out.value) (omega (arith, v.size, v.array)),
)

-- Where `char` is signed, every message whose size has a low byte of 128 or more (128 to 255 bytes
-- of payload) is refused as malformed by `DeserializeChatMessage`, after `SerializeChatMessage`
-- has sent it.
pub deserialize-serialize_negative :
    (m out : ChatMessage) (rest : Bytes) (buf_size n : ℕ)
    → IsMessage m
    → length out.value ≡ chat_max_value
    → chat_header_size + m.size ≤ buf_size
    → chat_header_size + m.size ≤ n
    → 128 ≤ m.size % 2 ^ 8
    → (bytes : Bytes) × (serialize m buf_size ≡ some (wrote bytes))
      × (deserialize true (some (bytes ++ rest)) n out ≡ some (Status.err_malformed, out))
deserialize-serialize_negative m out rest buf_size n v array room fits h = (
  frame m,
  serialize-frame m buf_size v room,
  deserialize-frame_negative true m out rest n v array fits refl h,
)
