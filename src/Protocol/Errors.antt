-- ===== src/Protocol/Errors.antt =====
-- What the encoder and the decoder do with every input, the malformed ones included.
use c_chat_rooms_app.Base.{
  ℕ, ◌+◌, ◌/◌, ◌%◌, ◌^◌, ◌≤◌, ◌<◌, ◌≡◌, ◌⊎◌, inl, inr, Bool, some, none, [], ◌∷◌, ◌++◌, length,
  take, drop, Bytes, ◌∙◌, arith, length-append, length-take, length-drop, Bool-cases, ltb,
}
use c_chat_rooms_app.Protocol.{
  ChatMessage, wrote, failed, serialize, deserialize, decode_fields, get_length, get_opcode,
  get_status, validate, memcpy, chat_header_size, chat_max_value,
}
use c_chat_rooms_app.Protocol.Status

-- What a decoder that read `n` bytes may return for the caller's message `out`.
pub data Outcome (n : ℕ) (out : ChatMessage) : ℕ → ChatMessage → Type 0 where
  accepted :
      {m : ChatMessage}
      → m.size ≤ chat_max_value
      → chat_header_size + m.size ≤ n
      → length m.value ≡ chat_max_value
      → Outcome n out Status.ok m
  refused : Outcome n out Status.err_malformed out

memcpy-total :
    (target source : Bytes) (k : ℕ)
    → k ≤ length source
    → k ≤ length target
    → (t : Bytes) × (memcpy target source k ≡ some t) × (length t ≡ length target)
unfolding memcpy
memcpy-total target source k h l = (
  take k source ++ drop k target,
  ground arith,
  omega (
    arith,
    length-append (take k source) (drop k target),
    length-take k source,
    length-drop k target,
  ),
)

validate_cases :
    (n size : ℕ)
    → (validate n size ≡ Status.err_malformed)
      ⊎ (validate n size ≡ Status.ok) × (size ≤ chat_max_value) × (chat_header_size + size ≤ n)
unfolding validate
validate_cases n size = ground arith

decode_fields-Outcome :
    (s : Bool) (b0 b1 b2 b3 : ℕ) (body : Bytes) (n : ℕ) (out : ChatMessage)
    → n ≤ 4 + length body
    → length out.value ≡ chat_max_value
    → (code : ℕ) × (m : ChatMessage) × (decode_fields s (b0 ∷ b1 ∷ b2 ∷ b3 ∷ body) n out
        ≡ some (code, m))
      × Outcome n out code m
unfolding decode_fields
decode_fields-Outcome s b0 b1 b2 b3 body n out h a =
    let size = get_length s b1 b2 in
    elim (validate_cases n size) [
      | inl e ↦ (Status.err_malformed, out, rw e, refused)
      | inr (e, small, fits) ↦
          let (value, copied, whole) =
            memcpy-total out.value body size (omega arith) (omega arith) in
          (
            Status.ok,
            record { opcode = get_opcode b0; size = size; status = get_status s b3; value = value },
            rw (e, copied),
            accepted small fits (whole ∙ a),
          )
    ]

-- `DeserializeChatMessage`, given at least the `n` bytes that it is told of and an array of 256
-- bytes to fill, reads and writes inside both arrays. It accepts with a size of at most 256 that
-- the `n` bytes hold, or reports a malformed message and leaves the caller's message as it was.
pub deserialize-Outcome :
    (s : Bool) (buf : Bytes) (n : ℕ) (out : ChatMessage)
    → n ≤ length buf
    → length out.value ≡ chat_max_value
    → (code : ℕ) × (m : ChatMessage) × (deserialize s (some buf) n out ≡ some (code, m))
      × Outcome n out code m
unfolding deserialize
deserialize-Outcome s [] n out h a = (Status.err_malformed, out, ground arith, refused)
deserialize-Outcome s (b0 ∷ []) n out h a = (Status.err_malformed, out, ground arith, refused)
deserialize-Outcome s (b0 ∷ b1 ∷ []) n out h a = (Status.err_malformed, out, ground arith, refused)
deserialize-Outcome s (b0 ∷ b1 ∷ b2 ∷ []) n out h a =
    (Status.err_malformed, out, ground arith, refused)
deserialize-Outcome s (b0 ∷ b1 ∷ b2 ∷ b3 ∷ body) n out h a =
    elim (Bool-cases (ltb n chat_header_size)) [
      | inl e ↦ (Status.err_malformed, out, rw e, refused)
      | inr e ↦ rw e (decode_fields-Outcome s b0 b1 b2 b3 body n out (omega arith) a)
    ]

-- `SerializeChatMessage` of a message whose array has 256 bytes: it returns -1 if the buffer is too
-- small; otherwise it writes the opcode, the low and the high byte of the size, the status and the
-- payload, unless the size is above 256, where it reads past the message's array.
pub serialize_cases :
    (m : ChatMessage) (buf_size : ℕ)
    → length m.value ≡ chat_max_value
    → ((buf_size < chat_header_size + m.size) × (serialize m buf_size ≡ some failed))
      ⊎ (chat_max_value < m.size) × (serialize m buf_size ≡ none)
      ⊎ (serialize m buf_size
          ≡ some (
              wrote (
                (m.opcode % 2 ^ 8)
                ∷ (m.size % 2 ^ 8)
                ∷ (m.size / 2 ^ 8 % 2 ^ 8)
                ∷ (m.status % 2 ^ 8)
                ∷ take m.size m.value)))
        × (length (take m.size m.value) ≡ m.size)
        × (chat_header_size + m.size ≤ buf_size)
unfolding serialize
serialize_cases m buf_size a = elim (Bool-cases (ltb buf_size (chat_header_size + m.size))) [
  | inl e ↦ inl (ground arith, rw e)
  | inr e ↦ elim (Bool-cases (ltb (length m.value) m.size)) [
    | inl over ↦ inr (inl (ground arith, rw (e, over)))
    | inr within ↦
        inr (inr (rw (e, within), ground (arith, length-take m.size m.value), ground arith))
  ]
]
