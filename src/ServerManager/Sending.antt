-- ===== src/ServerManager/Sending.antt =====
-- `ServerManager_SendMessage`: the frame of a reply, up to the call of `send`.
use c_chat_rooms_app.Base.{
  ℕ, ◌+◌, ◌/◌, ◌%◌, ◌^◌, ◌≤◌, ◌<◌, ◌≡◌, refl, inl, inr, Bool, true, false, Option, none, some, [],
  ◌∷◌, ◌++◌, if◌then◌else◌, ◌>>=◌, Bool-cases, Option-cases, arith, Bytes, length, length-append,
  take, ltb,
}
use c_chat_rooms_app.Protocol.{Encoded, wrote, serialize, chat_max_value, chat_header_size}
use c_chat_rooms_app.Protocol.Opcode
use c_chat_rooms_app.ServerManager.{Reply}

-- The response that carries the first `size` bytes of an array, given whether `malloc` finds memory
-- for the frame. The text is copied first: a read past its end is a fault in both cases.
unfoldable pub response_frame : Bool → ℕ → ℕ → Bytes → Option (Option Encoded)
response_frame memory status size text = do
  e ←
      serialize
        (record { opcode = Opcode.response; size = size % 2 ^ 16; status = status; value = text })
        (chat_header_size + size)
  if memory then some (some e) else some none

-- `ServerManager_SendMessage`, before `send`: the frame of a reply. The outer `none` is a read past
-- the end of the message's text, the inner one a message that is refused
-- or not sent for want of memory.
unfoldable pub send_message : Bool → Reply → Option (Option Encoded)
unfolding response_frame
send_message memory reply = if ltb chat_max_value reply.size then some none else elim reply.text [
  | none ↦ if ltb 0 reply.size then some none else response_frame memory reply.status 0 []
  | some s ↦ response_frame memory reply.status reply.size (s ++ 0 ∷ [])
]

-- The frame of a status and of the first `size` bytes of an array.
abbrev pub frame_of : ℕ → ℕ → Bytes → Bytes
frame_of status size text =
    Opcode.response ∷ (size % 2 ^ 8) ∷ (size / 2 ^ 8) ∷ (status % 2 ^ 8) ∷ take size text

response_frame-wrote :
    (status size : ℕ) (text : Bytes)
    → size ≤ 256
    → size ≤ length text
    → response_frame true status size text ≡ some (some (wrote (frame_of status size text)))
unfolding response_frame serialize
response_frame-wrote status size text small fits =
    let same : size % 2 ^ 16 ≡ size = omega arith in
    let high : size / 2 ^ 8 % 2 ^ 8 ≡ size / 2 ^ 8 = omega arith in rw same (ground (arith, high))

response_frame-no_memory :
    (status size : ℕ) (text : Bytes)
    → size ≤ 256
    → size ≤ length text
    → response_frame false status size text ≡ some none
unfolding response_frame serialize
response_frame-no_memory status size text small fits =
    let same : size % 2 ^ 16 ≡ size = omega arith in rw same (ground arith)

response_frame-none :
    (memory : Bool) (status size : ℕ) (text : Bytes)
    → size ≤ 256
    → length text < size
    → response_frame memory status size text ≡ none
unfolding response_frame serialize
response_frame-none memory status size text small over =
    let same : size % 2 ^ 16 ≡ size = omega arith in rw same (ground arith)

-- What a reply becomes.
pub data Sent (memory : Bool) (reply : Reply) : Option (Option Encoded) → Type 0 where
  too_long : chat_max_value < reply.size → Sent memory reply (some none)
  no_text : reply.text ≡ none → 0 < reply.size → Sent memory reply (some none)
  over_read : (s : Bytes) → reply.text ≡ some s → length s + 1 < reply.size → Sent memory reply none
  no_memory_bare :
      memory ≡ false → reply.text ≡ none → reply.size ≡ 0 → Sent memory reply (some none)
  no_memory :
      (s : Bytes)
      → memory ≡ false
      → reply.text ≡ some s
      → reply.size ≤ length s + 1
      → reply.size ≤ chat_max_value
      → Sent memory reply (some none)
  status_only :
      memory ≡ true
      → reply.text ≡ none
      → reply.size ≡ 0
      → Sent memory reply (some (some (wrote (frame_of reply.status 0 []))))
  whole :
      (s : Bytes)
      → memory ≡ true
      → reply.text ≡ some s
      → reply.size ≤ length s + 1
      → reply.size ≤ chat_max_value
      → Sent memory reply (some (some (wrote (frame_of reply.status reply.size (s ++ 0 ∷ [])))))

send_message-bare :
    (memory : Bool) (reply : Reply)
    → ltb chat_max_value reply.size ≡ false
    → reply.text ≡ none
    → Sent memory reply (send_message memory reply)
unfolding send_message
send_message-bare memory reply fits bare = elim (Bool-cases (ltb 0 reply.size)) [
  | inl some_size ↦
      let run : send_message memory reply ≡ some none = ground (arith, fits, bare, some_size) in
      rw run (no_text bare (ground (arith, some_size)))
  | inr no_size ↦
      let run : send_message memory reply ≡ response_frame memory reply.status 0 [] =
        ground (arith, fits, bare, no_size) in
      elim (Bool-cases memory) [
        | inl found ↦
            rw (run, found, response_frame-wrote reply.status 0 [] (omega arith) (omega arith))
              (status_only refl bare (ground (arith, no_size)))
        | inr short ↦
            rw (run, short, response_frame-no_memory reply.status 0 [] (omega arith) (omega arith))
              (no_memory_bare refl bare (ground (arith, no_size)))
      ]
]

send_message-text :
    (memory : Bool) (reply : Reply) (s : Bytes)
    → ltb chat_max_value reply.size ≡ false
    → reply.text ≡ some s
    → Sent memory reply (send_message memory reply)
unfolding send_message
send_message-text memory reply s fits e =
    let text = s ++ 0 ∷ [] in
    let small : reply.size ≤ chat_max_value = ground (arith, fits) in
    let run : send_message memory reply ≡ response_frame memory reply.status reply.size text =
      ground (arith, fits, e) in
    elim (Bool-cases (ltb (length s + 1) reply.size)) [
      | inl over ↦
          let past : length text < reply.size = ground (arith, over, length-append s (0 ∷ [])) in
          rw (run, response_frame-none memory reply.status reply.size text small past)
            (over_read s e (ground (arith, over)))
      | inr within ↦
          let there : reply.size ≤ length text = ground (arith, within, length-append s (0 ∷ [])) in
          let fit : reply.size ≤ length s + 1 = ground (arith, within) in
          elim (Bool-cases memory) [
            | inl found ↦
                rw (run, found, response_frame-wrote reply.status reply.size text small there)
                  (whole s refl e fit small)
            | inr short ↦
                rw (run, short, response_frame-no_memory reply.status reply.size text small there)
                  (no_memory s refl e fit small)
          ]
    ]

-- `ServerManager_SendMessage` on every reply, up to the call of `send`: a message above 256 bytes, or
-- one with a length and no text, is refused; a length beyond the text and its NUL reads past the
-- text; without memory for the frame nothing is sent; and otherwise the frame is the response opcode,
-- the length in two bytes, the status and that many bytes of the text.
pub send_message-Sent :
    (memory : Bool) (reply : Reply) → Sent memory reply (send_message memory reply)
send_message-Sent memory reply = elim (Bool-cases (ltb chat_max_value reply.size)) [
  | inl long ↦
      let run : send_message memory reply ≡ some none =
        unfold send_message in ground (arith, long) in
      rw run (too_long (ground (arith, long)))
  | inr fits ↦ elim (Option-cases reply.text) [
    | inl bare ↦ send_message-bare memory reply fits bare
    | inr (s, e) ↦ send_message-text memory reply s fits e
  ]
]
