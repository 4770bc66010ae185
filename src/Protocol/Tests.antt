-- ===== src/Protocol/Tests.antt =====
-- The frame format on small messages.
use c_chat_rooms_app.Base.{
  ℕ, ◌+◌, ◌/◌, ◌%◌, ◌^◌, ◌≤◌, ◌<◌, ◌≡◌, ◌⊎◌, true, some, none, [], ◌∷◌, ◌++◌, Bytes, length, take,
  replicate, length-replicate, arith,
}
use c_chat_rooms_app.Protocol.{
  ChatMessage, wrote, failed, serialize, deserialize, chat_header_size, chat_max_value,
}
use c_chat_rooms_app.Protocol.Status
use c_chat_rooms_app.Protocol.Errors.{Outcome, deserialize-Outcome, serialize_cases}
use c_chat_rooms_app.Protocol.RoundTrip.{
  IsMessage, received, deserialize-serialize, deserialize-serialize_negative,
}

-- A message of opcode 2 whose payload is the first `n` of 256 equal bytes.
abbrev message : ℕ → ChatMessage
message n = record { opcode = 2; size = n; status = 0; value = replicate 256 65 }

blank : ChatMessage
blank = record { opcode = 0; size = 0; status = 0; value = replicate 256 0 }

blank-length : length blank.value ≡ chat_max_value
unfolding blank
blank-length = length-replicate {A = ℕ} 256 0

short-IsMessage : IsMessage (message 7)
short-IsMessage = record {
  opcode = omega arith;
  status = omega arith;
  size = omega arith;
  array = length-replicate {A = ℕ} 256 65;
}

long-IsMessage : IsMessage (message 200)
long-IsMessage = record {
  opcode = omega arith;
  status = omega arith;
  size = omega arith;
  array = length-replicate {A = ℕ} 256 65;
}

deserialize-serialize_example :
    (bytes : Bytes) × (serialize (message 7) 260 ≡ some (wrote bytes))
    × (length bytes ≡ chat_header_size + 7)
    × (deserialize true (some (bytes ++ 1 ∷ [])) 12 blank
        ≡ some (Status.ok, received (message 7) blank))
    × (take 7 (received (message 7) blank).value ≡ take 7 (message 7).value)
deserialize-serialize_example =
    deserialize-serialize true (message 7) blank (1 ∷ []) 260 12 short-IsMessage blank-length
      (omega arith) (omega arith) (λ signed. omega arith)

deserialize-serialize_negative_example :
    (bytes : Bytes) × (serialize (message 200) 260 ≡ some (wrote bytes))
    × (deserialize true (some (bytes ++ [])) 204 blank ≡ some (Status.err_malformed, blank))
deserialize-serialize_negative_example =
    deserialize-serialize_negative (message 200) blank [] 260 204 long-IsMessage blank-length
      (omega arith) (omega arith) (omega arith)

deserialize-Outcome_example :
    (code : ℕ) × (m : ChatMessage) × (deserialize true (some (2 ∷ 1 ∷ 0 ∷ 0 ∷ 65 ∷ [])) 5 blank
      ≡ some (code, m))
    × Outcome 5 blank code m
deserialize-Outcome_example =
    deserialize-Outcome true (2 ∷ 1 ∷ 0 ∷ 0 ∷ 65 ∷ []) 5 blank (omega arith) blank-length

serialize_cases_example :
    ((20 < chat_header_size + 7) × (serialize (message 7) 20 ≡ some failed))
    ⊎ (chat_max_value < 7) × (serialize (message 7) 20 ≡ none)
    ⊎ (serialize (message 7) 20
        ≡ some (
            wrote (
              (2 % 2 ^ 8)
              ∷ (7 % 2 ^ 8)
              ∷ (7 / 2 ^ 8 % 2 ^ 8)
              ∷ (0 % 2 ^ 8)
              ∷ take 7 (replicate 256 65))))
      × (length (take 7 (message 7).value) ≡ 7)
      × (chat_header_size + 7 ≤ 20)
serialize_cases_example = serialize_cases (message 7) 20 (length-replicate {A = ℕ} 256 65)
