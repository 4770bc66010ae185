-- ===== src/Client/Printing.antt =====
-- Client/ClientApp.c: what the client prints of a response.
use c_chat_rooms_app.Base.{ℕ, List, [], ◌∷◌, ◌++◌, ◌==◌, ltb, if◌then◌else◌, take, Bytes, codes}
use c_chat_rooms_app.Protocol.{ChatMessage}
use c_chat_rooms_app.Protocol.Status
use c_chat_rooms_app.Client.Menu.{before_nul}

-- The cases of `StatusToString`, by the numbers of ChatStatus.
abbrev status_names : List (ℕ × Bytes)
status_names =
    (0, codes "OK")
    ∷ (1, codes "Generic error")
    ∷ (2, codes "Bad credentials")
    ∷ (3, codes "Name already taken")
    ∷ (4, codes "Not found")
    ∷ (5, codes "Already in group")
    ∷ (6, codes "Not in group")
    ∷ (7, codes "Not logged in")
    ∷ (8, codes "Already logged in")
    ∷ (9, codes "Malformed message")
    ∷ (10, codes "Null pointer")
    ∷ []

unfoldable pub name_in : ℕ → List (ℕ × Bytes) → Bytes
name_in status [] = codes "Unknown"
name_in status ((s, name) ∷ rest) = if status == s then name else name_in status rest

-- `StatusToString`
unfoldable pub status_to_string : ℕ → Bytes
unfolding name_in
status_to_string status = name_in status status_names

-- `%.*s` of the payload.
unfoldable pub payload_text : ChatMessage → Bytes
unfolding before_nul
payload_text m = before_nul (take m.size m.value)

-- `PrintResponse`
unfoldable pub print_response : ChatMessage → Bytes
unfolding status_to_string payload_text
print_response m =
    let ok = if ltb 0 m.size then codes "OK: " ++ payload_text m ++ codes "\n" else codes "OK\n" in
    let detail = if ltb 0 m.size then codes " (" ++ payload_text m ++ codes ")" else [] in
    if m.status == Status.ok
    then ok
    else codes "Error: " ++ status_to_string m.status ++ detail ++ codes "\n"
