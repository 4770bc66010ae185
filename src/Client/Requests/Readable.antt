-- ===== src/Client/Requests/Readable.antt =====
-- The server reads back what the client has packed, and the client what the server has printed.
use c_chat_rooms_app.Base.{
  ℕ, ◌+◌, ◌-◌, ◌%◌, ◌^◌, ◌≤◌, ◌<◌, ◌≡◌, refl, ap, sym, ◌∙◌, Bool, true, false, some, [], ◌∷◌, ◌++◌,
  ltb, leb, ◌>>=◌, length, take, drop, replicate, Bytes, arith, length-append, length-drop,
  take-append, take-append_ge, drop-append_ge, append_assoc, append-nil, IsText, c_str-append,
}
use c_chat_rooms_app.Protocol.{
  ChatMessage, chat_max_value, chat_header_size, serialize, deserialize, wrote,
}
use c_chat_rooms_app.Protocol.Status
use c_chat_rooms_app.Protocol.RoundTrip.{IsMessage, received, deserialize-serialize}
use c_chat_rooms_app.ServerManager.{credentials}
use c_chat_rooms_app.Client.Requests.{
  empty_request, memcpy_at, pack_credentials, credentials_request,
}

pub memcpy_at-append :
    (front back source : Bytes) (offset : ℕ)
    → offset ≡ length front
    → length source ≤ length back
    → memcpy_at (front ++ back) offset source ≡ some (front ++ source ++ drop (length source) back)
unfolding memcpy_at
memcpy_at-append front back source offset at fits =
    let room : leb (offset + length source) (length (front ++ back)) ≡ true =
      ground (arith, at, fits, length-append front back) in
    let before : take offset (front ++ back) ≡ front =
      take-append_ge offset 0 front back (omega (arith, at)) ∙ append-nil front in
    let after : drop (offset + length source) (front ++ back) ≡ drop (length source) back =
      drop-append_ge (offset + length source) (length source) front back (omega (arith, at)) in
    rw (room, before, after) refl

-- The two strings, each with its NUL.
abbrev pub payload : Bytes → Bytes → Bytes
payload name password = (name ++ 0 ∷ []) ++ (password ++ 0 ∷ [])

length-payload :
    (name password : Bytes) → length (payload name password) ≡ length name + length password + 2
length-payload name password = omega (
  arith,
  length-append (name ++ 0 ∷ []) (password ++ 0 ∷ []),
  length-append name (0 ∷ []),
  length-append password (0 ∷ []),
)

-- The request holds the payload at the front of its array.
pub record Packs (m : ChatMessage) (opcode : ℕ) (name password : Bytes) : Type 0 where
  pub rest : Bytes
  pub value : m.value ≡ payload name password ++ rest
  pub array : length m.value ≡ chat_max_value
  pub size : m.size ≡ length name + length password + 2
  pub opcode_is : m.opcode ≡ opcode
  pub status : m.status ≡ Status.ok

pub pack_credentials-Packs :
    (opcode : ℕ) (name password : Bytes)
    → length name + length password + 2 ≤ chat_max_value
    → (m : ChatMessage) × (pack_credentials (empty_request opcode) name password ≡ some m)
      × Packs m opcode name password
unfolding pack_credentials
pack_credentials-Packs opcode name password fits =
    let zeros : Bytes = replicate 256 0 in
    let n : ℕ = length (name ++ 0 ∷ []) in
    let p : ℕ = length (password ++ 0 ∷ []) in
    let n_is : n ≡ length name + 1 = length-append name (0 ∷ []) in
    let p_is : p ≡ length password + 1 = length-append password (0 ∷ []) in
    let back : Bytes = drop n zeros in
    let back_is : length back ≡ 256 - n = length-drop n zeros in
    let first : memcpy_at zeros 0 (name ++ 0 ∷ []) ≡ some ((name ++ 0 ∷ []) ++ back) =
      memcpy_at-append [] zeros (name ++ 0 ∷ []) 0 refl (omega (arith, fits, n_is)) in
    let second : memcpy_at ((name ++ 0 ∷ []) ++ back) (length name + 1) (password ++ 0 ∷ [])
        ≡ some (payload name password ++ drop p back) =
      memcpy_at-append (name ++ 0 ∷ []) back (password ++ 0 ∷ []) (length name + 1) (sym n_is)
        (omega (arith, back_is, n_is, p_is, fits)) in
    let no_wrap : (length name + length password + 2) % 2 ^ 16 ≡ length name + length password + 2 =
      omega (arith, fits) in
    (
      record (empty_request opcode) {
        value = payload name password ++ drop p back;
        size = (length name + length password + 2) % 2 ^ 16;
      },
      rw (first, ◌>>=◌, second) refl,
      record {
        rest = drop p back;
        value = refl;
        array = omega (
          arith,
          length-append (payload name password) (drop p back),
          length-payload name password,
          length-drop p back,
          back_is,
          n_is,
          p_is,
          fits,
        );
        size = no_wrap;
        opcode_is = refl;
        status = refl;
      },
    )

credentials-payload :
    (name password rest : Bytes)
    → IsText name
    → IsText password
    → credentials (payload name password ++ rest) ≡ some (name, password)
unfolding credentials
credentials-payload name password rest tn tp =
    let flat : payload name password ++ rest ≡ name ++ 0 ∷ (password ++ 0 ∷ rest) =
      append_assoc (name ++ 0 ∷ []) (password ++ 0 ∷ []) rest
      ∙ ap (λ t. (name ++ 0 ∷ []) ++ t) (append_assoc password (0 ∷ []) rest)
      ∙ append_assoc name (0 ∷ []) (password ++ 0 ∷ rest) in
    let past : drop (length name + 1) (name ++ 0 ∷ (password ++ 0 ∷ rest)) ≡ password ++ 0 ∷ rest =
      drop-append_ge (length name + 1) 1 name (0 ∷ (password ++ 0 ∷ rest)) refl in
    rw
      (
        flat,
        c_str-append name (password ++ 0 ∷ rest) tn,
        ◌>>=◌,
        past,
        c_str-append password rest tp,
      )
      refl

-- A user name and a password of text, which with their NULs fit the payload, are packed by the
-- client, serialized, and read back by the server as the same two strings under the same opcode,
-- whatever the server's array held and whatever follows the frame. Where `char` is signed this asks
-- that the low byte of the payload's size be below 128.
pub credentials-request_wire :
    (s : Bool) (opcode : ℕ) (name password : Bytes) (out : ChatMessage) (after : Bytes) (n : ℕ)
    → opcode < 256
    → IsText name
    → IsText password
    → length name + length password + 2 ≤ chat_max_value
    → length out.value ≡ chat_max_value
    → chat_header_size + (length name + length password + 2) ≤ n
    → (s ≡ true → (length name + length password + 2) % 2 ^ 8 < 128)
    → (m m' : ChatMessage) × (bytes : Bytes) × (credentials_request opcode name password
        ≡ some (some m))
      × (serialize m 260 ≡ some (wrote bytes))
      × (deserialize s (some (bytes ++ after)) n out ≡ some (Status.ok, m'))
      × (m'.opcode ≡ opcode)
      × (credentials m'.value ≡ some (name, password))
unfolding credentials_request
credentials-request_wire s opcode name password out after n small tn tp fits array whole survives =
    let (m, packed, k) = pack_credentials-Packs opcode name password fits in
    let short : ltb chat_max_value (length name + length password + 2) ≡ false =
      ground (arith, fits) in
    let message : IsMessage m = record {
      opcode = omega (arith, k.opcode_is, small);
      status = omega (arith, k.status);
      size = omega (arith, k.size, fits);
      array = k.array;
    } in
    let (bytes, written, count, read, same) =
      deserialize-serialize s m out after 260 n message array (omega (arith, k.size, fits))
        (omega (arith, k.size, whole)) (λ e. rw k.size (survives e)) in
    let front : take m.size m.value ≡ payload name password = rw k.value (
      ap (λ j. take j (payload name password ++ k.rest))
        (k.size ∙ sym (length-payload name password))
      ∙ take-append (payload name password) k.rest) in
    (
      m,
      received m out,
      bytes,
      rw (short, packed) refl,
      written,
      read,
      k.opcode_is,
      ap (λ t. credentials (t ++ drop m.size out.value)) front
          ∙ credentials-payload name password (drop m.size out.value) tn tp,
    )
