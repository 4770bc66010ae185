-- ===== src/Client/Requests/Endpoint.antt =====
-- The endpoint that the server prints is the one that the client parses.
use c_chat_rooms_app.Base.{
  ℕ, ◌<◌, ◌≡◌, ◌≢◌, refl, ap, sym, ◌∙◌, inl, inr, true, false, ◌||◌, some, [], ◌∷◌, ◌++◌, ◌==◌, ltb,
  leb, ◌>>=◌, Bool-cases, length, Bytes, codes, arith, Each, length-append, append_assoc,
}
use mathlib.Core.Option.{some-injective}
use c_chat_rooms_app.Keys.{Library}
use c_chat_rooms_app.Group.{GroupEndpoint}
use c_chat_rooms_app.ServerManager.GroupActions.{endpoint_text}
use c_chat_rooms_app.Client.Menu.{is_space, is_digit, skip_space}
use c_chat_rooms_app.Client.Requests.{split_at, read_digits, atoi, parse_endpoint}

-- What inet_ntop and `%u` print of an endpoint: an address that is not empty and has no colon, and one
-- or more digits, which are those of the port.
pub record Prints (lib : Library) (e : GroupEndpoint) : Type 0 where
  pub address : Each (λ c. c ≢ 58) (lib.inet_ntop e.multicast_addr)
  pub not_empty : 0 < length (lib.inet_ntop e.multicast_addr)
  pub first_digit :
      (d : ℕ) × (ds : Bytes) × (lib.print_unsigned e.port ≡ d ∷ ds) × (is_digit d ≡ true)
  pub number : read_digits 0 (lib.print_unsigned e.port) ≡ e.port

split_at-colon :
    (before after : Bytes)
    → Each (λ c. c ≢ 58) before
    → split_at 58 (before ++ 58 ∷ after) ≡ some (before, after)
unfolding split_at
split_at-colon [] after h = refl
split_at-colon (c ∷ cs) after (h, rest) =
    let other : (c == 58) ≡ false = ground (arith, h) in
    rw (other, split_at-colon cs after rest, ◌>>=◌) refl

atoi-digits :
    (d : ℕ) (ds : Bytes) → is_digit d ≡ true → atoi (d ∷ ds) ≡ some (read_digits 0 (d ∷ ds))
unfolding atoi skip_space
atoi-digits d ds h =
    let not_space : is_space d ≡ false = ground (arith, h) in
    let not_minus : (d == 45) ≡ false = ground (arith, h) in
    let not_plus : (d == 43) ≡ false = ground (arith, h) in
    rw (atoi, not_space, not_minus, not_plus) refl

-- An endpoint with a port from 1 to 65535 that the server prints for a client, into its 22 bytes, is
-- parsed by the client into the text of the same address and the same port.
pub parse_endpoint-endpoint_text :
    (lib : Library) (e : GroupEndpoint) (text : Bytes)
    → Prints lib e
    → 0 < e.port
    → e.port < 65536
    → endpoint_text lib e ≡ some text
    → parse_endpoint 22 text ≡ some (lib.inet_ntop e.multicast_addr, e.port)
unfolding endpoint_text parse_endpoint
parse_endpoint-endpoint_text lib e text prints low high run =
    let ip = lib.inet_ntop e.multicast_addr in
    let printed : Bytes = ip ++ codes ":" ++ lib.print_unsigned e.port in
    elim (Bool-cases (ltb (length printed) 22)) [
      | inr long ↦ cc (rw long at run)
      | inl fits ↦
          let is_text : text ≡ printed = sym (some-injective _ _ (rw fits at run)) in
          let (d, ds, digits, digit) = prints.first_digit in
          let split : split_at 58 printed ≡ some (ip, lib.print_unsigned e.port) =
            ap (split_at 58) (append_assoc ip (codes ":") (lib.print_unsigned e.port))
            ∙ split_at-colon ip (lib.print_unsigned e.port) (prints.address) in
          let port : atoi (lib.print_unsigned e.port) ≡ some e.port =
            ap atoi digits
            ∙ atoi-digits d ds digit
            ∙ ap some (ap (read_digits 0) (sym digits) ∙ prints.number) in
          let short : length ip < 22 = ground (
            arith,
            fits,
            length-append (ip ++ codes ":") (lib.print_unsigned e.port),
            length-append ip (codes ":"),
          ) in
          let good_ip : (length ip == 0 || leb 22 (length ip)) ≡ false =
            ground (arith, short, prints.not_empty) in
          let good_port : (leb e.port 0 || ltb 65535 e.port) ≡ false = ground (arith, low, high) in
          rw (is_text, split, ◌>>=◌, port, good_ip, good_port) refl
    ]
