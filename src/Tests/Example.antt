-- ===== src/Tests/Example.antt =====
-- A library of containers to run the model with: association lists and plain lists that find memory.
use c_chat_rooms_app.Base.{ℕ, ◌+◌, ◌/◌, ◌%◌, true, some, [], ◌∷◌, ◌++◌, Bytes, codes, replicate}
use c_chat_rooms_app.Protocol.{ChatMessage}
use c_chat_rooms_app.Protocol.Opcode
use c_chat_rooms_app.DList.Plain.{boundless}
use c_chat_rooms_app.HashMap.Assoc.{assoc}
use c_chat_rooms_app.Keys.{Library, name_key, fd_key}
use c_chat_rooms_app.User.{Memory}
use c_chat_rooms_app.User.Groups.{Pushes}

-- The four digits of a port of the multicast range.
abbrev four_digits : ℕ → Bytes
four_digits n = (48 + n / 1000) ∷ (48 + n / 100 % 10) ∷ (48 + n / 10 % 10) ∷ (48 + n % 10) ∷ []

abbrev pub library : Library
library = record {
  char_signed = true;
  lists = boundless Bytes;
  names = assoc ℕ (name_key true) 100;
  fds = assoc ℕ fd_key 100;
  inet_pton = λ text. some 0x010000ef;
  inet_ntop = λ addr. codes "239.0.0.1";
  print_unsigned = four_digits;
}

pub pushes : Pushes library.lists
unfolding boundless
pushes l x e = cc

-- Every allocation finds memory.
abbrev pub plenty : Memory
plenty = record { user = true; list = true; group_name = true; group = true }

abbrev pub ann : Bytes
ann = codes "ann"

abbrev pub secret : Bytes
secret = codes "secret"

abbrev pub chess : Bytes
chess = codes "chess"

-- The payload of a registration or a login, and that of a request on a group.
abbrev pub credentials_value : Bytes
credentials_value = ann ++ 0 ∷ secret ++ 0 ∷ []

abbrev pub group_value : Bytes
group_value = chess ++ 0 ∷ []

-- The frames of those requests.
abbrev pub register_frame : Bytes
register_frame = Opcode.register ∷ 11 ∷ 0 ∷ 0 ∷ credentials_value

abbrev pub create_group_frame : Bytes
create_group_frame = Opcode.create_group ∷ 6 ∷ 0 ∷ 0 ∷ group_value

-- What the message on the stack holds before it is decoded.
abbrev pub stack : ChatMessage
stack = record { opcode = 0; size = 0; status = 0; value = replicate 256 7 }
