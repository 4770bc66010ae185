-- ===== src/Tests/Client.antt =====
-- The client on small inputs.
use c_chat_rooms_app.Base.{
  ◌≡◌, refl, true, some, none, List, [], ◌∷◌, ◌++◌, replicate, Bytes, codes, arith, negsuc,
}
use c_chat_rooms_app.Tests.Example.{library, ann, secret, stack}
use c_chat_rooms_app.Group.{GroupEndpoint}
use c_chat_rooms_app.Protocol.{ChatMessage, serialize, deserialize, wrote}
use c_chat_rooms_app.Protocol.Opcode
use c_chat_rooms_app.Protocol.Status
use c_chat_rooms_app.ServerManager.{credentials}
use c_chat_rooms_app.ServerManager.GroupActions.{endpoint_text}
use c_chat_rooms_app.Client.Menu.{
  SessionState, menu_register, menu_login, get_options, parse, read_selection, skip_space, select,
  option_at, parse_selection, render, choice_label,
}
use c_chat_rooms_app.Client.Menu.Choosing.{parse-option}
use c_chat_rooms_app.Client.Requests.{credentials_request, parse_endpoint, read_digits}
use c_chat_rooms_app.Client.Requests.Readable.{credentials-request_wire}
use c_chat_rooms_app.Client.Requests.Endpoint.{Prints, parse_endpoint-endpoint_text}
use c_chat_rooms_app.Client.Controller.{ClientState, Received}
use c_chat_rooms_app.Client.App.{Windows, Network, ClientApp}
use c_chat_rooms_app.Client.App.Run.{run, finished}
use c_chat_rooms_app.Client.App.Exchanges.{IsFit}
use c_chat_rooms_app.Client.App.Ending.{run-finishes}

parse-option_example :
    (front number back : Bytes) × (render SessionState.connected
      ≡ front
        ++ ((codes "  " ++ number ++ codes ". " ++ choice_label menu_login ++ codes "\n") ++ back))
    × (parse ((32 ∷ []) ++ (number ++ 32 ∷ [])) SessionState.connected ≡ menu_login)
unfolding get_options
parse-option_example =
    parse-option SessionState.connected (32 ∷ []) (32 ∷ []) 1 menu_login (refl, tt) (refl, tt) refl

-- A number of twenty digits wraps to 1.
wrapped : parse (codes "18446744073709551617") SessionState.connected ≡ menu_register
unfolding parse parse_selection read_selection skip_space select option_at get_options
wrapped = refl

credentials-request_wire_example :
    (m m' : ChatMessage) × (bytes : Bytes) × (credentials_request Opcode.login ann secret
      ≡ some (some m))
    × (serialize m 260 ≡ some (wrote bytes))
    × (deserialize true (some (bytes ++ 9 ∷ [])) 15 stack ≡ some (Status.ok, m'))
    × (m'.opcode ≡ Opcode.login)
    × (credentials m'.value ≡ some (ann, secret))
credentials-request_wire_example =
    credentials-request_wire true Opcode.login ann secret stack (9 ∷ []) 15 (omega arith)
      (ground arith) (ground arith) (omega arith) refl (omega arith) (λ e. omega arith)

abbrev endpoint : GroupEndpoint
endpoint = record { multicast_addr = 0x010000ef; port = 5000 }

prints : Prints library endpoint
unfolding read_digits
prints = record {
  address = ground arith;
  not_empty = omega arith;
  first_digit = (53, 48 ∷ 48 ∷ 48 ∷ [], refl, refl);
  number = refl;
}

parse_endpoint-endpoint_text_example :
    parse_endpoint 22 (codes "239.0.0.1:5000") ≡ some (codes "239.0.0.1", 5000)
unfolding endpoint_text
parse_endpoint-endpoint_text_example =
    parse_endpoint-endpoint_text library endpoint (codes "239.0.0.1:5000") prints (omega arith)
      (omega arith) refl

-- Windows that are a list of names.
abbrev windows : Windows
windows = record {
  Rep = List Bytes;
  create = some [];
  open_window = λ w name ip port user. (true, name ∷ w);
  close_window = λ w name. w;
  close_all = λ w. [];
}

-- A server that closes the connection instead of answering.
abbrev net : Network
net = record {
  socket = some 3;
  connects = true;
  sent = true;
  recv = Received.ended;
  buffer = replicate 4096 0;
  response = stack;
  name_memory = true;
  password_memory = true;
}

fit : IsFit true windows net
fit = record {
  buffer = omega arith;
  response = refl;
  name_memory = refl;
  answers = λ bytes x e. cc;
}

abbrev app : ClientApp true windows
app = record {
  controller = record { fd = negsuc 0; ip = 127; port = 8080; state = ClientState.stopped };
  windows = [];
  state = SessionState.disconnected;
  username = none;
  password = none;
}

-- Connect, and register.
abbrev dialogue : Bytes
dialogue = codes "1\n1\nann\nsecret\n"

run-finishes_example :
    (app' : ClientApp true windows) × (run true windows 100 (λ i. net) app dialogue ≡ finished app')
    × (app'.state ≡ SessionState.disconnected)
run-finishes_example =
    run-finishes true windows 100 (λ i. net) app dialogue (omega arith) (λ i. fit) (λ on. cc)
