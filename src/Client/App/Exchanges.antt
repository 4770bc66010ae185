-- ===== src/Client/App/Exchanges.antt =====
-- A request of the client meets no fault, whatever the network answers.
use c_chat_rooms_app.Base.{
  ℕ, ◌≤◌, ◌≡◌, refl, inl, inr, Bool, true, false, ◌&&◌, Option, some, ◌++◌, ◌==◌, leb,
  if◌then◌else◌, ◌>>=◌, Bool-cases, Option-cases, length, drop, Bytes, c_str, arith, length-append,
  length-drop,
}
use c_chat_rooms_app.Protocol.{
  ChatMessage, Encoded, failed, wrote, serialize, chat_max_value, chat_max_total,
}
use c_chat_rooms_app.Protocol.Errors.{deserialize-Outcome}
use c_chat_rooms_app.Protocol.Opcode
use c_chat_rooms_app.Protocol.Status
use c_chat_rooms_app.Client.Controller.{ClientController, ClientResult, Received, arrived}
use c_chat_rooms_app.Client.Controller
use c_chat_rooms_app.Client.App.{
  Windows, Network, Exchange, lost, got, decode, receive_answer, send_request, exchange_message,
}

module _ (char_signed : Bool) (wins : Windows) where
  -- The answer of a well-formed response is text that ends inside its array.
  abbrev pub IsAnswer : Exchange → Type 0
  IsAnswer (lost closed) = Unit
  IsAnswer (got m) = (text : Bytes) × (c_str m.value ≡ some text)

  -- The buffers have their sizes, `strdup` finds memory, and what comes is an answer.
  pub record IsFit (net : Network) : Type 0 where
    pub buffer : 4096 ≤ length net.buffer
    pub response : length net.response.value ≡ chat_max_value
    pub name_memory : net.name_memory ≡ true
    pub answers :
        (bytes : Bytes) (x : Exchange)
        → net.recv ≡ arrived bytes
        → decode char_signed wins net bytes ≡ some x
        → IsAnswer x

  -- An exchange that meets no fault.
  abbrev pub Meets : Option Exchange → Type 0
  Meets o = (x : Exchange) × (o ≡ some x) × IsAnswer x

  decode-Meets :
      (net : Network) (bytes : Bytes)
      → IsFit net
      → net.recv ≡ arrived bytes
      → Meets (decode char_signed wins net bytes)
  unfolding decode
  decode-Meets net bytes fit e =
      let whole : 4096 ≤ length (bytes ++ drop (length bytes) net.buffer) = omega (
        arith,
        fit.buffer,
        length-append bytes (drop (length bytes) net.buffer),
        length-drop (length bytes) net.buffer,
      ) in
      let (code, m, decoded, o) =
        deserialize-Outcome char_signed (bytes ++ drop (length bytes) net.buffer) 4096 net.response
          whole fit.response in
      let x : Exchange =
        if code == Status.ok && m.opcode == Opcode.response then got m else lost false in
      let run : decode char_signed wins net bytes ≡ some x = rw (decoded, ◌>>=◌) refl in
      (x, run, fit.answers bytes x e run)

  receive_answer-Meets :
      (net : Network) (c : ClientController) (o : Received)
      → IsFit net
      → net.recv ≡ o
      → Meets (receive_answer char_signed wins net c o)
  unfolding receive_answer Controller.receive
  receive_answer-Meets net c (arrived bytes) fit e =
      elim (Bool-cases (Controller.is_running c.state)) [
        | inl on ↦ rw (receive_answer, on) (decode-Meets net bytes fit e)
        | inr off ↦ rw (receive_answer, off) (lost false, refl, tt)
      ]
  receive_answer-Meets net c Received.failed fit e =
      elim (Bool-cases (Controller.is_running c.state)) [
        | inl on ↦ rw (receive_answer, on) (lost false, refl, tt)
        | inr off ↦ rw (receive_answer, off) (lost false, refl, tt)
      ]
  receive_answer-Meets net c Received.ended fit e =
      elim (Bool-cases (Controller.is_running c.state)) [
        | inl on ↦ rw (receive_answer, on) (lost true, refl, tt)
        | inr off ↦ rw (receive_answer, off) (lost false, refl, tt)
      ]

  send_request-Meets :
      (net : Network) (c : ClientController) (e : Encoded)
      → IsFit net
      → Meets (send_request char_signed wins net c e)
  unfolding send_request Controller.send
  send_request-Meets net c failed fit = (lost false, refl, tt)
  send_request-Meets net c (wrote bytes) fit = elim (Bool-cases (leb (length bytes) 0)) [
    | inl empty ↦ rw (send_request, empty) (lost false, refl, tt)
    | inr more ↦ elim (Bool-cases (Controller.is_running c.state)) [
      | inr off ↦ rw (send_request, more, off) (lost true, refl, tt)
      | inl on ↦ elim (Bool-cases net.sent) [
        | inr unsent ↦ rw (send_request, more, on, unsent) (lost false, refl, tt)
        | inl sent ↦
            rw (send_request, more, on, sent) (receive_answer-Meets net c net.recv fit refl)
      ]
    ]
  ]

  serialize-total :
      (m : ChatMessage) (n : ℕ) → m.size ≤ length m.value → (e : Encoded) × (serialize m n ≡ some e)
  unfolding serialize
  serialize-total m n fits = elim (Option-cases (serialize m n)) [
    | inr done ↦ done
    | inl over ↦ absurd (ground (arith, fits, over))
  ]

  -- An exchange of a request whose payload lies in its array.
  pub exchange_message-Meets :
      (net : Network) (c : ClientController) (req : ChatMessage)
      → IsFit net
      → req.size ≤ length req.value
      → Meets (exchange_message char_signed wins net c req)
  unfolding exchange_message
  exchange_message-Meets net c req fit inside =
      let (e, run) = serialize-total req chat_max_total inside in
      rw (run, ◌>>=◌) (send_request-Meets net c e fit)
