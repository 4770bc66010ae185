-- ===== src/ServerManager/Endpoint.antt =====
-- The reply that carries the endpoint of a group.
use c_chat_rooms_app.Base.{
  ◌+◌, ◌≤◌, ◌<◌, ◌++◌, ltb, length, codes, Bool-cases, ◌≡◌, refl, ap, inl, inr, true, false, none,
  some, ◌>>=◌, arith, Bytes,
}
use c_chat_rooms_app.Keys.{Library}
use c_chat_rooms_app.Group.{Group, GroupEndpoint}
use c_chat_rooms_app.GroupManager.{GroupManager, GroupManagerResult}
use c_chat_rooms_app.GroupManager
use c_chat_rooms_app.GroupManager.Table.{group_at, get_group-at, at_cases}
use c_chat_rooms_app.GroupManager.Endpoint.{get_group_endpoint_lem}
use c_chat_rooms_app.ServerManager.{ServerManager, Reply, with_text}
use c_chat_rooms_app.ServerManager.GroupActions.{send_group_endpoint, endpoint_reply, endpoint_text}
use c_chat_rooms_app.ServerManager.Names
use c_chat_rooms_app.Protocol.Status

module _ (lib : Library) where
  abbrev pub no_group : Reply
  no_group = with_text Status.err_generic (Names.group_result GroupManagerResult.not_found)

  -- The text of an endpoint.
  abbrev pub printed : GroupEndpoint → Bytes
  printed e = lib.inet_ntop e.multicast_addr ++ codes ":" ++ lib.print_unsigned e.port

  -- The reply with the endpoint of a group: an error, or CHAT_OK and its text, if that and a NUL fit
  -- into 22 bytes.
  pub data EndpointReply (s : ServerManager lib) (name : Bytes) : Reply → Type 0 where
    no_endpoint : group_at lib s.groups name ≡ none → EndpointReply s name no_group
    too_long :
        (g : Group)
        → group_at lib s.groups name ≡ some g
        → 22 ≤ length (printed g.endpoint)
        → EndpointReply s name
            (with_text Status.err_generic (codes "Failed to format group endpoint"))
    endpoint :
        (g : Group)
        → group_at lib s.groups name ≡ some g
        → length (printed g.endpoint) < 22
        → EndpointReply s name (record {
          status = Status.ok;
          text = some (printed g.endpoint);
          size = length (printed g.endpoint) + 1;
        })

  endpoint_reply-short :
      (e : GroupEndpoint)
      → ltb (length (printed e)) 22 ≡ true
      → endpoint_reply lib GroupManagerResult.success (some e) ≡ with_text Status.ok (printed e)
  unfolding endpoint_text endpoint_reply
  endpoint_reply-short e fits = rw (endpoint_reply, endpoint_text, fits) refl

  endpoint_reply-long :
      (e : GroupEndpoint)
      → ltb (length (printed e)) 22 ≡ false
      → endpoint_reply lib GroupManagerResult.success (some e)
        ≡ with_text Status.err_generic (codes "Failed to format group endpoint")
  unfolding endpoint_text endpoint_reply
  endpoint_reply-long e long = rw (endpoint_reply, endpoint_text, long) refl

  pub send_group_endpoint-total :
      (s : ServerManager lib) (name : Bytes)
      → GroupManager.Table.IsValid lib s.groups
      → (reply : Reply) × (send_group_endpoint lib s name ≡ some reply) × EndpointReply s name reply
  unfolding send_group_endpoint
  send_group_endpoint-total s name v = elim (get_group_endpoint_lem lib s.groups name v) [
    | inl (out, run) ↦ (no_group, rw (run, ◌>>=◌) (unfold endpoint_reply in refl), no_endpoint out)
    | inr (g, e, run, low, high) ↦ elim (Bool-cases (ltb (length (printed g.endpoint)) 22)) [
      | inl fits ↦ (
        _,
        rw (run, ◌>>=◌) (ap some (endpoint_reply-short g.endpoint fits)),
        endpoint g e (ground (arith, fits)),
      )
      | inr long ↦ (
        _,
        rw (run, ◌>>=◌) (ap some (endpoint_reply-long g.endpoint long)),
        too_long g e (ground (arith, long)),
      )
    ]
  ]
