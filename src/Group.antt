-- ===== src/Group.antt =====
-- ServerMng/Group.h and ServerMng/Group.c: the operations on one `Group` object. A pointer argument
-- is never NULL here: the callers have checked it.
use c_chat_rooms_app.Base.{ℕ, ◌+◌, ◌-◌, ◌%◌, ◌^◌, Bytes, ℤ, negsuc, if◌then◌else◌, ◌==◌}

pub record GroupEndpoint : Type 0 where
  -- `uint32_t`, in network byte order
  pub multicast_addr : ℕ
  -- `uint16_t`
  pub port : ℕ

pub record Group : Type 0 where
  pub name : Bytes
  pub endpoint : GroupEndpoint
  -- `size_t`
  pub ref_count : ℕ
  pub udp_fd : ℤ

-- What `Group_Create` puts into the object that it allocates.
unfoldable pub create : Bytes → GroupEndpoint → Group
create name endpoint = record { name = name; endpoint = endpoint; ref_count = 0; udp_fd = negsuc 0 }

unfoldable pub get_endpoint : Group → GroupEndpoint
get_endpoint g = g.endpoint

unfoldable pub get_ref_count : Group → ℕ
get_ref_count g = g.ref_count

-- `Group_IncRef`: the new count, which wraps around, and the object.
unfoldable pub inc_ref : Group → ℕ × Group
inc_ref g = let n = (g.ref_count + 1) % 2 ^ 64 in (n, record g { ref_count = n })

unfoldable pub dec_ref : Group → ℕ × Group
dec_ref g =
    if g.ref_count == 0 then (0, g) else (g.ref_count - 1, record g { ref_count = g.ref_count - 1 })
