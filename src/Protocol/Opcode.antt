-- ===== src/Protocol/Opcode.antt =====
-- MessageOpcode of NetworkProtocol.h.
use c_chat_rooms_app.Base.{ℕ}

abbrev pub register : ℕ
register = 0x01

abbrev pub login : ℕ
login = 0x02

abbrev pub logout : ℕ
logout = 0x03

abbrev pub exit : ℕ
exit = 0x04

abbrev pub create_group : ℕ
create_group = 0x05

abbrev pub join_group : ℕ
join_group = 0x06

abbrev pub leave_group : ℕ
leave_group = 0x07

abbrev pub list_users : ℕ
list_users = 0x08

abbrev pub list_groups : ℕ
list_groups = 0x09

abbrev pub response : ℕ
response = 0x81
