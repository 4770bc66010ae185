-- ===== src/Protocol/Status.antt =====
-- ChatStatus of NetworkProtocol.h. Two of its names have one value.
use c_chat_rooms_app.Base.{ℕ}

abbrev pub ok : ℕ
ok = 0

abbrev pub err_generic : ℕ
err_generic = 1

abbrev pub err_bad_creds : ℕ
err_bad_creds = 2

abbrev pub err_not_logged_in : ℕ
err_not_logged_in = 7

abbrev pub err_already_logged_in : ℕ
err_already_logged_in = 8

abbrev pub err_not_in_group : ℕ
err_not_in_group = 9

abbrev pub err_malformed : ℕ
err_malformed = 9

abbrev pub err_null_ptr : ℕ
err_null_ptr = 10
