-- ===== src/Net/Tag.antt =====
-- `server_messages` of server.hpp: the first byte of a binary message.
use owop_server_for_heroku_g.Base.{ℕ}

abbrev pub set_id : ℕ
set_id = 0

abbrev pub update : ℕ
update = 1

abbrev pub chunkdata : ℕ
chunkdata = 2

abbrev pub teleport : ℕ
teleport = 3

abbrev pub permissions : ℕ
permissions = 4

abbrev pub captcha_required : ℕ
captcha_required = 5

abbrev pub set_pquota : ℕ
set_pquota = 6

abbrev pub chunk_protected : ℕ
chunk_protected = 7
