-- ===== src/Client/Rank.antt =====
-- `Client::Rank` of server.hpp.
use owop_server_for_heroku_g.Base.{ℕ}

abbrev pub none : ℕ
none = 0

abbrev pub user : ℕ
user = 1

abbrev pub moderator : ℕ
moderator = 2

abbrev pub admin : ℕ
admin = 3
