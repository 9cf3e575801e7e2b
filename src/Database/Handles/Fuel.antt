-- ===== src/Database/Handles/Fuel.antt =====
-- The fuel of get_handle: where a stream has gone bad, the call that follows finds none.
use owop_server_for_heroku_g.Base.{Bool, if◌then◌else◌}
use owop_server_for_heroku_g.Base.Words.{Bytes}
use owop_server_for_heroku_g.Base.Eq.{bytes_eq}
use owop_server_for_heroku_g.Base.Assoc.{remove}
use owop_server_for_heroku_g.Database.{Database}

abbrev without : Bytes → Bool → Database → Database
without mkey create db =
    if create then record db { nonexistant = remove mkey db.nonexistant } else db
