-- ===== src/Api/Tests.antt =====
-- A quarantine is made and lifted with the token, and refused without it.
use rtace.Base.{ℕ, ◌≡◌, ◌≢◌, ◌⊎◌, refl, List, Option, none, some, [], String, leb}
use rtace.Redis.{Redis}
use rtace.Redis.Memory.{memory, nothing}
use rtace.Config.{RedisConfig, default_config}
use rtace.Enforcement.{quarantine_key}
use rtace.Api.{
  Request, quarantine, lift_quarantined, App, serve, route, add_quarantine, lift_quarantine, ttl_or,
  require_write, require_read, check_token, compare_digest, is_ascii,
}
use rtace.Api.Reads.{token_of, lifespan, Open, Guarded, lifespan_guards}
use rtace.Api.Access.{status}

abbrev server : Redis ℕ leb
server = memory ℕ leb

abbrev config : RedisConfig ℕ
config = default_config 900

abbrev request : Option String → Request
request token = record { credentials = token; timestamp = "now"; client = none }

abbrev app : App server.Db
app = record { token = some "t"; db = nothing ℕ leb; audits = [] }

abbrev made : App server.Db
made = (serve server config (quarantine "u1" none "fraud") (request (some "t")) app).1

lifted : status (serve server config (lift_quarantined "u1") (request (some "t")) made).0 ≡ 200
unfolding memory serve route add_quarantine lift_quarantine quarantine_key ttl_or require_write
    require_read check_token compare_digest is_ascii
lifted = refl

nothing_to_lift :
    status (serve server config (lift_quarantined "u2") (request (some "t")) made).0 ≡ 404
unfolding memory serve route add_quarantine lift_quarantine quarantine_key ttl_or require_write
    require_read check_token compare_digest is_ascii
nothing_to_lift = refl

refused : status (serve server config (lift_quarantined "u1") (request none) made).0 ≡ 401
unfolding serve require_write require_read check_token compare_digest is_ascii route add_quarantine
refused = refl

crashes : status (serve server config (lift_quarantined "u1") (request (some "é")) made).0 ≡ 500
unfolding memory serve require_write require_read check_token compare_digest is_ascii route
    add_quarantine
crashes = refl

abbrev scan : server.Db → String → List String
scan db prefix = []

abbrev ping : server.Db → Option String
ping db = none

lifespan_guards_example :
    ((token_of (some "t") ≡ none)
      × Open server config scan ping "" (lifespan (some "t") (nothing ℕ leb)))
    ⊎ ((t : String) × (some "t" ≡ some t)
        × (t ≢ "")
        × Guarded server config scan ping "" t (lifespan (some "t") (nothing ℕ leb)))
lifespan_guards_example = lifespan_guards server config scan ping "" (some "t") (nothing ℕ leb)
