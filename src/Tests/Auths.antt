-- ===== src/Tests/Auths.antt =====
-- Passwords of connections.
use pgxporter.Prelude.{String, ◌<>◌, ◌≡◌, refl, none, some, ℕ, ◌==◌, if◌then◌else◌}
use pgxporter.Prelude.Int.{pos}
use pgxporter.Prelude.Decimal.{show_ℤ}
use pgxporter.Collectors.{Fetched, rows, failed}
use pgxporter.Db.Auth.{
  ConnConfig, PoolConfig, parsed_mode, rds_provider, open_connection, new_default,
}

abbrev conn : ConnConfig
conn = record { host = "db.local"; port = pos 5432; user = "app"; password = "" }

abbrev parsed : PoolConfig
parsed = record { conn_config = conn; default_query_exec_mode = parsed_mode; before_connect = none }

-- A token that says what it was built from, and no token in the fourth call.
abbrev build_auth_token : ℕ → String → String → String → String → Fetched String
build_auth_token n endpoint region user c =
    if n == 3
    then failed "no credentials"
    else rows (endpoint <> ("/" <> (region <> ("/" <> user))))

open_connection_text :
    open_connection "prepare"
      (some
        (rds_provider build_auth_token (record { region = "eu-west-1"; credentials = some "key" })))
      (rows parsed)
      2
    ≡ rows (record conn { password = "db.local:5432/eu-west-1/app" })
unfolding open_connection rds_provider show_ℤ
open_connection_text = refl

open_connection-failed :
    open_connection "prepare"
      (some
        (rds_provider build_auth_token (record { region = "eu-west-1"; credentials = some "key" })))
      (rows parsed)
      3
    ≡ failed "auth provider: no credentials"
unfolding open_connection rds_provider show_ℤ
open_connection-failed = refl

new_default-failed :
    new_default {Credentials = String} (λ region. failed "no home") "eu-west-1"
    ≡ failed "loading AWS default config: no home"
unfolding new_default
new_default-failed = refl
