-- ===== src/Tests/Clients.antt =====
-- Clients: versions and connections.
use pgxporter.Prelude.{
  ℕ, ◌+◌, ◌*◌, ◌≤◌, ◌<◌, ◌≡◌, refl, ◌⊎◌, inr, ◌↔◌, true, false, some, arith, ltb, if◌then◌else◌,
}
use pgxporter.Prelude.Int.{ℤ, pos, negsuc}
use pgxporter.Collectors.{Fetched, rows, failed}
use pgxporter.Db.{
  Opts, Client, read_committed, TxAccessMode, at_least, Attempt, opened, refused, client, error,
  new_client, new,
}
use pgxporter.Db.Version.{at_least-order}
use pgxporter.Db.Documented.{has_all}
use pgxporter.Db.Documented.Servers.{pg_stat_bgwriter}
use pgxporter.Db.Queries.{bgwriter_cols}
use pgxporter.Db.Columns.{bgwriter_cols-unknown}
use pgxporter.Db.Connect.{AreRefused, new-opened, new-gives_up, new-forever}

abbrev opts : ℤ → Opts
opts max = record {
  default_isolation_level = "READ_COMMITTED";
  read_only = true;
  max_connection_retries = max;
}

abbrev client_of : ℤ → Client
client_of v = record {
  opts = opts (pos 6);
  has_pool = true;
  tx_options = record { iso_level = read_committed; access_mode = TxAccessMode.read_only };
  server_version_num = v;
}

-- PostgreSQL 16.4, asked for 17.0: the version is not known yet, and the server answers.
at_least-order_example :
    (at_least (rows (pos (16 * 10000 + 4))) (client_of (pos 0)) (pos 17) (pos 0)).1 ≡ true
    ↔ (17 < 16) ⊎ (◌≡◌ {A = ℕ} 17 16 × (0 ≤ 4))
at_least-order_example =
    at_least-order (rows (pos (16 * 10000 + 4))) (client_of (pos 0)) 16 4 17 0
      (inr (refl, refl, refl)) (ground arith) (ground arith) (ground arith) (ground arith)

-- The first two attempts fail.
abbrev third_time : ℕ → Attempt
third_time n = if ltb n 2 then refused "refused" else opened (rows (pos 160004))

two-AreRefused : AreRefused third_time 0 2
two-AreRefused j h = ("refused", ground arith)

new-opened_example :
    new (opts (pos 6)) third_time (2 + 1)
    ≡ some (record { result = client (new_client (opts (pos 6)) (rows (pos 160004))); sleeps = 2 })
new-opened_example =
    new-opened (opts (pos 6)) third_time 6 2 (rows (pos 160004)) refl (ground arith) two-AreRefused
      refl

abbrev never : ℕ → Attempt
never n = refused "refused"

never-AreRefused : AreRefused never 0 6
never-AreRefused j h = ("refused", refl)

new-gives_up_example :
    new (opts (pos 6)) never (6 + 2) ≡ some (record { result = error "refused"; sleeps = 6 })
new-gives_up_example = new-gives_up (opts (pos 6)) never 6 "refused" refl never-AreRefused refl

new-forever_example :
    new (opts (negsuc 0)) third_time (2 + 1)
    ≡ some
        (record { result = client (new_client (opts (negsuc 0)) (rows (pos 160004))); sleeps = 0 })
new-forever_example =
    new-forever (opts (negsuc 0)) third_time 2 (rows (pos 160004)) refl two-AreRefused refl

-- A server of version 18.1 that answers only some probes, and a client that knows no version.
abbrev answers : Fetched ℤ
answers = rows (pos (18 * 10000 + 1))

abbrev times_out : Fetched ℤ
times_out = failed "timeout"

abbrev unknown : Client
unknown = client_of (pos 0)

abbrev known : Client
known = client_of (pos (18 * 10000 + 1))

bgwriter_cols-unknown_example :
    has_all pg_stat_bgwriter 18 (bgwriter_cols (failed "timeout") unknown).1 ≡ false
bgwriter_cols-unknown_example = bgwriter_cols-unknown 18 1 "timeout" unknown (ground arith) refl
