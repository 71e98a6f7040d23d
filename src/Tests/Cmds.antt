-- ===== src/Tests/Cmds.antt =====
-- The command.
use pgxporter.Prelude.{String, ◌≡◌, refl, none, some, Option, [], ◌∷◌, arith}
use pgxporter.Prelude.Bytes.{Bytes, codes}
use pgxporter.Prelude.Url.{is_unreserved}
use pgxporter.Prelude.Uri.{Uri, parse_uri}
use pgxporter.Prelude.Int.{ℤ}
use pgxporter.Vec.{lookup}
use pgxporter.Collectors.{Fetched, rows, failed}
use pgxporter.Db.Dsn.{dsn}
use pgxporter.Cmd.{
  Config, CmdOpts, application_name_or, opts_of, parse_dsn, info, warn, logs_at, opens, registers,
  listens, shuts_server, shuts_exporter, exits, signalled, listener_failed, main,
}
use pgxporter.Cmd.Options.{IsWritable, Reads, parse_dsn-Reads}
use pgxporter.Cmd.Runs.{EndsFrom, started, main-EndsFrom}

abbrev whole_seconds : ℤ → Bytes
whole_seconds d = codes "60s"

abbrev cfg : Config
cfg = record {
  host = codes "db.local";
  port = 5433;
  user = codes "app";
  password = codes "p@ss";
  database = codes "postgres";
  runtime_params = ("application_name", []) ∷ ("search_path", codes "public") ∷ [];
}

-- A parser that takes one text.
abbrev parse_config : Bytes → Fetched Config
parse_config [] = failed "empty"
parse_config (c ∷ text) = rows cfg

abbrev source : Bytes
source = codes "host=db.local port=5433 user=app password=p@ss dbname=postgres"

cfg-IsWritable : IsWritable whole_seconds cfg
unfolding codes is_unreserved application_name_or lookup
cfg-IsWritable = record {
  user = omega arith;
  password = omega arith;
  database = omega arith;
  application_name = omega arith;
  host = (refl, (refl, (refl, (refl, (refl, (refl, (refl, (refl, tt))))))));
  times = λ d. omega arith;
}

parse_config-source : parse_config source ≡ rows cfg
unfolding codes
parse_config-source = refl

parse_dsn-Reads_example :
    (opts : CmdOpts) × (u : Uri) × (parse_dsn parse_config source ≡ rows opts)
    × (parse_uri (dsn whole_seconds opts.dsn_opts) ≡ some u)
    × Reads whole_seconds cfg u
parse_dsn-Reads_example =
    parse_dsn-Reads whole_seconds parse_config source cfg parse_config-source cfg-IsWritable

abbrev opens_all : CmdOpts → Option String
opens_all opts = none

main-EndsFrom_example :
    EndsFrom source parse_config opens_all none signalled started
      (main "warn" source parse_config opens_all none signalled)
main-EndsFrom_example = main-EndsFrom source parse_config opens_all "warn" none signalled

main-signalled :
    main "warn" source parse_config opens_all none signalled
    ≡ logs_at warn ∷ opens (opts_of cfg) ∷ registers ∷ listens ∷ shuts_server ∷ shuts_exporter ∷ []
unfolding main codes
main-signalled = refl

main-empty : main "loud" [] parse_config opens_all none signalled ≡ logs_at info ∷ exits 2 ∷ []
unfolding main
main-empty = refl

main-port_taken :
    main "warn" source parse_config opens_all none (listener_failed "in use")
    ≡ logs_at warn ∷ opens (opts_of cfg) ∷ registers ∷ listens ∷ exits 1 ∷ []
unfolding main codes
main-port_taken = refl
