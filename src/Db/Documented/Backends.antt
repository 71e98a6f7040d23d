-- ===== src/Db/Documented/Backends.antt =====
-- What PostgreSQL documents of the views of backends, locks and settings, and of pg_stat_statements.
use pgxporter.Prelude.{[], ◌∷◌}
use pgxporter.Db.Documented.{Relation, all_versions, before}

abbrev pub pg_database_size : Relation
pg_database_size = record {
  source = "pg_database WHERE datallowconn AND NOT datistemplate";
  since = 7;
  columns =
      ("current_database() AS database", all_versions)
      ∷ ("datname", all_versions)
      ∷ ("pg_database_size(datname) AS bytes", all_versions)
      ∷ [];
}

abbrev pub pg_locks : Relation
pg_locks = record {
  source =
      "pg_locks LEFT JOIN pg_database ON pg_database.oid = pg_locks.database GROUP BY pg_database.datname, mode, locktype, granted";
  since = 7;
  columns =
      ("current_database() AS database", all_versions)
      ∷ ("COALESCE(pg_database.datname, '') AS datname", all_versions)
      ∷ ("mode", all_versions)
      ∷ ("locktype", all_versions)
      ∷ ("granted", all_versions)
      ∷ ("count(*) AS count", all_versions)
      ∷ [];
}

abbrev pub pg_locks_blocking_summary : Relation
pg_locks_blocking_summary = record {
  source = "pg_stat_activity WHERE state IS NOT NULL";
  since = 9;
  columns =
      ("current_database() AS database", all_versions)
      ∷ (
        "COUNT(*) FILTER (WHERE cardinality(pg_blocking_pids(pid)) > 0)::bigint AS blocked_backends",
        all_versions,
      )
      ∷ (
        "COALESCE(SUM(cardinality(pg_blocking_pids(pid))), 0)::bigint AS blocker_edges",
        all_versions,
      )
      ∷ [];
}

abbrev pub pg_settings : Relation
pg_settings = record {
  source = "pg_settings WHERE vartype IN ('bool', 'integer', 'real')";
  since = 7;
  columns =
      ("current_database() AS database", all_versions)
      ∷ ("name", all_versions)
      ∷ ("coalesce(unit, '') AS unit", all_versions)
      ∷ ("vartype", all_versions)
      ∷ (
        "CASE WHEN vartype = 'bool' THEN CASE WHEN setting = 'on' THEN 1 ELSE 0 END WHEN setting ~ '^-?[0-9]+(\\.[0-9]+)?$' THEN setting::float8 ELSE 0 END AS value",
        all_versions,
      )
      ∷ [];
}

abbrev pub pg_stat_activity : Relation
pg_stat_activity = record {
  source = "pg_stat_activity GROUP BY datname, state, wait_event_type, backend_type";
  since = 7;
  columns =
      ("current_database() AS database", all_versions)
      ∷ ("COALESCE(datname, '') AS datname", all_versions)
      ∷ ("COALESCE(state, 'disabled') AS state", all_versions)
      ∷ ("COALESCE(wait_event_type, 'none') AS wait_event_type", all_versions)
      ∷ ("COALESCE(backend_type, 'unknown') AS backend_type", all_versions)
      ∷ ("count(*) AS count", all_versions)
      ∷ (
        "COALESCE(MAX(EXTRACT(EPOCH FROM now() - xact_start))::float8, 0) AS max_tx_duration_seconds",
        all_versions,
      )
      ∷ (
        "COALESCE(MAX(EXTRACT(EPOCH FROM now() - query_start))::float8, 0) AS max_query_duration_seconds",
        all_versions,
      )
      ∷ (
        "COALESCE(MAX(EXTRACT(EPOCH FROM now() - backend_start))::float8, 0) AS max_backend_age_seconds",
        all_versions,
      )
      ∷ [];
}

abbrev pub pg_stat_ssl : Relation
pg_stat_ssl = record {
  source = "pg_stat_ssl GROUP BY ssl, version, cipher, bits";
  since = 9;
  columns =
      ("current_database() AS database", all_versions)
      ∷ ("ssl", all_versions)
      ∷ ("coalesce(version, '') AS version", all_versions)
      ∷ ("coalesce(cipher, '') AS cipher", all_versions)
      ∷ ("coalesce(bits, 0) AS bits", all_versions)
      ∷ ("count(*) AS connections", all_versions)
      ∷ [];
}

abbrev pub pg_stat_statements : Relation
pg_stat_statements = record {
  source =
      "pg_stat_statements t1 JOIN pg_roles t2 ON (t1.userid=t2.oid) JOIN pg_database t3 ON (t1.dbid=t3.oid) WHERE t2.rolname != 'rdsadmin'";
  since = 8;
  columns =
      ("current_database() as database", all_versions)
      ∷ ("t2.rolname", all_versions)
      ∷ ("t3.datname", all_versions)
      ∷ ("queryid", all_versions)
      ∷ (
        "concat(left(query, 200), '__@',queryid::text, '__', length(query)) as query", all_versions,
      )
      ∷ ("calls", all_versions)
      ∷ ("total_time / 1000 as total_time_seconds", before 13)
      ∷ ("min_time / 1000 as min_time_seconds", before 13)
      ∷ ("max_time / 1000 as max_time_seconds", before 13)
      ∷ ("mean_time / 1000 as mean_time_seconds", before 13)
      ∷ ("stddev_time / 1000 as stddev_time_seconds", before 13)
      ∷ ("rows", all_versions)
      ∷ ("shared_blks_hit", all_versions)
      ∷ ("shared_blks_read", all_versions)
      ∷ ("shared_blks_dirtied", all_versions)
      ∷ ("shared_blks_written", all_versions)
      ∷ ("local_blks_hit", all_versions)
      ∷ ("local_blks_read", all_versions)
      ∷ ("local_blks_dirtied", all_versions)
      ∷ ("local_blks_written", all_versions)
      ∷ ("temp_blks_read", all_versions)
      ∷ ("temp_blks_written", all_versions)
      ∷ ("blk_read_time / 1000 as blk_read_time_seconds", before 17)
      ∷ ("blk_write_time / 1000 as blk_write_time_seconds", before 17)
      ∷ [];
}
