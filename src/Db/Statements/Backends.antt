-- ===== src/Db/Statements/Backends.antt =====
-- exporter/db/pg_*.go: the Select methods for the backends, their locks and what they run.
use pgxporter.Prelude.{Option, some, [], ◌∷◌}
use pgxporter.Db.{Client}
use pgxporter.Db.Statements.{Query}

abbrev pub pg_stat_activity_query : Query
pg_stat_activity_query = record {
  columns =
      "current_database() AS database" ∷ "COALESCE(datname, '') AS datname"
      ∷ "COALESCE(state, 'disabled') AS state"
      ∷ "COALESCE(wait_event_type, 'none') AS wait_event_type"
      ∷ "COALESCE(backend_type, 'unknown') AS backend_type" ∷ "count(*) AS count"
      ∷ "COALESCE(MAX(EXTRACT(EPOCH FROM now() - xact_start))::float8, 0) AS max_tx_duration_seconds"
      ∷ "COALESCE(MAX(EXTRACT(EPOCH FROM now() - query_start))::float8, 0) AS max_query_duration_seconds"
      ∷ "COALESCE(MAX(EXTRACT(EPOCH FROM now() - backend_start))::float8, 0) AS max_backend_age_seconds"
      ∷ [];
  source = "pg_stat_activity GROUP BY datname, state, wait_event_type, backend_type";
}

unfoldable pub select_pg_stat_activity : Client → Client × Option Query
select_pg_stat_activity c = (c, some pg_stat_activity_query)

abbrev pub pg_locks_query : Query
pg_locks_query = record {
  columns =
      "current_database() AS database" ∷ "COALESCE(pg_database.datname, '') AS datname" ∷ "mode"
      ∷ "locktype" ∷ "granted" ∷ "count(*) AS count" ∷ [];
  source =
      "pg_locks LEFT JOIN pg_database ON pg_database.oid = pg_locks.database GROUP BY pg_database.datname, mode, locktype, granted";
}

unfoldable pub select_pg_locks : Client → Client × Option Query
select_pg_locks c = (c, some pg_locks_query)

abbrev pub pg_locks_blocking_summary_query : Query
pg_locks_blocking_summary_query = record {
  columns =
      "current_database() AS database"
      ∷ "COUNT(*) FILTER (WHERE cardinality(pg_blocking_pids(pid)) > 0)::bigint AS blocked_backends"
      ∷ "COALESCE(SUM(cardinality(pg_blocking_pids(pid))), 0)::bigint AS blocker_edges" ∷ [];
  source = "pg_stat_activity WHERE state IS NOT NULL";
}

unfoldable pub select_pg_locks_blocking_summary : Client → Client × Option Query
select_pg_locks_blocking_summary c = (c, some pg_locks_blocking_summary_query)

abbrev pub pg_stat_ssl_query : Query
pg_stat_ssl_query = record {
  columns =
      "current_database() AS database" ∷ "ssl" ∷ "coalesce(version, '') AS version"
      ∷ "coalesce(cipher, '') AS cipher" ∷ "coalesce(bits, 0) AS bits" ∷ "count(*) AS connections"
      ∷ [];
  source = "pg_stat_ssl GROUP BY ssl, version, cipher, bits";
}

unfoldable pub select_pg_stat_ssl : Client → Client × Option Query
select_pg_stat_ssl c = (c, some pg_stat_ssl_query)

abbrev pub pg_settings_query : Query
pg_settings_query = record {
  columns =
      "current_database() AS database" ∷ "name" ∷ "coalesce(unit, '') AS unit" ∷ "vartype"
      ∷ "CASE WHEN vartype = 'bool' THEN CASE WHEN setting = 'on' THEN 1 ELSE 0 END WHEN setting ~ '^-?[0-9]+(\\.[0-9]+)?$' THEN setting::float8 ELSE 0 END AS value"
      ∷ [];
  source = "pg_settings WHERE vartype IN ('bool', 'integer', 'real')";
}

unfoldable pub select_pg_settings : Client → Client × Option Query
select_pg_settings c = (c, some pg_settings_query)

abbrev pub pg_database_size_query : Query
pg_database_size_query = record {
  columns =
      "current_database() AS database" ∷ "datname" ∷ "pg_database_size(datname) AS bytes" ∷ [];
  source = "pg_database WHERE datallowconn AND NOT datistemplate";
}

unfoldable pub select_pg_database_size : Client → Client × Option Query
select_pg_database_size c = (c, some pg_database_size_query)

abbrev pub pg_stat_statements_query : Query
pg_stat_statements_query = record {
  columns =
      "current_database() as database" ∷ "t2.rolname" ∷ "t3.datname" ∷ "queryid"
      ∷ "concat(left(query, 200), '__@',queryid::text, '__', length(query)) as query" ∷ "calls"
      ∷ "total_time / 1000 as total_time_seconds" ∷ "min_time / 1000 as min_time_seconds"
      ∷ "max_time / 1000 as max_time_seconds" ∷ "mean_time / 1000 as mean_time_seconds"
      ∷ "stddev_time / 1000 as stddev_time_seconds" ∷ "rows" ∷ "shared_blks_hit"
      ∷ "shared_blks_read" ∷ "shared_blks_dirtied" ∷ "shared_blks_written" ∷ "local_blks_hit"
      ∷ "local_blks_read" ∷ "local_blks_dirtied" ∷ "local_blks_written" ∷ "temp_blks_read"
      ∷ "temp_blks_written" ∷ "blk_read_time / 1000 as blk_read_time_seconds"
      ∷ "blk_write_time / 1000 as blk_write_time_seconds" ∷ [];
  source =
      "pg_stat_statements t1 JOIN pg_roles t2 ON (t1.userid=t2.oid) JOIN pg_database t3 ON (t1.dbid=t3.oid) WHERE t2.rolname != 'rdsadmin'";
}

unfoldable pub select_pg_stat_statements : Client → Client × Option Query
select_pg_stat_statements c = (c, some pg_stat_statements_query)
