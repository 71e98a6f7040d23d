-- ===== src/Collectors/Slru.antt =====
-- exporter/collectors/pg_stat_slru.go: PgStatSLRUCollector, with its row from exporter/db/model/model.go.
use pgxporter.Prelude.{String, refl, List, [], ◌∷◌, All}
use pgxporter.Prometheus.{Prom}
use pgxporter.Emit.{
  Int8, Text, Timestamptz, Action, Decl, emit_counter, emit_time, for_each, in_order, string,
}
use pgxporter.Emit.Shapes.{IsDeclared}
use pgxporter.Emit.Declared.{declared, in_order-IsDeclared, for_each-IsDeclared, all_fit}
use pgxporter.Emit.Labelled.{IsLabelled, in_order-IsLabelled, for_each-IsLabelled}
use pgxporter.Collectors.Names.{Namespaces, counter_factory, gauge_factory}
use pgxporter.Collectors.{
  Fetched, Outcome, scraped, scraped-IsDeclared, of_rows, scraped-IsLabelled, Collector, names_all,
}

pub record PgStatSlru : Type 0 where
  pub database : Text
  pub name : Text
  pub blks_zeroed : Int8
  pub blks_hit : Int8
  pub blks_read : Int8
  pub blks_written : Int8
  pub blks_exists : Int8
  pub flushes : Int8
  pub truncates : Int8
  pub stats_reset : Timestamptz

pub new_pg_stat_slru_collector : Namespaces → List Decl
new_pg_stat_slru_collector n =
    let labels : List String = "database" ∷ "name" ∷ [] in
    let counter = counter_factory n "slru" labels in
    let gauge = gauge_factory n "slru" labels in
    counter "blks_zeroed" "blks_zeroed_total" "Blocks zeroed during initialisation"
    ∷ counter "blks_hit" "blks_hit_total" "Times a disk block was found in the SLRU"
    ∷ counter "blks_read" "blks_read_total" "Disk blocks read for the SLRU"
    ∷ counter "blks_written" "blks_written_total" "Disk blocks written for the SLRU"
    ∷ counter "blks_exists" "blks_exists_total" "Blocks checked for existence for the SLRU"
    ∷ counter "flushes" "flushes_total" "SLRU flushes issued"
    ∷ counter "truncates" "truncates_total" "SLRU truncates issued"
    ∷ gauge "stats_reset" "stats_reset_timestamp_seconds"
        "Unix time at which these stats were last reset"
    ∷ []

pub describe : List String
describe =
    "blks_zeroed" ∷ "blks_hit" ∷ "blks_read" ∷ "blks_written" ∷ "blks_exists" ∷ "flushes"
    ∷ "truncates" ∷ "stats_reset" ∷ []

pub collect_into : List String
collect_into =
    "blks_zeroed" ∷ "blks_hit" ∷ "blks_read" ∷ "blks_written" ∷ "blks_exists" ∷ "flushes"
    ∷ "truncates" ∷ "stats_reset" ∷ []

module _ (P : Prom) where
  emit_row : PgStatSlru → List (Action P)
  emit_row stat =
      let labels = string stat.database ∷ string stat.name ∷ [] in
      in_order (
        emit_counter "blks_zeroed" stat.blks_zeroed labels
        ∷ emit_counter "blks_hit" stat.blks_hit labels
        ∷ emit_counter "blks_read" stat.blks_read labels
        ∷ emit_counter "blks_written" stat.blks_written labels
        ∷ emit_counter "blks_exists" stat.blks_exists labels
        ∷ emit_counter "flushes" stat.flushes labels
        ∷ emit_counter "truncates" stat.truncates labels
        ∷ emit_time "stats_reset" stat.stats_reset labels
        ∷ [])

  unfoldable pub emit : List PgStatSlru → List (Action P)
  unfolding emit_row
  emit = for_each emit_row

  unfoldable pub scrape : Fetched (List PgStatSlru) → Outcome P
  unfolding emit
  scrape = scraped "slru stats: " emit

  module _ (n : Namespaces) where
    emit_row-IsDeclared :
        (stat : PgStatSlru)
        → All (IsDeclared (declared (new_pg_stat_slru_collector n))) (emit_row stat)
    unfolding emit_row new_pg_stat_slru_collector all_fit emit_counter emit_time
    emit_row-IsDeclared stat = in_order-IsDeclared P _ _ refl

    emit_row-IsLabelled :
        (stat : PgStatSlru) → All (IsLabelled (string stat.database)) (emit_row stat)
    unfolding emit_row emit_counter emit_time
    emit_row-IsLabelled stat = in_order-IsLabelled P _ _ refl

    pub collector : Collector P
    unfolding describe collect_into new_pg_stat_slru_collector scrape emit names_all
    collector = record {
      scrape_prefix = "scraping: ";
      Input = Fetched (List PgStatSlru);
      decls = new_pg_stat_slru_collector n;
      describe = describe;
      collect_into = collect_into;
      scrape = scrape;
      scrape-IsDeclared =
          scraped-IsDeclared P _ _ _ (for_each-IsDeclared P _ emit_row emit_row-IsDeclared);
      databases = of_rows (λ stat. string stat.database);
      scrape-IsLabelled =
          scraped-IsLabelled P _ _ _
            (for_each-IsLabelled P emit_row (λ stat. string stat.database) emit_row-IsLabelled);
      describes_all = refl;
      collects_all = refl;
    }
