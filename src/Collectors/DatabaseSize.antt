-- ===== src/Collectors/DatabaseSize.antt =====
-- exporter/collectors/pg_database_size.go: PgDatabaseSizeCollector, with its row from exporter/db/model/model.go.
use pgxporter.Prelude.{String, refl, List, [], ◌∷◌, All}
use pgxporter.Prometheus.{Prom}
use pgxporter.Emit.{Int8, Text, Action, Decl, for_each, in_order, emit_gauge, string}
use pgxporter.Emit.Shapes.{IsDeclared}
use pgxporter.Emit.Declared.{declared, in_order-IsDeclared, for_each-IsDeclared, all_fit}
use pgxporter.Emit.Labelled.{IsLabelled, in_order-IsLabelled, for_each-IsLabelled}
use pgxporter.Collectors.Names.{Namespaces, gauge_factory_raw_pg}
use pgxporter.Collectors.{
  Fetched, Outcome, scraped, scraped-IsDeclared, of_rows, scraped-IsLabelled, Collector, names_all,
}

pub record PgDatabaseSize : Type 0 where
  pub database : Text
  pub dat_name : Text
  pub bytes : Int8

pub new_pg_database_size_collector : Namespaces → List Decl
new_pg_database_size_collector n =
    let labels : List String = "database" ∷ "datname" ∷ [] in
    let gauge = gauge_factory_raw_pg n "database" labels in
    gauge "size_bytes" "size_bytes" "Disk space used by the database, in bytes" ∷ []

pub describe : List String
describe = "size_bytes" ∷ []

pub collect_into : List String
collect_into = "size_bytes" ∷ []

module _ (P : Prom) where
  emit_row : PgDatabaseSize → List (Action P)
  emit_row stat =
      in_order
        (emit_gauge "size_bytes" stat.bytes (string stat.database ∷ string stat.dat_name ∷ []) ∷ [])

  pub emit : List PgDatabaseSize → List (Action P)
  unfolding emit_row
  emit = for_each emit_row

  pub scrape : Fetched (List PgDatabaseSize) → Outcome P
  scrape = scraped "database size: " emit

  module _ (n : Namespaces) where
    emit_row-IsDeclared :
        (stat : PgDatabaseSize)
        → All (IsDeclared (declared (new_pg_database_size_collector n))) (emit_row stat)
    unfolding emit_row new_pg_database_size_collector all_fit emit_gauge
    emit_row-IsDeclared stat = in_order-IsDeclared P _ _ refl

    emit_row-IsLabelled :
        (stat : PgDatabaseSize) → All (IsLabelled (string stat.database)) (emit_row stat)
    unfolding emit_row emit_gauge
    emit_row-IsLabelled stat = in_order-IsLabelled P _ _ refl

    pub collector : Collector P
    unfolding describe collect_into new_pg_database_size_collector scrape emit names_all
    collector = record {
      scrape_prefix = "scraping: ";
      Input = Fetched (List PgDatabaseSize);
      decls = new_pg_database_size_collector n;
      describe = describe;
      collect_into = collect_into;
      scrape = scrape;
      scrape-IsDeclared =
          scraped-IsDeclared P _ _ _ (for_each-IsDeclared P _ emit_row emit_row-IsDeclared);
      databases = of_rows (λ stat. string stat.database);
      scrape-IsLabelled =
          scraped-IsLabelled P _ _ _
            (for_each-IsLabelled P emit_row (λ stat. string stat.database) emit_row-IsLabelled);
      describes_all = refl;
      collects_all = refl;
    }
