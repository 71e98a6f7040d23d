-- ===== src/Collectors/Ssl.antt =====
-- exporter/collectors/pg_stat_ssl.go: PgStatSSLCollector, with its row from exporter/db/model/model.go.
use pgxporter.Prelude.{String, refl, List, [], ◌∷◌, All, ◌&&◌}
use pgxporter.Prelude.Decimal.{show_ℤ}
use pgxporter.Prometheus.{Prom}
use pgxporter.Emit.{
  Int8, PgBool, Text, Action, Decl, for_each, in_order, emit_gauge, keep_if, valid, string,
  format_bool, bool, int64,
}
use pgxporter.Emit.Shapes.{IsDeclared}
use pgxporter.Emit.Declared.{
  declared, in_order-IsDeclared, for_each-IsDeclared, all_fit, keep_if-IsDeclared,
}
use pgxporter.Emit.Labelled.{
  IsLabelled, in_order-IsLabelled, for_each-IsLabelled, keep_if-IsLabelled,
}
use pgxporter.Collectors.Names.{Namespaces, gauge_factory}
use pgxporter.Collectors.{
  Fetched, Outcome, scraped, scraped-IsDeclared, of_rows, scraped-IsLabelled, Collector, names_all,
}

pub record PgStatSsl : Type 0 where
  pub database : Text
  pub ssl : PgBool
  pub version : Text
  pub cipher : Text
  pub bits : Int8
  pub connections : Int8

pub new_pg_stat_ssl_collector : Namespaces → List Decl
new_pg_stat_ssl_collector n =
    let labels : List String = "database" ∷ "ssl" ∷ "version" ∷ "cipher" ∷ "bits" ∷ [] in
    let gauge = gauge_factory n "ssl" labels in
    gauge "connections" "connections" "Number of connections grouped by TLS parameters" ∷ []

pub describe : List String
describe = "connections" ∷ []

pub collect_into : List String
collect_into = "connections" ∷ []

module _ (P : Prom) where
  emit_row : PgStatSsl → List (Action P)
  emit_row stat =
      let labels =
        string stat.database
        ∷ format_bool (bool stat.ssl)
        ∷ string stat.version
        ∷ string stat.cipher
        ∷ show_ℤ (int64 stat.bits)
        ∷ [] in
      keep_if (valid stat.ssl && valid stat.connections)
        (in_order (emit_gauge "connections" stat.connections labels ∷ []))

  pub emit : List PgStatSsl → List (Action P)
  unfolding emit_row
  emit = for_each emit_row

  pub scrape : Fetched (List PgStatSsl) → Outcome P
  scrape = scraped "ssl stats: " emit

  module _ (n : Namespaces) where
    emit_row-IsDeclared :
        (stat : PgStatSsl)
        → All (IsDeclared (declared (new_pg_stat_ssl_collector n))) (emit_row stat)
    unfolding emit_row new_pg_stat_ssl_collector all_fit emit_gauge
    emit_row-IsDeclared stat = keep_if-IsDeclared P _ _ _ (in_order-IsDeclared P _ _ refl)

    emit_row-IsLabelled :
        (stat : PgStatSsl) → All (IsLabelled (string stat.database)) (emit_row stat)
    unfolding emit_row emit_gauge
    emit_row-IsLabelled stat = keep_if-IsLabelled P _ _ _ (in_order-IsLabelled P _ _ refl)

    pub collector : Collector P
    unfolding describe collect_into new_pg_stat_ssl_collector scrape emit names_all
    collector = record {
      scrape_prefix = "scraping: ";
      Input = Fetched (List PgStatSsl);
      decls = new_pg_stat_ssl_collector n;
      describe = describe;
      collect_into = collect_into;
      scrape = scrape;
      scrape-IsDeclared =
          scraped-IsDeclared P _ _ _ (for_each-IsDeclared P _ emit_row emit_row-IsDeclared);
      databases = of_rows (λ stat. string stat.database);
      scrape-IsLabelled =
          scraped-IsLabelled P _ _ _
            (for_each-IsLabelled P emit_row (λ stat. string stat.database) emit_row-IsLabelled);
      describes_all = refl;
      collects_all = refl;
    }
