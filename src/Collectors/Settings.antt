-- ===== src/Collectors/Settings.antt =====
-- exporter/collectors/pg_settings.go: PgSettingsCollector, with its row from exporter/db/model/model.go.
use pgxporter.Prelude.{String, refl, List, [], ◌∷◌, All, ◌&&◌}
use pgxporter.Prometheus.{Prom}
use pgxporter.Emit.{
  Float8, Text, Action, Decl, for_each, in_order, emit_float, keep_if, valid, string,
}
use pgxporter.Emit.Shapes.{IsDeclared}
use pgxporter.Emit.Declared.{
  declared, in_order-IsDeclared, for_each-IsDeclared, all_fit, keep_if-IsDeclared,
}
use pgxporter.Emit.Labelled.{
  IsLabelled, in_order-IsLabelled, for_each-IsLabelled, keep_if-IsLabelled,
}
use pgxporter.Collectors.Names.{Namespaces, gauge_factory_raw_pg}
use pgxporter.Collectors.{
  Fetched, Outcome, scraped, scraped-IsDeclared, of_rows, scraped-IsLabelled, Collector, names_all,
}

pub record PgSetting (P : Prom) : Type 0 where
  pub database : Text
  pub name : Text
  pub unit : Text
  pub var_type : Text
  pub value : Float8 P

pub new_pg_settings_collector : Namespaces → List Decl
new_pg_settings_collector n =
    let labels : List String = "database" ∷ "name" ∷ "unit" ∷ "vartype" ∷ [] in
    let gauge = gauge_factory_raw_pg n "settings" labels in
    gauge "value" "value" "Value of the pg_settings entry (bool as 0/1, integer/real as numeric)"
    ∷ []

pub describe : List String
describe = "value" ∷ []

pub collect_into : List String
collect_into = "value" ∷ []

module _ (P : Prom) where
  emit_row : (PgSetting P) → List (Action P)
  emit_row stat =
      let labels =
        string stat.database ∷ string stat.name ∷ string stat.unit ∷ string stat.var_type ∷ [] in
      keep_if (valid stat.name && valid stat.value)
        (in_order (emit_float "value" stat.value labels ∷ []))

  pub emit : List (PgSetting P) → List (Action P)
  unfolding emit_row
  emit = for_each emit_row

  pub scrape : Fetched (List (PgSetting P)) → Outcome P
  scrape = scraped "pg_settings: " emit

  module _ (n : Namespaces) where
    emit_row-IsDeclared :
        (stat : (PgSetting P))
        → All (IsDeclared (declared (new_pg_settings_collector n))) (emit_row stat)
    unfolding emit_row new_pg_settings_collector all_fit emit_float
    emit_row-IsDeclared stat = keep_if-IsDeclared P _ _ _ (in_order-IsDeclared P _ _ refl)

    emit_row-IsLabelled :
        (stat : (PgSetting P)) → All (IsLabelled (string stat.database)) (emit_row stat)
    unfolding emit_row emit_float
    emit_row-IsLabelled stat = keep_if-IsLabelled P _ _ _ (in_order-IsLabelled P _ _ refl)

    pub collector : Collector P
    unfolding describe collect_into new_pg_settings_collector scrape emit names_all
    collector = record {
      scrape_prefix = "scraping: ";
      Input = Fetched (List (PgSetting P));
      decls = new_pg_settings_collector n;
      describe = describe;
      collect_into = collect_into;
      scrape = scrape;
      scrape-IsDeclared =
          scraped-IsDeclared P _ _ _ (for_each-IsDeclared P _ emit_row emit_row-IsDeclared);
      databases = of_rows (λ stat. string stat.database);
      scrape-IsLabelled =
          scraped-IsLabelled P _ _ _
            (for_each-IsLabelled P emit_row (λ stat. string stat.database) emit_row-IsLabelled);
      describes_all = refl;
      collects_all = refl;
    }
