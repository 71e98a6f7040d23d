-- ===== src/Collectors/Names.antt =====
-- exporter/collectors/vec.go and collector.go: the factories of vecs and their namespaces.
use pgxporter.Prelude.{String, List, str_eq, if◌then◌else◌}
use pgxporter.Emit.{Kind, counter_kind, gauge_kind, Decl}

-- The package variables `namespace`, `namespaceIO` and `namespaceRawPg`.
pub record Namespaces : Type 0 where
  pub namespace : String
  pub namespace_io : String
  pub namespace_raw_pg : String

abbrev pub initial : Namespaces
initial = record { namespace = "pg_stat"; namespace_io = "pg_statio"; namespace_raw_pg = "pg" }

-- SetMetricPrefix
unfoldable pub set_metric_prefix : String → Namespaces → Namespaces
set_metric_prefix p n = record n { namespace = if str_eq p "" then "pg_stat" else p }

abbrev factory : Kind → String → String → List String → String → String → String → Decl
factory k ns sub labels field name help = record {
  field = field;
  kind = k;
  desc = record { namespace = ns; subsystem = sub; name = name; help = help; labels = labels };
}

-- Each factory closes over a subsystem and label names; the closure is given the field that its vec is
-- stored in, the metric's name and its help.
abbrev pub counter_factory : Namespaces → String → List String → String → String → String → Decl
counter_factory n = factory counter_kind n.namespace

abbrev pub counter_factory_io : Namespaces → String → List String → String → String → String → Decl
counter_factory_io n = factory counter_kind n.namespace_io

abbrev pub gauge_factory : Namespaces → String → List String → String → String → String → Decl
gauge_factory n = factory gauge_kind n.namespace

abbrev pub gauge_factory_raw_pg :
    Namespaces → String → List String → String → String → String → Decl
gauge_factory_raw_pg n = factory gauge_kind n.namespace_raw_pg
