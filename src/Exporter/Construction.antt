-- ===== src/Exporter/Construction.antt =====
-- exporter/exporter.go: New, with the clients that exporter/db makes and the collectors of the registry.
use pgxporter.Prelude.{
  String, ◌<>◌, ◌≡◌, refl, ap, ◌∙◌, Option, none, some, List, [], ◌∷◌, ◌++◌, map, str_eq,
  if◌then◌else◌,
}
use pgxporter.Prelude.Int.{ℤ}
use pgxporter.Registry.{CollectorEntry, NamedCollector, UnknownNames, resolve_collectors}
use pgxporter.Registry.Resolution.{chosen, resolve_collectors_lem}
use pgxporter.Collectors.{Fetched, rows, failed}
use pgxporter.Collectors.Names.{Namespaces, set_metric_prefix}
use pgxporter.Db.{Client, NewResult, client, error, nothing}
use pgxporter.Db.{Opts as DbOpts}
use pgxporter.Exporter.{SelfMetrics, new_self_metrics, collection_timeout}

-- Opts
pub record Opts : Type 0 where
  pub db_opts : List DbOpts
  pub name : String
  pub collection_timeout : ℤ
  pub metric_prefix : String
  pub enabled_collectors : List String
  pub disabled_collectors : List String

-- Exporter, with the label `database` of its self-metrics and their namespace.
pub record Exporter {ℓ} (C : Type ℓ) : Type ℓ where
  pub db_clients : List (Option Client)
  pub collectors : List (NamedCollector C)
  pub collection_timeout : ℤ
  pub const_label : Option String
  pub namespace : String
  pub self_metrics : SelfMetrics

-- What New returns.
pub data NewExporter {ℓ} (C : Type ℓ) : Type ℓ where
  made : Exporter C → NewExporter C
  refused : String → NewExporter C

-- What New leaves: the namespaces of package collectors, that of package exporter, the exporter or an
-- error, and what ResolveCollectors warns of.
pub record Constructed {ℓ} (C : Type ℓ) : Type ℓ where
  pub namespaces : Namespaces
  pub namespace : String
  pub result : NewExporter C
  pub warning : Option UnknownNames

-- What is appended to dbClients: db.New may return neither a client nor an error, which is a nil.
unfoldable pub client_of : NewResult → Fetched (Option Client)
client_of (client c) = rows (some c)
client_of (error e) = failed ("creating exporter: " <> e)
client_of nothing = rows none

unfoldable pub add_client :
    Fetched (Option Client) → Fetched (List (Option Client)) → Fetched (List (Option Client))
add_client (failed e) rest = failed e
add_client (rows c) (failed e) = failed e
add_client (rows c) (rows cs) = rows (c ∷ cs)

-- The loop over DBOpts; `connect` is db.New.
unfoldable pub open_clients : (DbOpts → NewResult) → List DbOpts → Fetched (List (Option Client))
unfolding client_of add_client
open_clients connect [] = rows []
open_clients connect (o ∷ os) = add_client (client_of (connect o)) (open_clients connect os)

unfoldable pub const_label_of : String → Option String
const_label_of name = if str_eq name "" then none else some name

-- The namespaces once the prefix is set.
unfoldable pub prefixed : String → Namespaces → Namespaces
prefixed prefix ns = if str_eq prefix "" then ns else set_metric_prefix prefix ns

module _ {ℓ} {C : Type ℓ} where
  -- The exporter of these clients, once the prefix is set.
  unfoldable pub exporter_of :
      List (CollectorEntry C) → String → Opts → List (Option Client) → Exporter C
  unfolding const_label_of
  exporter_of registry namespace opts clients =
      let resolved =
        (resolve_collectors registry opts.enabled_collectors opts.disabled_collectors).0 in
      record {
        db_clients = clients;
        collectors = resolved;
        collection_timeout = collection_timeout opts.collection_timeout;
        const_label = const_label_of opts.name;
        namespace = namespace;
        self_metrics = new_self_metrics (map (λ n. n.name) resolved);
      }

  unfoldable pub construct :
      List (CollectorEntry C)
      → Namespaces
      → String
      → Opts
      → Fetched (List (Option Client))
      → Constructed C
  unfolding exporter_of
  construct registry ns namespace opts (failed e) = record {
    namespaces = ns;
    namespace = namespace;
    result = refused e;
    warning = none;
  }
  construct registry ns namespace opts (rows clients) = record {
    namespaces = ns;
    namespace = namespace;
    result = made (exporter_of registry namespace opts clients);
    warning = (resolve_collectors registry opts.enabled_collectors opts.disabled_collectors).1;
  }

  -- New, for the list of DBOpts. The prefix is set before the collectors are made, and stays if a
  -- client cannot be made; the registry's collectors depend on the namespaces.
  unfoldable pub new_for :
      (Namespaces → List (CollectorEntry C))
      → (DbOpts → NewResult)
      → Namespaces
      → String
      → Opts
      → List DbOpts
      → Constructed C
  unfolding construct open_clients prefixed
  new_for registry connect ns namespace opts [] = record {
    namespaces = ns;
    namespace = namespace;
    result = refused "missing db opts";
    warning = none;
  }
  new_for registry connect ns namespace opts (o ∷ os) =
      let ns' = prefixed opts.metric_prefix ns in
      construct (registry ns') ns'
        (if str_eq opts.metric_prefix "" then namespace else opts.metric_prefix) opts
        (open_clients connect (o ∷ os))

  unfoldable pub new_exporter :
      (Namespaces → List (CollectorEntry C))
      → (DbOpts → NewResult)
      → Namespaces
      → String
      → Opts
      → Constructed C
  unfolding new_for
  new_exporter registry connect ns namespace opts =
      new_for registry connect ns namespace opts opts.db_opts

open_clients-opened :
    (connect : DbOpts → NewResult) (os : List DbOpts) (cs : List Client)
    → map connect os ≡ map client cs
    → open_clients connect os ≡ rows (map some cs)
unfolding open_clients client_of add_client
open_clients-opened connect [] [] h = refl
open_clients-opened connect [] (c ∷ cs) h = cc h
open_clients-opened connect (o ∷ os) [] h = cc h
open_clients-opened connect (o ∷ os) (c ∷ cs) h =
    let first : connect o ≡ client c = cc h in
    let others : map connect os ≡ map client cs = cc h in
    rw (first, open_clients-opened connect os cs others) refl

open_clients-failed :
    (connect : DbOpts → NewResult) (before after : List DbOpts) (cs : List Client) (o : DbOpts)
    (e : String)
    → map connect before ≡ map client cs
    → connect o ≡ error e
    → open_clients connect (before ++ o ∷ after) ≡ failed ("creating exporter: " <> e)
unfolding open_clients client_of add_client
open_clients-failed connect [] after cs o e h k = rw k refl
open_clients-failed connect (b ∷ bs) after [] o e h k = cc h
open_clients-failed connect (b ∷ bs) after (c ∷ cs) o e h k =
    let first : connect b ≡ client c = cc h in
    let others : map connect bs ≡ map client cs = cc h in
    rw (first, open_clients-failed connect bs after cs o e others k) refl

module _ {ℓ} {C : Type ℓ} (registry : Namespaces → List (CollectorEntry C))
    (connect : DbOpts → NewResult) (ns : Namespaces) (namespace : String) (opts : Opts) where
  -- The collectors that the registry makes under the prefix of the options.
  abbrev pub entries : List (CollectorEntry C)
  entries = registry (prefixed opts.metric_prefix ns)

  abbrev pub own_namespace : String
  own_namespace = if str_eq opts.metric_prefix "" then namespace else opts.metric_prefix

  -- If there are DBOpts and db.New gives a client for each of them, New returns an exporter with
  -- these clients, in order, and with the collectors that were asked for and not disabled, made
  -- under the namespaces of the prefix.
  pub new_exporter-made :
      (o : DbOpts) (os : List DbOpts) (cs : List Client)
      → opts.db_opts ≡ o ∷ os
      → map connect (o ∷ os) ≡ map client cs
      → (e : Exporter C) × ((new_exporter registry connect ns namespace opts).result ≡ made e)
        × (e.db_clients ≡ map some cs)
        × (e.collectors ≡ chosen opts.enabled_collectors opts.disabled_collectors entries)
  unfolding new_exporter new_for construct exporter_of
  new_exporter-made o os cs h k = (
    exporter_of entries own_namespace opts (map some cs),
    rw (h, open_clients-opened connect (o ∷ os) cs k) refl,
    refl,
    ap (λ (r : List (NamedCollector C) × Option UnknownNames). r.0)
        (resolve_collectors_lem entries opts.enabled_collectors opts.disabled_collectors),
  )

  refused-for :
      (before after : List DbOpts) (cs : List Client) (o : DbOpts) (e : String)
      → map connect before ≡ map client cs
      → connect o ≡ error e
      → new_for registry connect ns namespace opts (before ++ o ∷ after) ≡ record {
        namespaces = prefixed opts.metric_prefix ns;
        namespace = own_namespace;
        result = refused ("creating exporter: " <> e);
        warning = none;
      }
  unfolding new_for construct
  refused-for [] after cs o e k x = rw (open_clients-failed connect [] after cs o e k x) refl
  refused-for (b ∷ bs) after cs o e k x =
      rw (open_clients-failed connect (b ∷ bs) after cs o e k x) refl

  -- If db.New gives clients for the first DBOpts and then an error, New returns that error,
  -- whatever follows, and leaves the namespaces changed to the prefix.
  pub new_exporter-refused :
      (before after : List DbOpts) (cs : List Client) (o : DbOpts) (e : String)
      → opts.db_opts ≡ before ++ o ∷ after
      → map connect before ≡ map client cs
      → connect o ≡ error e
      → new_exporter registry connect ns namespace opts ≡ record {
        namespaces = prefixed opts.metric_prefix ns;
        namespace = own_namespace;
        result = refused ("creating exporter: " <> e);
        warning = none;
      }
  unfolding new_exporter
  new_exporter-refused before after cs o e h k x =
      ap (new_for registry connect ns namespace opts) h ∙ refused-for before after cs o e k x
