-- ===== src/Exporter.antt =====
-- exporter/exporter.go: the exporter, its self-metrics and the loop of Collect.
pub mod Construction
pub mod Counting
pub mod Errors
pub mod Extension
pub mod Metrics
pub mod Naming
pub mod Shutdown
use pgxporter.Prelude.{
  ℕ, zero, suc, ◌+◌, ◌*◌, String, ◌<>◌, Bool, true, false, Option, none, some, List, [], ◌∷◌, ◌++◌,
  map, if◌then◌else◌, length, ◌>>=◌,
}
use pgxporter.Prelude.Int.{ℤ, pos, negsuc, ltb_ℤ}
use pgxporter.Prelude.Decimal.{show_ℕ}
use pgxporter.Vec.{lookup, insert}
use pgxporter.Registry.{NamedCollector}
use pgxporter.Collectors.{Fetched, rows, failed}

-- What the call of one collector's Scrape does: the metrics sent to its channel, the error returned,
-- and the nanoseconds it takes.
pub record Report (M : Type 0) : Type 0 where
  pub sent : List M
  pub error : Option String
  pub elapsed : ℕ

-- The self-metrics: a counter, and three vecs with the one label `collector`. A histogram is the list
-- of its observations, in nanoseconds.
pub record SelfMetrics : Type 0 where
  pub total_scrapes : ℕ
  pub scrape_duration : List (String × List ℕ)
  pub scrape_errors : List (String × ℕ)
  pub metric_cardinality : List (String × ℕ)

-- WithLabelValues makes a series with the value 0 if there is none.
abbrev pub or_else {ℓ} : {A : Type ℓ} → A → Option A → A
or_else a none = a
or_else a (some b) = b

unfoldable pub observe_duration : String → ℕ → List (String × List ℕ) → List (String × List ℕ)
observe_duration name t m = insert name (t ∷ or_else [] (lookup name m)) m

unfoldable pub inc : String → List (String × ℕ) → List (String × ℕ)
inc name m = insert name (suc (or_else 0 (lookup name m))) m

-- The error counter is incremented for an error.
unfoldable pub count_error : String → Option String → List (String × ℕ) → List (String × ℕ)
unfolding inc
count_error name none m = m
count_error name (some e) m = inc name m

-- WithLabelValues alone, as New calls it for each collector.
unfoldable pub touch : String → List (String × ℕ) → List (String × ℕ)
touch name m = insert name (or_else 0 (lookup name m)) m

unfoldable pub pre_initialise : List String → List (String × ℕ) → List (String × ℕ)
unfolding touch
pre_initialise [] m = m
pre_initialise (n ∷ ns) m = pre_initialise ns (touch n m)

-- The self-metrics that New makes for the collectors resolved.
unfoldable pub new_self_metrics : List String → SelfMetrics
unfolding pre_initialise
new_self_metrics names = record {
  total_scrapes = 0;
  scrape_duration = [];
  scrape_errors = pre_initialise names [];
  metric_cardinality = [];
}

-- time.Minute, in nanoseconds
abbrev pub default_collection_timeout : ℤ
default_collection_timeout = pos (60 * 1000000000)

unfoldable pub collection_timeout : ℤ → ℤ
collection_timeout (pos zero) = default_collection_timeout
collection_timeout t = t

-- scrapeContext: the deadline, if there is one.
unfoldable pub scrape_context : ℤ → Option ℤ
scrape_context t = if ltb_ℤ t (pos 0) then none else some t

-- What Collect sends.
pub data Sample (M : Type 0) : Type 0 where
  scraped : M → Sample M
  up : Bool → Sample M
  total : ℕ → Sample M
  duration : String → List ℕ → Sample M
  errors : String → ℕ → Sample M
  cardinality : String → ℕ → Sample M

unfoldable pub is_none {ℓ} : {A : Type ℓ} → Option A → Bool
is_none none = true
is_none (some a) = false

module _ {M : Type 0} where
  -- instrument, once the forwarder has sent everything: close returns the number sent.
  unfoldable pub instrument : String × Report M → SelfMetrics → SelfMetrics
  unfolding observe_duration count_error
  instrument (name, r) s = record s {
    scrape_duration = observe_duration name r.elapsed s.scrape_duration;
    metric_cardinality = insert name (length r.sent) s.metric_cardinality;
    scrape_errors = count_error name r.error s.scrape_errors;
  }

  -- The goroutines of Collect, in the order in which they return.
  unfoldable pub instrument_all : List (String × Report M) → SelfMetrics → SelfMetrics
  unfolding instrument
  instrument_all [] s = s
  instrument_all (r ∷ rs) s = instrument_all rs (instrument r s)

  -- The error that Wait returns.
  unfoldable pub wait : List (String × Report M) → Option String
  wait [] = none
  wait ((name, r) ∷ rs) = elim r.error [ none ↦ wait rs | some e ↦ some e ]

  -- What Collect sends after Wait.
  unfoldable pub self_samples : Bool → SelfMetrics → List (Sample M)
  self_samples ok s =
      up ok ∷ total s.total_scrapes ∷ map (λ x. duration x.0 x.1) s.scrape_duration
      ++ map (λ x. errors x.0 x.1) s.scrape_errors
      ++ map (λ x. cardinality x.0 x.1) s.metric_cardinality

  -- Collect, under its mutex. `finished` are the collectors with what they report, in the order in
  -- which they return, and `forwarded` is what the forwarders have sent until then.
  unfoldable pub collect :
      List (String × Report M) → List M → SelfMetrics → SelfMetrics × List (Sample M)
  unfolding instrument_all wait self_samples is_none
  collect finished forwarded s =
      let s' = instrument_all finished (record s { total_scrapes = suc s.total_scrapes }) in
      (s', map scraped forwarded ++ self_samples (is_none (wait finished)) s')

-- HealthCheck: what CheckConnection returns for the clients, in the order in which they return.
unfoldable pub health_check : List (Option String) → Option String
health_check [] = none
health_check (none ∷ rest) = health_check rest
health_check (some e ∷ rest) = some e

-- Describe: the descriptors of the five self-metrics, then those of each collector.
unfoldable pub describe {ℓ} : {D : Type ℓ} → List D → List (List D) → List D
describe own [] = own
describe own (ds ∷ rest) = describe (own ++ ds) rest

-- WithCustomCollectors: the loop over `cs` from its index `i` on.
unfoldable pub custom_name : ℕ → String
custom_name n = "custom_" <> show_ℕ n

module _ {ℓ} {C : Type ℓ} where
  unfoldable pub append_custom : ℕ → List C → List (NamedCollector C) → List (NamedCollector C)
  unfolding custom_name
  append_custom i [] e = e
  append_custom i (c ∷ cs) e =
      append_custom (suc i) cs
        (e ++ record { name = custom_name (length e + i); collector = c } ∷ [])

  unfoldable pub with_custom_collectors : List C → List (NamedCollector C) → List (NamedCollector C)
  unfolding append_custom
  with_custom_collectors cs e = append_custom 0 cs e

  -- The loop of ExtendFromYAMLFile; `none` is a panic of NewSpecCollector.
  unfoldable pub register_specs :
      {S : Type 0}
      → (S → String)
      → (S → Option C)
      → List S
      → List (NamedCollector C)
      → Option (List (NamedCollector C))
  register_specs subsystem new_spec_collector [] e = some e
  register_specs subsystem new_spec_collector (s ∷ specs) e = do
    c ← new_spec_collector s
    register_specs subsystem new_spec_collector specs
        (e ++ record { name = "spec_" <> subsystem s; collector = c } ∷ [])

  -- ExtendFromYAMLFile, with what LoadSpecsFromFile returns.
  unfoldable pub extend :
      {S : Type 0}
      → (S → String)
      → (S → Option C)
      → Fetched (List S)
      → List (NamedCollector C)
      → Option (List (NamedCollector C) × Option String)
  unfolding register_specs
  extend subsystem new_spec_collector (failed err) e = some (e, some err)
  extend subsystem new_spec_collector (rows specs) e = do
    e' ← register_specs subsystem new_spec_collector specs e
    some (e', none)
