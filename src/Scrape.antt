-- ===== src/Scrape.antt =====
-- The Scrape methods of exporter/collectors, which all have one text: a goroutine for each client, a
-- Wait, and collectInto if none of them failed.
pub mod Complete
pub mod History
pub mod Order
use pgxporter.Prelude.{String, ◌<>◌, Option, none, some, List, [], ◌∷◌, map, ◌>>=◌}
use pgxporter.Prometheus.{Prom}
use pgxporter.Vec.{lookup}
use pgxporter.Emit.{Field, Fields, Action, run}
use pgxporter.Collectors.{Outcome, Collector}

-- What a Scrape leaves: the vecs, those whose metrics were sent to the channel, and the error.
pub record Scraped (P : Prom) : Type 0 where
  pub fields : Fields P
  pub sent : List (String × Field P)
  pub error : Option String

-- The error that Wait returns: the first one, in the order in which the goroutines return.
unfoldable pub first_error : {P : Prom} → List (Outcome P) → Option String
first_error [] = none
first_error (o ∷ os) = elim o.error [ none ↦ first_error os | some e ↦ some e ]

module _ {P : Prom} where
  -- collectInto: the children of each vec, in this order. A nil vec panics.
  pub collect : Fields P → List String → Option (List (String × Field P))
  collect fs [] = some []
  collect fs (f ∷ rest) = do x ← lookup f fs; xs ← collect fs rest; some ((f, x) ∷ xs)

  pub finish : Collector P → Fields P → Option String → Option (Scraped P)
  unfolding collect
  finish c fs (some e) =
      some (record { fields = fs; sent = []; error = some (c.scrape_prefix <> e) })
  finish c fs none = do
    sent ← collect fs c.collect_into
    some (record { fields = fs; sent = sent; error = none })

  -- `outcomes` are the goroutines in the order in which they return, and `calls` their calls in the
  -- order in which they are made. `none` is a panic.
  pub scrape : Collector P → Fields P → List (Outcome P) → List (Action P) → Option (Scraped P)
  unfolding finish
  scrape c fs outcomes calls = do fs' ← run fs calls; finish c fs' (first_error outcomes)
