-- ===== src/Collectors.antt =====
-- exporter/collectors: the interface that every collector fills, and one module for each view.
pub mod Names
pub mod Activity
pub mod Archiver
pub mod Bgwriter
pub mod Checkpointer
pub mod Database
pub mod DatabaseSize
pub mod Io
pub mod IoUserIndexes
pub mod IoUserTables
pub mod Locks
pub mod ProgressAnalyze
pub mod ProgressBasebackup
pub mod ProgressCluster
pub mod ProgressCopy
pub mod ProgressCreateIndex
pub mod ProgressVacuum
pub mod Replication
pub mod ReplicationSlots
pub mod Settings
pub mod Slru
pub mod Ssl
pub mod Statements
pub mod Subscription
pub mod UserIndexes
pub mod UserTables
pub mod Wal
pub mod WalReceiver
use pgxporter.Prelude.{
  String, ◌<>◌, ◌≡◌, ◌⊎◌, inl, inr, refl, Bool, true, false, Option, none, some, List, [], ◌∷◌, map,
  All, str_eq, if◌then◌else◌, ◌>>=◌,
}
use pgxporter.Prometheus.{Prom}
use pgxporter.Emit.{Action, Decl}
use pgxporter.Emit.Shapes.{Shape, IsDeclared}
use pgxporter.Emit.Declared.{declared}
use pgxporter.Emit.Labelled.{AreAll, IsLabelled}

-- What a Select method returns to a collector: the rows, or an error.
pub data Fetched (A : Type 0) : Type 0 where
  rows : A → Fetched A
  failed : String → Fetched A

pub Fetched-cases :
    {A : Type 0} (f : Fetched A) → ((a : A) × (f ≡ rows a)) ⊎ ((e : String) × (f ≡ failed e))
Fetched-cases (rows a) = inl (a, refl)
Fetched-cases (failed e) = inr (e, refl)

-- One client's part of a scrape: the calls made on the vecs, and the error returned, if any.
pub record Outcome (P : Prom) : Type 0 where
  pub calls : List (Action P)
  pub error : Option String

-- The scrape methods: a failed Select is wrapped in an error, and rows are emitted.
abbrev pub scraped :
    {P : Prom} {A : Type 0} → String → (A → List (Action P)) → Fetched A → Outcome P
scraped prefix emit (failed e) = record { calls = []; error = some (prefix <> e) }
scraped prefix emit (rows stats) = record { calls = emit stats; error = none }

pub scraped-IsDeclared :
    (P : Prom) {A : Type 0} (sh : Shape) (prefix : String) (emit : A → List (Action P))
    → ((a : A) → All (IsDeclared sh) (emit a))
    → (f : Fetched A) → All (IsDeclared sh) (scraped prefix emit f).calls
scraped-IsDeclared P sh prefix emit h (failed e) = tt
scraped-IsDeclared P sh prefix emit h (rows stats) = h stats

-- The databases that the rows name.
abbrev pub of_rows : {Row : Type 0} → (Row → String) → Fetched (List Row) → List String
of_rows database (failed e) = []
of_rows database (rows stats) = map database stats

pub scraped-IsLabelled :
    (P : Prom) {Row : Type 0} (prefix : String) (emit : List Row → List (Action P))
    (database : Row → String)
    → ((rs : List Row) (d : String) → AreAll d (map database rs) → All (IsLabelled d) (emit rs))
    → (f : Fetched (List Row)) (d : String) → AreAll d (of_rows database f)
    → All (IsLabelled d) (scraped prefix emit f).calls
scraped-IsLabelled P prefix emit database h (failed e) d k = tt
scraped-IsLabelled P prefix emit database h (rows stats) d k = h stats d k

-- The list without the first occurrence of a name, if it occurs.
unfoldable pub take_out : String → List String → Option (List String)
take_out f [] = none
take_out f (n ∷ ns) = if str_eq n f then some ns else (do r ← take_out f ns; some (n ∷ r))

-- The list names every field that is declared, once, and nothing else.
unfoldable pub names_all : List Decl → List String → Bool
unfolding take_out
names_all [] [] = true
names_all [] (n ∷ ns) = false
names_all (d ∷ ds) ns = elim (take_out d.field ns) [ none ↦ false | some r ↦ names_all ds r ]

-- A collector as the exporter drives it, with what its client relies on.
pub record Collector (P : Prom) : Type 1 where
  -- what the Select methods of one client return to it
  pub Input : Type 0
  -- what the method Scrape puts before an error
  pub scrape_prefix : String
  -- the vecs that the constructor makes
  pub decls : List Decl
  -- the fields in the order of Describe and of collectInto
  pub describe : List String
  pub collect_into : List String
  pub scrape : Input → Outcome P
  -- the databases that the rows name
  pub databases : Input → List String
  pub scrape-IsDeclared : (i : Input) → All (IsDeclared (declared decls)) (scrape i).calls
  pub scrape-IsLabelled :
      (i : Input) (d : String) → AreAll d (databases i) → All (IsLabelled d) (scrape i).calls
  pub describes_all : names_all decls describe ≡ true
  pub collects_all : names_all decls collect_into ≡ true
