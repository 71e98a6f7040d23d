-- ===== src/Tests/Scrapes.antt =====
-- A scrape of two servers.
use pgxporter.Prelude.{
  String, ◌≡◌, ◌≢◌, refl, none, some, List, [], ◌∷◌, ◌++◌, map, All, arith, same,
}
use pgxporter.Prelude.Int.{pos}
use pgxporter.Prometheus.Model.{prom_ℤ, laws_ℤ}
use pgxporter.Vec.Keys.{is_nul_free, is_nul_free-IsNulFree}
use pgxporter.Emit.{Action, for_each, in_order, emit_counter, emit_time}
use pgxporter.Registry.{contains}
use pgxporter.Emit.Shapes.{IsSound, exported, written}
use pgxporter.Emit.Schedule.{Schedule, idle, also, Schedule-All, flatten}
use pgxporter.Collectors.{rows}
use pgxporter.Scrape.{Scraped, scrape}
use pgxporter.Scrape.Complete.{IsComplete, scrape-IsComplete}
use pgxporter.Scrape.History.{
  construct-IsReady, Scrapes, start, next, scrape-never-panics, series-never-vanish,
}
use pgxporter.Scrape.Order.{
  AreDistinct, AreNamed, the_other_first, Schedule-flatten, scrape-Schedule,
}
use pgxporter.Collectors.Archiver
use pgxporter.Tests.Fixtures.{archiver, fresh, two_servers}

abbrev calls : List (List (Action prom_ℤ))
calls = map (λ i. (archiver.scrape i).calls) two_servers

All-IsSound : All (All (IsSound laws_ℤ)) calls
unfolding two_servers is_nul_free for_each in_order emit_counter emit_time Archiver.collector
    Archiver.scrape Archiver.emit Archiver.emit_row
All-IsSound = (
  ((laws_ℤ.of_ℤ-Exact 7 (ground arith), refl, (is_nul_free-IsNulFree "app" refl, tt)), (tt, tt)),
  (
    ((laws_ℤ.of_ℤ-Exact 9 (ground arith), refl, (is_nul_free-IsNulFree "shop" refl, tt)), (tt, tt)),
    tt,
  ),
)

schedule : Schedule calls (flatten calls)
schedule = Schedule-flatten calls

sound : All (IsSound laws_ℤ) (flatten calls)
sound = Schedule-All (IsSound laws_ℤ) schedule All-IsSound

scrape-IsComplete_example :
    (r : Scraped prom_ℤ) × (scrape archiver fresh (map archiver.scrape two_servers) (flatten calls)
      ≡ some r)
    × IsComplete laws_ℤ archiver fresh (map archiver.scrape two_servers) (flatten calls) r
scrape-IsComplete_example =
    scrape-IsComplete laws_ℤ archiver fresh two_servers (flatten calls)
      (construct-IsReady laws_ℤ archiver) schedule sound

-- The second server's goroutine writes first.
swapped : (ts : List (List (Action prom_ℤ))) → (out : List (Action prom_ℤ)) × Schedule ts out
swapped [] = ([], idle)
swapped (t ∷ ts) = let (out, s) = swapped ts in (out ++ t, also s (the_other_first t out))

names-AreDistinct : AreDistinct ("app" ∷ "shop" ∷ [])
unfolding contains
names-AreDistinct = (refl, (refl, tt))

two_servers-AreNamed : AreNamed archiver ("app" ∷ "shop" ∷ []) two_servers
unfolding two_servers for_each in_order emit_counter emit_time Archiver.collector Archiver.scrape
    Archiver.emit Archiver.emit_row
two_servers-AreNamed = ((refl, tt), ((refl, tt), tt))

scrape-Schedule_example :
    (r : Scraped prom_ℤ) × (s : Scraped prom_ℤ) × (scrape archiver fresh
        (map archiver.scrape two_servers)
        (swapped calls).0
      ≡ some r)
    × (scrape archiver fresh (map archiver.scrape two_servers) (flatten calls) ≡ some s)
    × ((f : String) (ls : List String) → exported r.fields f ls ≡ exported s.fields f ls)
scrape-Schedule_example =
    scrape-Schedule laws_ℤ archiver fresh two_servers ("app" ∷ "shop" ∷ []) (swapped calls).0
      (construct-IsReady laws_ℤ archiver) (swapped calls).1 All-IsSound names-AreDistinct
      two_servers-AreNamed

-- A first scrape.
first :
    (r : Scraped prom_ℤ) × (scrape archiver fresh (map archiver.scrape two_servers) (flatten calls)
      ≡ some r)
    × IsComplete laws_ℤ archiver fresh (map archiver.scrape two_servers) (flatten calls) r
first =
    scrape-IsComplete laws_ℤ archiver fresh two_servers (flatten calls)
      (construct-IsReady laws_ℤ archiver) schedule sound

first-Scrapes : Scrapes laws_ℤ archiver fresh first.0.fields
first-Scrapes = next two_servers (flatten calls) first.0 start schedule sound first.1

scrape-never-panics_example :
    scrape archiver first.0.fields (map archiver.scrape two_servers) (flatten calls) ≢ none
scrape-never-panics_example =
    scrape-never-panics laws_ℤ archiver first.0.fields two_servers (flatten calls) first-Scrapes
      schedule sound

-- A scrape in which the one server has no row.
no_rows : List archiver.Input
unfolding Archiver.collector
no_rows = rows [] ∷ []

no_calls : List (List (Action prom_ℤ))
no_calls = map (λ i. (archiver.scrape i).calls) no_rows

no_calls-IsSound : All (IsSound laws_ℤ) (flatten no_calls)
unfolding no_rows no_calls flatten for_each Archiver.collector Archiver.scrape Archiver.emit
no_calls-IsSound = tt

no_calls-Schedule : Schedule (map (λ i. (archiver.scrape i).calls) no_rows) (flatten no_calls)
unfolding no_calls
no_calls-Schedule = Schedule-flatten no_calls

second :
    (r : Scraped prom_ℤ) × (scrape archiver first.0.fields
        (map archiver.scrape no_rows)
        (flatten no_calls)
      ≡ some r)
    × IsComplete laws_ℤ archiver first.0.fields (map archiver.scrape no_rows) (flatten no_calls) r
second =
    scrape-IsComplete laws_ℤ archiver first.0.fields no_rows (flatten no_calls) first.2.ready
      no_calls-Schedule no_calls-IsSound

second-Scrapes : Scrapes laws_ℤ archiver first.0.fields second.0.fields
second-Scrapes =
    next no_rows (flatten no_calls) second.0 start no_calls-Schedule no_calls-IsSound second.1

app_series : exported first.0.fields "archived_count" ("app" ∷ []) ≡ some (pos 7)
unfolding two_servers flatten written same for_each in_order emit_counter emit_time
    Archiver.collector Archiver.scrape Archiver.emit Archiver.emit_row
app_series = first.2.exports "archived_count" ("app" ∷ [])

series-never-vanish_example : exported second.0.fields "archived_count" ("app" ∷ []) ≢ none
series-never-vanish_example =
    series-never-vanish laws_ℤ archiver first.0.fields second.0.fields "archived_count" ("app" ∷ [])
      first-Scrapes second-Scrapes (λ k. cc (app_series, k))
