-- ===== src/Tests/Exporters.antt =====
-- Exporters: self-metrics, channels, names and the mutex.
use pgxporter.Prelude.{
  ℕ, ◌+◌, String, ◌≡◌, refl, ◌⊎◌, true, false, none, some, List, [], ◌∷◌, ◌++◌, length, arith,
}
use pgxporter.Vec.{lookup}
use pgxporter.Registry.{NamedCollector, contains}
use pgxporter.Exporter.{
  Report, SelfMetrics, new_self_metrics, custom_name, with_custom_collectors, collect,
}
use pgxporter.Exporter.Metrics.{
  AllSucceeded, up_of, all_failures, collect_all, last_sent, collect-up, collect_all-counts,
  collect-cardinality,
}
use pgxporter.Exporter.Errors.{errors_of}
use pgxporter.Exporter.Counting.{
  CountingChan, new_counting_chan, Reached, fresh, after, send, take, forward, receive, close,
  finish, input, counting_complete,
}
use pgxporter.Exporter.Naming.{
  names_of, every_other, with_custom_collectors-names, with_custom_collectors-reuse,
}
use pgxporter.Exporter.Counting.Ends.{Ends}
use pgxporter.Exporter.Shutdown.{
  Mutex, collecting, leaked, unlocked, Steps, here, then, shutdown_starts, collect_locks, Patient,
  unlocked_first, and_then, is_patient, leaked-for_ever, IsShutDown, shutdown-IsShutDown,
}

abbrev wal_report : Report ℕ
wal_report = record { sent = 1 ∷ 2 ∷ []; error = none; elapsed = 5 }

abbrev io_report : Report ℕ
io_report = record { sent = []; error = some "scraping: timeout"; elapsed = 9 }

abbrev finished : List (String × Report ℕ)
finished = ("wal", wal_report) ∷ ("io", io_report) ∷ []

abbrev metrics : SelfMetrics
metrics = new_self_metrics ("io" ∷ "wal" ∷ [])

collect-up_example :
    (AllSucceeded finished × (up_of (collect finished (1 ∷ 2 ∷ []) metrics).1 ≡ some true))
    ⊎ ((AllSucceeded finished → ⊥) × (up_of (collect finished (1 ∷ 2 ∷ []) metrics).1 ≡ some false))
collect-up_example = collect-up finished (1 ∷ 2 ∷ []) metrics

abbrev rounds : List (List (String × Report ℕ) × List ℕ)
rounds = (finished, 1 ∷ 2 ∷ []) ∷ (finished, 1 ∷ 2 ∷ []) ∷ []

collect_all-counts_example :
    ((collect_all rounds metrics).total_scrapes ≡ metrics.total_scrapes + length rounds)
    × (errors_of "io" (collect_all rounds metrics)
        ≡ errors_of "io" metrics + all_failures "io" rounds)
collect_all-counts_example = collect_all-counts rounds "io" metrics

collect-cardinality_example :
    lookup "wal" (collect finished (1 ∷ 2 ∷ []) metrics).0.metric_cardinality
    ≡ last_sent "wal" finished (lookup "wal" metrics.metric_cardinality)
collect-cardinality_example = collect-cardinality finished (1 ∷ 2 ∷ []) "wal" metrics

-- One metric is sent and forwarded, and the channel is closed.
abbrev chan_0 : CountingChan ℕ
chan_0 = record {
  todo = 8 ∷ [];
  buffer = [];
  closed = false;
  held = none;
  receiving = false;
  dst = [];
  n = 0;
  done = none;
}

abbrev chan_1 : CountingChan ℕ
chan_1 = record chan_0 { todo = []; buffer = 8 ∷ [] }

abbrev chan_2 : CountingChan ℕ
chan_2 = record chan_0 { todo = []; held = some 8; receiving = true }

abbrev chan_3 : CountingChan ℕ
chan_3 = record chan_0 { todo = []; closed = true; dst = 8 ∷ []; n = 1 }

abbrev chan_4 : CountingChan ℕ
chan_4 = record chan_3 { done = some 1 }

chan_1-Reached : Reached (8 ∷ []) chan_1
unfolding new_counting_chan input
chan_1-Reached = after (fresh (8 ∷ [])) (send chan_0 8 [] refl refl (ground arith))

chan_3-Reached : Reached (8 ∷ []) chan_3
unfolding input
chan_3-Reached =
    after
      (after
        (after (after chan_1-Reached (take chan_1 8 [] refl refl refl))
          (receive (record chan_2 { receiving = false }) refl))
        (forward chan_2 8 refl refl))
      (close (record chan_3 { closed = false }) refl refl)

chan_4-Reached : Reached (8 ∷ []) chan_4
unfolding input
chan_4-Reached = after chan_3-Reached (finish chan_3 refl refl refl refl)

abbrev one_sent : List ℕ
one_sent = 8 ∷ []

counting_complete_example : (chan_4.dst ≡ one_sent) × (1 ≡ length one_sent)
counting_complete_example = counting_complete one_sent chan_4 1 chan_4-Reached refl

abbrev two_names : List (NamedCollector ℕ)
two_names = record { name = "io"; collector = 0 } ∷ record { name = "wal"; collector = 1 } ∷ []

abbrev two_more : List ℕ
two_more = 5 ∷ 6 ∷ []

with_custom_collectors-names_example :
    names_of (with_custom_collectors two_more two_names)
    ≡ names_of two_names ++ every_other (length two_names) (length two_more)
with_custom_collectors-names_example = with_custom_collectors-names two_more two_names

with_custom_collectors-reuse_example :
    contains
      (names_of (with_custom_collectors two_more two_names))
      (custom_name (length (with_custom_collectors two_more two_names)))
    ≡ true
with_custom_collectors-reuse_example = with_custom_collectors-reuse two_more two_names 0 refl

-- A Shutdown is called while Collect runs, and its context ends.
abbrev busy : Mutex
busy = record { holder = collecting; waiting = 1; abandoned = 0; closed = false; returned = 0 }

abbrev given_up : Mutex
given_up = record { holder = collecting; waiting = 0; abandoned = 1; closed = false; returned = 0 }

abbrev stuck : Mutex
stuck = record { holder = leaked; waiting = 0; abandoned = 0; closed = false; returned = 0 }

leaked-for_ever_example : (record stuck { waiting = 1 }).holder ≡ leaked
leaked-for_ever_example =
    leaked-for_ever stuck (record stuck { waiting = 1 }) (then here (shutdown_starts stuck)) refl

busy-Patient : Patient busy
unfolding is_patient
busy-Patient =
    and_then (and_then unlocked_first (collect_locks unlocked refl) refl)
      (shutdown_starts (record unlocked { holder = collecting })) refl

shutdown-IsShutDown_example : (t : Mutex) × Steps busy t × IsShutDown busy t
shutdown-IsShutDown_example = shutdown-IsShutDown busy 0 busy-Patient refl
