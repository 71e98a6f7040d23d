-- ===== src/Exporter/Counting/Ends.antt =====
-- exporter/exporter.go: every run of countingChan ends with the count.
use pgxporter.Prelude.{ℕ, ◌+◌, ◌*◌, ◌≡◌, Bool, true, false, Option, none, some, List, length}
use pgxporter.Exporter.Counting.{CountingChan, held_metrics, Step}

abbrev open_weight : Bool → ℕ
open_weight true = 0
open_weight false = 1

abbrev count_weight : Option ℕ → ℕ
count_weight none = 1
count_weight (some k) = 0

module _ {M : Type 0} where
  -- However the collector, the forwarder and the receiver are scheduled, they are never all blocked
  -- before the count is sent, and it is sent after finitely many steps, when all the metrics have
  -- been received in order; it is their number.
  pub data Ends (metrics : List M) : CountingChan M → Type 0 where
    ended : {c : CountingChan M} → c.done ≡ some (length metrics) → c.dst ≡ metrics → Ends metrics c
    goes_on :
        {c d : CountingChan M}
        → Step c d
        → ((e : CountingChan M) → Step c e → Ends metrics e)
        → Ends metrics c

  -- How many steps are left at most.
  unfoldable weight : CountingChan M → ℕ
  weight c =
      5 * length c.todo
      + 4 * length c.buffer
      + 3 * length (held_metrics c.held)
      + open_weight c.receiving
      + open_weight c.closed
      + count_weight c.done
