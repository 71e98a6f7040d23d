-- ===== src/Tests/Selects.antt =====
-- The Select methods.
use pgxporter.Prelude.{ℕ, ◌≡◌, ◌<◌, ◌↔◌, refl, inl, inr, true, some, none, List, zero, suc, arith}
use pgxporter.Prelude.Int.{ℤ, pos, ◌+ℤ◌, ◌*ℤ◌}
use pgxporter.Collectors.{Fetched, rows, failed}
use pgxporter.Db.{Client, at_least, read_committed, TxAccessMode}
use pgxporter.Db.Honest.{IsHonest}
use pgxporter.Db.Select.{user_tables, io, bgwriter, select, tags}
use pgxporter.Db.Select.Names.{query_fits}
use pgxporter.Db.Select.Scannable.{select-fits}
use pgxporter.Db.Select.Exists.{relation, introduced, select-exists}
use pgxporter.Db.Documented.{offered}
use pgxporter.Db.Select.Gates.{select-none}
use pgxporter.Db.Queries.{select_pg_stat_io}
use pgxporter.Db.Statements.{Query, fetch}
use pgxporter.Db.Select.Silent.{of_io, scrape_of, scrape_client, silent, scrape_client-silent}
use pgxporter.Collectors.Io
use pgxporter.Collectors.Io.{PgStatIo}
use pgxporter.Prometheus.Model.{prom_ℤ}

abbrev client_of : ℤ → Client
client_of v = record {
  opts = record { default_isolation_level = ""; read_only = true; max_connection_retries = pos 0 };
  has_pool = true;
  tx_options = record { iso_level = read_committed; access_mode = TxAccessMode.read_only };
  server_version_num = v;
}

-- The first probe times out, and later ones find PostgreSQL 18.1.
abbrev answers : ℕ → Fetched ℤ
answers zero = failed "timeout"
answers (suc n) = rows (pos 180001)

answers-IsHonest : (n : ℕ) → IsHonest (pos 180001) (answers n)
answers-IsHonest zero = inr ("timeout", refl)
answers-IsHonest (suc n) = inl refl

io-ne-bgwriter : io ≡ bgwriter → ⊥
io-ne-bgwriter h = cc h

select-fits_example :
    query_fits (tags user_tables) (select user_tables answers (client_of (pos 0))).1 ≡ true
select-fits_example = select-fits user_tables answers (client_of (pos 0))

select-exists_example : offered (relation io) 18 (select io answers (client_of (pos 0))).1 ≡ true
select-exists_example =
    select-exists 18 1 (omega arith) (omega arith) io answers (client_of (pos 0)) answers-IsHonest
      (inr refl) (λ h. cc h) (λ h. absurd (io-ne-bgwriter h))

select-none_example : ((select io answers (client_of (pos 180001))).1 ≡ none) ↔ (18 < introduced io)
select-none_example =
    select-none 18 1 io answers (client_of (pos 180001)) (omega arith) (omega arith)
      answers-IsHonest refl

-- A server of version 15.4, whose database fails every query.
abbrev old_answers : ℕ → Fetched ℤ
old_answers n = rows (pos 150004)

abbrev run : Query → Fetched (List (PgStatIo prom_ℤ))
run q = failed "no such view"

scrape_client-silent_example :
    scrape_client prom_ℤ of_io run old_answers (client_of (pos 150004)) ≡ silent prom_ℤ
unfolding introduced relation
scrape_client-silent_example =
    scrape_client-silent prom_ℤ 15 4 of_io run old_answers (client_of (pos 150004)) (omega arith)
      (omega arith) (λ n. inl refl) refl (omega arith)

scrape_client-asks :
    (scrape_client prom_ℤ of_io run answers (client_of (pos 180001))).error
    ≡ some "io stats: no such view"
unfolding scrape_client scrape_of fetch select select_pg_stat_io at_least Io.scrape ◌+ℤ◌ ◌*ℤ◌
scrape_client-asks = refl
