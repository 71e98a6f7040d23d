-- ===== src/Scrape/History.antt =====
-- The struct of a collector over its whole life: exporter/collectors, from a New function through any
-- number of calls of Scrape.
use pgxporter.Prelude.{
  String, ◌≡◌, ◌≢◌, sym, subst, ◌∙◌, inl, inr, Option, none, some, List, [], ◌∷◌, map, All,
  Bool-cases,
}
use pgxporter.Prometheus.{Prom, PromLaws}
use pgxporter.Emit.{Fields, Action, construct}
use pgxporter.Emit.Shapes.{IsSound, exported, hits, written}
use pgxporter.Emit.Declared.{construct-HasShape, construct-AreTracked}
use pgxporter.Emit.Schedule.{Schedule}
use pgxporter.Collectors.{Collector}
use pgxporter.Scrape.{Scraped, scrape}
use pgxporter.Scrape.Complete.{IsReady, scrape-IsComplete}

module _ {P : Prom} (L : PromLaws P) (c : Collector P) where
  -- The second struct is what a number of scrapes make of the first one.
  pub data Scrapes : Fields P → Fields P → Type 0 where
    start : {fs : Fields P} → Scrapes fs fs
    next :
        {fs gs : Fields P} (inputs : List c.Input) (calls : List (Action P)) (r : Scraped P)
        → Scrapes fs gs
        → Schedule (map (λ i. (c.scrape i).calls) inputs) calls
        → All (IsSound L) calls
        → scrape c gs (map c.scrape inputs) calls ≡ some r
        → Scrapes fs r.fields

  pub construct-IsReady : IsReady L c (construct P c.decls)
  construct-IsReady = record {
    shape = construct-HasShape L c.decls;
    tracked = construct-AreTracked L c.decls;
  }

  module _ (fs : Fields P) (ready : IsReady L c fs) where
    Scrapes-IsReady : {gs : Fields P} → Scrapes fs gs → IsReady L c gs
    Scrapes-IsReady start = ready
    Scrapes-IsReady (next {gs = gs} inputs calls r before sched s h) =
        let (r', e, q) = scrape-IsComplete L c gs inputs calls (Scrapes-IsReady before) sched s in
        let same_result : r' ≡ r = cc (e, h) in
        subst (λ (x : Scraped P). IsReady L c x.fields) same_result q.ready

    written-ne-none :
        (calls : List (Action P)) (f : String) (ls : List String) (old : Option P.Num)
        → old ≢ none
        → written calls f ls old ≢ none
    unfolding written
    written-ne-none [] f ls old h = h
    written-ne-none (a ∷ rest) f ls old h = elim (Bool-cases (hits a f ls)) [
      | inl e ↦ rw e (written-ne-none rest f ls _ (λ k. cc k))
      | inr e ↦ rw e (written-ne-none rest f ls old h)
    ]

    -- A series that is exported stays, whatever the rows of the later scrapes are.
    Scrapes-keep :
        {gs : Fields P} (f : String) (ls : List String)
        → Scrapes fs gs
        → exported fs f ls ≢ none
        → exported gs f ls ≢ none
    Scrapes-keep f ls start h = h
    Scrapes-keep f ls (next {gs = gs} inputs calls r before sched s e0) h =
        let (r', e, q) = scrape-IsComplete L c gs inputs calls (Scrapes-IsReady before) sched s in
        let same_result : r' ≡ r = cc (e, e0) in
        subst (λ (x : Scraped P). exported x.fields f ls ≢ none) same_result
          (λ k.
            written-ne-none calls f ls (exported gs f ls) (Scrapes-keep f ls before h)
              (sym (q.exports f ls) ∙ k))

  -- From its constructor on, after any number of scrapes with sound calls (exact values that are
  -- not negative for counters, labels without NUL), a collector can be scraped again without a
  -- panic, in any interleaving of sound calls.
  pub scrape-never-panics :
      (gs : Fields P) (inputs : List c.Input) (calls : List (Action P))
      → Scrapes (construct P c.decls) gs
      → Schedule (map (λ i. (c.scrape i).calls) inputs) calls
      → All (IsSound L) calls
      → scrape c gs (map c.scrape inputs) calls ≢ none
  scrape-never-panics gs inputs calls before sched s k =
      let ready = Scrapes-IsReady (construct P c.decls) construct-IsReady before in
      let (r, e, q) = scrape-IsComplete L c gs inputs calls ready sched s in cc (rw e at k)

  -- A series that a collector exports after some scrapes with sound calls, from its constructor on,
  -- is exported after every later sequence of such scrapes, with or without a row for it.
  pub series-never-vanish :
      (fs gs : Fields P) (f : String) (ls : List String)
      → Scrapes (construct P c.decls) fs
      → Scrapes fs gs
      → exported fs f ls ≢ none
      → exported gs f ls ≢ none
  series-never-vanish fs gs f ls before after h =
      Scrapes-keep fs (Scrapes-IsReady (construct P c.decls) construct-IsReady before) f ls after h
