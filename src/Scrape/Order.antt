-- ===== src/Scrape/Order.antt =====
-- The goroutines of a Scrape, one for each client: exporter/collectors. The order in which they write
-- does not show if each database has a name of its own.
use pgxporter.Prelude.{
  String, ◌≡◌, ◌≢◌, sym, ap, subst, ◌∙◌, inl, inr, false, some, List, [], ◌∷◌, ◌++◌, map, All,
  All-append, arith, str_eq, eq_iff, Bool-cases, eq_of_same,
}
use pgxporter.Prometheus.{Prom, PromLaws}
use pgxporter.Registry.{contains}
use pgxporter.Emit.{Fields, Action}
use pgxporter.Emit.Shapes.{IsSound, exported, hits, labels}
use pgxporter.Emit.Labelled.{AreAll, IsLabelled, first_label}
use pgxporter.Emit.Schedule.{
  Interleave, done, left, right, Schedule, idle, also, Schedule-All, flatten, Misses, AreDisjoint,
  written-Schedule,
}
use pgxporter.Collectors.{Collector}
use pgxporter.Scrape.{Scraped, scrape}
use pgxporter.Scrape.Complete.{IsReady, scrape-IsComplete}

pub one_after_the_other : {A : Type 0} (xs ys : List A) → Interleave xs ys (xs ++ ys)
one_after_the_other [] [] = done
one_after_the_other [] (y ∷ ys) = right y (one_after_the_other [] ys)
one_after_the_other (x ∷ xs) ys = left x (one_after_the_other xs ys)

pub the_other_first : {A : Type 0} (xs ys : List A) → Interleave xs ys (ys ++ xs)
the_other_first [] [] = done
the_other_first (x ∷ xs) [] = left x (the_other_first xs [])
the_other_first xs (y ∷ ys) = right y (the_other_first xs ys)

pub Schedule-flatten : {A : Type 0} (ts : List (List A)) → Schedule ts (flatten ts)
unfolding flatten
Schedule-flatten [] = idle
Schedule-flatten (t ∷ ts) = also (Schedule-flatten ts) (one_after_the_other t (flatten ts))

-- No name is there twice.
abbrev pub AreDistinct : List String → Type 0
AreDistinct [] = Unit {0}
AreDistinct (d ∷ ds) = (contains ds d ≡ false) × AreDistinct ds

module _ {P : Prom} where
  -- The calls of each goroutine have the name of its database as their first label value.
  abbrev pub AreLabelled : List String → List (List (Action P)) → Type 0
  AreLabelled [] [] = Unit {0}
  AreLabelled (d ∷ ds) (t ∷ ts) = All (IsLabelled d) t × AreLabelled ds ts
  AreLabelled _ _ = ⊥

  hits-first_label :
      (a : Action P) (f : String) (ls : List String)
      → first_label (labels a) ≢ first_label ls
      → hits a f ls ≡ false
  hits-first_label a f ls n = elim (Bool-cases (hits a f ls)) [
    | inl e ↦ absurd (n (ap first_label (eq_of_same (labels a) ls (ground arith))))
    | inr e ↦ e
  ]

  labelled-Misses :
      (t : List (Action P)) (d f : String) (ls : List String)
      → All (IsLabelled d) t
      → d ≢ first_label ls
      → Misses t f ls
  labelled-Misses [] d f ls h n = tt
  labelled-Misses (a ∷ rest) d f ls h n =
      (hits-first_label a f ls (λ e. n (sym h.0 ∙ e)), labelled-Misses rest d f ls h.1 n)

  labelled-flatten-Misses :
      (ds : List String) (ts : List (List (Action P))) (f : String) (ls : List String)
      → AreLabelled ds ts
      → contains ds (first_label ls) ≡ false
      → Misses (flatten ts) f ls
  unfolding flatten contains
  labelled-flatten-Misses [] [] f ls h n = tt
  labelled-flatten-Misses [] (t ∷ ts) f ls h n = absurd h
  labelled-flatten-Misses (d ∷ ds) [] f ls h n = absurd h
  labelled-flatten-Misses (d ∷ ds) (t ∷ ts) f ls h n =
      All-append (λ (a : Action P). hits a f ls ≡ false) t (flatten ts)
        (labelled-Misses t d f ls h.0 (λ e. ground (arith, eq_iff d (first_label ls), n, e)))
        (labelled-flatten-Misses ds ts f ls h.1 (ground (arith, n)))

  labelled-AreDisjoint :
      (ds : List String) (ts : List (List (Action P)))
      → AreDistinct ds
      → AreLabelled ds ts
      → AreDisjoint ts
  labelled-AreDisjoint [] [] n h = tt
  labelled-AreDisjoint [] (t ∷ ts) n h = absurd h
  labelled-AreDisjoint (d ∷ ds) [] n h = absurd h
  labelled-AreDisjoint (d ∷ ds) (t ∷ ts) n h = (
    (λ f ls. elim (Bool-cases (str_eq d (first_label ls))) [
      | inl e ↦ inr (
          labelled-flatten-Misses ds ts f ls h.1
            (subst (λ x. contains ds x ≡ false) ((eq_iff d (first_label ls)).0 e) n.0))
      | inr e ↦
          inl (labelled-Misses t d f ls h.0 (λ k. ground (arith, eq_iff d (first_label ls), e, k)))
    ]),
    labelled-AreDisjoint ds ts n.1 h.1,
  )

module _ {P : Prom} (c : Collector P) where
  -- The rows of each client name its database.
  abbrev pub AreNamed : List String → List c.Input → Type 0
  AreNamed [] [] = Unit {0}
  AreNamed (d ∷ ds) (i ∷ inputs) = AreAll d (c.databases i) × AreNamed ds inputs
  AreNamed _ _ = ⊥

  named-AreLabelled :
      (ds : List String) (inputs : List c.Input)
      → AreNamed ds inputs
      → AreLabelled ds (map (λ i. (c.scrape i).calls) inputs)
  named-AreLabelled [] [] h = tt
  named-AreLabelled [] (i ∷ inputs) h = elim h [ ]
  named-AreLabelled (d ∷ ds) [] h = elim h [ ]
  named-AreLabelled (d ∷ ds) (i ∷ inputs) h =
      (c.scrape-IsLabelled i d h.0, named-AreLabelled ds inputs h.1)

module _ {P : Prom} (L : PromLaws P) (c : Collector P) where
  -- If the databases of the clients have different names, every row of a client names the database
  -- of the client, the vecs of the collector are in order and the calls are sound (exact values
  -- that are not negative for counters, labels without NUL), a Scrape under any schedule of the
  -- goroutines exports the same values as the clients scraped one after the other, neither with a
  -- panic.
  pub scrape-Schedule :
      (fs : Fields P) (inputs : List c.Input) (ds : List String) (calls : List (Action P))
      → IsReady L c fs
      → Schedule (map (λ i. (c.scrape i).calls) inputs) calls
      → All (All (IsSound L)) (map (λ i. (c.scrape i).calls) inputs)
      → AreDistinct ds
      → AreNamed c ds inputs
      → (r : Scraped P) × (s : Scraped P) × (scrape c fs (map c.scrape inputs) calls ≡ some r)
        × (scrape c fs (map c.scrape inputs) (flatten (map (λ i. (c.scrape i).calls) inputs))
            ≡ some s)
        × ((f : String) (ls : List String) → exported r.fields f ls ≡ exported s.fields f ls)
  scrape-Schedule fs inputs ds calls ready sched sound n h =
      let ts = map (λ i. (c.scrape i).calls) inputs in
      let both = Schedule-flatten ts in
      let (r, er, qr) =
        scrape-IsComplete L c fs inputs calls ready sched (Schedule-All (IsSound L) sched sound) in
      let (s, es, qs) =
        scrape-IsComplete L c fs inputs (flatten ts) ready both
          (Schedule-All (IsSound L) both sound) in
      (
        r,
        s,
        er,
        es,
        λ f ls.
            qr.exports f ls
            ∙ written-Schedule f ls ts (exported fs f ls) sched
                (labelled-AreDisjoint ds ts n (named-AreLabelled c ds inputs h))
            ∙ sym (qs.exports f ls),
      )
