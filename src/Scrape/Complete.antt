-- ===== src/Scrape/Complete.antt =====
-- A scrape exports all its vecs or none, with the values that the rows give them.
use pgxporter.Prelude.{
  String, ◌<>◌, ◌≡◌, ◌≢◌, refl, sym, ap, subst, ◌∙◌, inl, inr, true, Option, none, some, List, [],
  ◌∷◌, map, All, arith, str_eq, eq_iff, if◌then◌else◌, Bool-cases, Option-cases, >>=-eq-some,
}
use pgxporter.Prometheus.{Prom, PromLaws}
use pgxporter.Vec.{lookup}
use pgxporter.Registry.{contains}
use pgxporter.Emit.{Field, Fields, Action, Decl, valid}
use pgxporter.Emit.Exports.{run-exports}
use pgxporter.Emit.Shapes.{shape_of, IsDeclared, IsSound, HasShape, AreTracked, exported, written}
use pgxporter.Emit.Declared.{declared}
use pgxporter.Emit.Schedule.{Schedule, Schedule-All}
use pgxporter.Collectors.{Outcome, Collector, take_out, names_all}
use pgxporter.Scrape.{Scraped, first_error, collect, finish, scrape}

take_out-contains :
    (f g : String) (ns r : List String)
    → take_out f ns ≡ some r
    → contains ns g ≡ (if str_eq f g then true else contains r g)
unfolding take_out contains
take_out-contains f g [] r h = cc
take_out-contains f g (n ∷ ns) r h = elim (Bool-cases (str_eq n f)) [
  | inl e ↦ ground (arith, eq_iff n f)
  | inr e ↦
      let (r', er, ec) = >>=-eq-some (take_out f ns) _ (rw e at h) in
      ground (arith, take_out-contains f g ns r' er, eq_iff n g, eq_iff f g)
]

-- The fields that a complete list names are those that are declared.
pub names_all-contains :
    (ds : List Decl) (ns : List String) (f : String)
    → names_all ds ns ≡ true
    → contains ns f ≡ valid (declared ds f)
unfolding names_all contains
names_all-contains [] [] f h = refl
names_all-contains [] (n ∷ ns) f h = cc
names_all-contains (d ∷ ds) ns f h = elim (Option-cases (take_out d.field ns)) [
  | inl e ↦ cc (rw (e, names_all) at h)
  | inr (r, e) ↦ ground (
    arith,
    take_out-contains d.field f ns r e,
    names_all-contains ds r f (rw (e, names_all) at h),
  )
]

module _ {P : Prom} where
  -- Every name of the list is that of a vec that is not nil.
  abbrev pub AreThere : Fields P → List String → Type 0
  AreThere fs ns = (f : String) → contains ns f ≡ true → lookup f fs ≢ none

  AreThere-tail :
      (fs : Fields P) (n : String) (ns : List String) → AreThere fs (n ∷ ns) → AreThere fs ns
  unfolding contains
  AreThere-tail fs n ns h f k = h f (ground (arith, k))

  AreThere-head :
      (fs : Fields P) (n : String) (ns : List String) → AreThere fs (n ∷ ns) → lookup n fs ≢ none
  unfolding contains
  AreThere-head fs n ns h = h n (ground (arith, eq_iff n n))

  -- Pairs of a name and its vec, in the order of the names.
  abbrev pub IsSnapshot : Fields P → List String → List (String × Field P) → Type 0
  IsSnapshot fs ns xs =
      (map (λ x. x.0) xs ≡ ns) × All (λ (x : String × Field P). lookup x.0 fs ≡ some x.1) xs

  collect-total :
      (fs : Fields P) (ns : List String)
      → AreThere fs ns
      → (xs : List (String × Field P)) × (collect fs ns ≡ some xs) × IsSnapshot fs ns xs
  unfolding collect
  collect-total fs [] h = ([], refl, (refl, tt))
  collect-total fs (n ∷ ns) h = elim (Option-cases (lookup n fs)) [
    | inl e ↦ absurd (AreThere-head fs n ns h e)
    | inr (x, e) ↦
        let (xs, ex, s) = collect-total fs ns (AreThere-tail fs n ns h) in
        ((n, x) ∷ xs, rw (e, ex), (ap (λ m. n ∷ m) s.0, (e, s.1)))
  ]

  HasShape-AreThere :
      (c : Collector P) (fs : Fields P)
      → HasShape (declared c.decls) fs
      → AreThere fs c.collect_into
  HasShape-AreThere c fs p f k e =
      let t : valid (declared c.decls f) ≡ true =
        sym (names_all-contains c.decls c.collect_into f c.collects_all) ∙ k in
      let n : declared c.decls f ≡ none = sym (p f) ∙ ap shape_of e in cc (rw n at t)

module _ {P : Prom} (L : PromLaws P) (c : Collector P) where
  -- The state of a collector between scrapes.
  pub record IsReady (fs : Fields P) : Type 0 where
    pub shape : HasShape (declared c.decls) fs
    pub tracked : AreTracked L fs

  -- What Wait's error means for the channel: with an error nothing is sent, and without one every
  -- vec is, once, as it stands after the scrape.
  abbrev pub IsSent : Option String → Scraped P → Type 0
  IsSent (some e) r = (r.error ≡ some (c.scrape_prefix <> e)) × (r.sent ≡ [])
  IsSent none r = (r.error ≡ none) × IsSnapshot r.fields c.collect_into r.sent

  pub record IsComplete (fs : Fields P) (outcomes : List (Outcome P)) (calls : List (Action P))
      (r : Scraped P) : Type 0 where
    -- the collector can be scraped again
    pub ready : IsReady r.fields
    -- each series has the last value written to it, or the one it had
    pub exports :
        (f : String) (ls : List String)
        → exported r.fields f ls ≡ written calls f ls (exported fs f ls)
    pub is_sent : IsSent (first_error outcomes) r

  finish-total :
      (fs : Fields P) (e : Option String)
      → HasShape (declared c.decls) fs
      → (r : Scraped P) × (finish c fs e ≡ some r) × (r.fields ≡ fs) × IsSent e r
  unfolding finish
  finish-total fs (some e) p = (
    record { fields = fs; sent = []; error = some (c.scrape_prefix <> e) },
    refl,
    refl,
    (refl, refl),
  )
  finish-total fs none p =
      let (xs, ex, s) = collect-total fs c.collect_into (HasShape-AreThere c fs p) in
      (record { fields = fs; sent = xs; error = none }, rw ex, refl, (refl, s))

  inputs-AreDeclared :
      (inputs : List c.Input)
      → All (All (IsDeclared (declared c.decls))) (map (λ i. (c.scrape i).calls) inputs)
  inputs-AreDeclared [] = tt
  inputs-AreDeclared (i ∷ is) = (c.scrape-IsDeclared i, inputs-AreDeclared is)

  -- A Scrape of a collector whose vecs are in order, with whatever rows or errors the Selects of
  -- its clients return and in any interleaving of the goroutines' calls (counters being given exact
  -- values that are not negative, under labels without NUL), does not panic; afterwards the
  -- collector is in order again, every series of every vec has the last value written to it or else
  -- the one it had, and the channel gets every vec once if no client failed and nothing, with an
  -- error, if one did.
  pub scrape-IsComplete :
      (fs : Fields P) (inputs : List c.Input) (calls : List (Action P))
      → IsReady fs
      → Schedule (map (λ i. (c.scrape i).calls) inputs) calls
      → All (IsSound L) calls
      → (r : Scraped P) × (scrape c fs (map c.scrape inputs) calls ≡ some r)
        × IsComplete fs (map c.scrape inputs) calls r
  unfolding scrape
  scrape-IsComplete fs inputs calls ready sched s =
      let d = Schedule-All (IsDeclared (declared c.decls)) sched (inputs-AreDeclared inputs) in
      let (gs, eg, q) = run-exports L (declared c.decls) fs calls ready.shape ready.tracked d s in
      let (r, er, ef, sent) = finish-total gs (first_error (map c.scrape inputs)) q.shape in
      (
        r,
        rw (eg, er),
        record {
          ready = record {
            shape = λ f. ap (λ hs. shape_of (lookup f hs)) ef ∙ q.shape f;
            tracked = subst (AreTracked L) (sym ef) q.tracked;
          };
          exports = λ f ls. ap (λ hs. exported hs f ls) ef ∙ q.exports f ls;
          is_sent = sent;
        },
      )
