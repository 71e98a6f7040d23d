-- ===== src/Exporter/Metrics.antt =====
-- exporter/exporter.go: what the self-metrics say after Collect.
use pgxporter.Prelude.{
  ℕ, suc, ◌+◌, String, ◌≡◌, refl, ap, ◌∙◌, ◌⊎◌, inl, inr, Bool, true, false, Option, none, some,
  List, [], ◌∷◌, ◌++◌, map, All, arith, length, str_eq, if◌then◌else◌, Bool-cases, Option-cases,
}
use pgxporter.Vec.{lookup}
use pgxporter.Vec.Keys.{lookup-insert}
use pgxporter.Registry.{contains}
use pgxporter.Exporter.{
  Report, SelfMetrics, Sample, scraped, up, or_else, pre_initialise, new_self_metrics, instrument,
  instrument_all, wait, is_none, self_samples, collect,
}
use pgxporter.Exporter.Errors.{
  errors_of, failed_once, count_error-or_else, pre_initialise-or_else, pre_initialise-there,
}

-- A new exporter has an error counter of 0 for the name of every collector that was resolved.
pub new-errors :
    (names : List String) (name : String)
    → contains names name ≡ true
    → lookup name (new_self_metrics names).scrape_errors ≡ some 0
unfolding new_self_metrics lookup
new-errors names name h =
    let z : or_else 0 (lookup name (pre_initialise names [])) ≡ 0 =
      pre_initialise-or_else names name [] in
    elim (Option-cases (lookup name (pre_initialise names []))) [
      | inl e ↦ absurd (pre_initialise-there names name [] h e)
      | inr (k, e) ↦ e ∙ ap some (rw e at z)
    ]

module _ {M : Type 0} where
  -- No collector has returned an error.
  abbrev pub AllSucceeded : List (String × Report M) → Type 0
  AllSucceeded finished = All (λ (x : String × Report M). x.1.error ≡ none) finished

  -- The value of the first sample of `up`.
  unfoldable pub up_of : List (Sample M) → Option Bool
  up_of [] = none
  up_of (up b ∷ xs) = some b
  up_of (x ∷ xs) = up_of xs

  up_of-scraped : (ms : List M) (xs : List (Sample M)) → up_of (map scraped ms ++ xs) ≡ up_of xs
  unfolding up_of
  up_of-scraped [] xs = refl
  up_of-scraped (m ∷ ms) xs = up_of-scraped ms xs

  wait-succeeded :
      (finished : List (String × Report M)) → is_none (wait finished) ≡ true → AllSucceeded finished
  unfolding wait is_none
  wait-succeeded [] h = tt
  wait-succeeded ((n, r) ∷ rs) h = elim (Option-cases r.error) [
    | inl e ↦ (e, wait-succeeded rs (rw e at h))
    | inr (x, e) ↦ cc (rw e at h)
  ]

  succeeded-wait :
      (finished : List (String × Report M)) → AllSucceeded finished → is_none (wait finished) ≡ true
  unfolding wait is_none
  succeeded-wait [] h = refl
  succeeded-wait ((n, r) ∷ rs) h = rw h.0 (succeeded-wait rs h.1)

  collect-up_of :
      (finished : List (String × Report M)) (forwarded : List M) (s : SelfMetrics)
      → up_of (collect finished forwarded s).1 ≡ some (is_none (wait finished))
  unfolding collect self_samples up_of
  collect-up_of finished forwarded s = up_of-scraped forwarded _

  -- Collect sends an up of 1 if no collector returned an error, and an up of 0 if one did.
  pub collect-up :
      (finished : List (String × Report M)) (forwarded : List M) (s : SelfMetrics)
      → (AllSucceeded finished × (up_of (collect finished forwarded s).1 ≡ some true))
        ⊎ ((AllSucceeded finished → ⊥) × (up_of (collect finished forwarded s).1 ≡ some false))
  collect-up finished forwarded s = elim (Bool-cases (is_none (wait finished))) [
    | inl e ↦ inl (wait-succeeded finished e, collect-up_of finished forwarded s ∙ ap some e)
    | inr e ↦ inr (
      (λ h. ground (arith, e, succeeded-wait finished h)),
      collect-up_of finished forwarded s ∙ ap some e,
    )
  ]

  -- How many collectors of this name have returned an error.
  unfoldable pub failures : String → List (String × Report M) → ℕ
  unfolding failed_once
  failures name [] = 0
  failures name ((n, r) ∷ rs) = failed_once name n r.error + failures name rs

  instrument_all-errors :
      (name : String) (finished : List (String × Report M)) (s : SelfMetrics)
      → errors_of name (instrument_all finished s) ≡ errors_of name s + failures name finished
  unfolding instrument_all instrument failures errors_of
  instrument_all-errors name [] s = ground arith
  instrument_all-errors name ((n, r) ∷ rs) s =
      let later = instrument_all-errors name rs (instrument (n, r) s) in
      let now = count_error-or_else n name r.error s.scrape_errors in omega arith

  instrument_all-total :
      (finished : List (String × Report M)) (s : SelfMetrics)
      → (instrument_all finished s).total_scrapes ≡ s.total_scrapes
  unfolding instrument_all instrument
  instrument_all-total [] s = refl
  instrument_all-total (x ∷ xs) s = instrument_all-total xs (instrument x s)

  -- Calls of Collect, one after the other, as its mutex has them.
  unfoldable pub collect_all : List (List (String × Report M) × List M) → SelfMetrics → SelfMetrics
  collect_all [] s = s
  collect_all ((finished, forwarded) ∷ rest) s = collect_all rest (collect finished forwarded s).0

  unfoldable pub all_failures : String → List (List (String × Report M) × List M) → ℕ
  all_failures name [] = 0
  all_failures name ((finished, forwarded) ∷ rest) = failures name finished + all_failures name rest

  -- After any sequence of calls of Collect, the scrape counter has grown by their number, and the
  -- error counter of each name by the number of errors that collectors of that name returned.
  pub collect_all-counts :
      (rounds : List (List (String × Report M) × List M)) (name : String) (s : SelfMetrics)
      → ((collect_all rounds s).total_scrapes ≡ s.total_scrapes + length rounds)
        × (errors_of name (collect_all rounds s) ≡ errors_of name s + all_failures name rounds)
  unfolding collect_all all_failures collect errors_of
  collect_all-counts [] name s = (ground arith, ground arith)
  collect_all-counts ((finished, forwarded) ∷ rest) name s =
      let started = record s { total_scrapes = suc s.total_scrapes } in
      let later = collect_all-counts rest name (instrument_all finished started) in
      let t = instrument_all-total finished started in
      let now = instrument_all-errors name finished started in
      (omega (arith, later.0, t), omega (arith, later.1, now))

  -- The value that the last of the finished collectors of a name gives its cardinality.
  unfoldable pub last_sent : String → List (String × Report M) → Option ℕ → Option ℕ
  last_sent name [] old = old
  last_sent name ((n, r) ∷ rs) old =
      last_sent name rs (if str_eq n name then some (length r.sent) else old)

  -- After Collect, the cardinality of each name is the number of metrics that the last collector of
  -- that name to return has sent, and what it was if there is none.
  pub collect-cardinality :
      (finished : List (String × Report M)) (forwarded : List M) (name : String) (s : SelfMetrics)
      → lookup name (collect finished forwarded s).0.metric_cardinality
        ≡ last_sent name finished (lookup name s.metric_cardinality)
  unfolding collect instrument_all instrument last_sent
  collect-cardinality finished forwarded name s =
      go finished (record s { total_scrapes = suc s.total_scrapes })
    where
      go :
          (xs : List (String × Report M)) (s : SelfMetrics)
          → lookup name (instrument_all xs s).metric_cardinality
            ≡ last_sent name xs (lookup name s.metric_cardinality)
      go [] s = refl
      go ((n, r) ∷ rs) s =
          go rs (instrument (n, r) s)
          ∙ ap (last_sent name rs) (lookup-insert n name (length r.sent) s.metric_cardinality)
