-- ===== src/Statistics/Metrics.antt =====
-- The exporter's counters of a driver as numbers of effects of the resolver.
use yeti_lnp_resolver.Base.{
  ℕ, ◌+◌, ◌≡◌, refl, sym, ap, ◌∙◌, inl, inr, true, false, Option, none, some, List, [], ◌∷◌, ℤ,
  eq_ℤ, eq_ℤ_iff, All, Bool-cases, Option-cases, arith,
}
use yeti_lnp_resolver.Base.Assoc.{lookup, lookup-All}
use yeti_lnp_resolver.Base.Counting.{count}
use yeti_lnp_resolver.Resolver.State.{
  Driver, Effect, send_data, count_increment, failed_increment, finished_increment, cache_sync,
  make_request,
}
use yeti_lnp_resolver.Resolver.Invariant.{IsKeyed}
use yeti_lnp_resolver.Statistics.{Labels, eq_Labels, Exporter, start}
use yeti_lnp_resolver.Statistics.Totals.{
  Metric, counted, failed, finished, initialized, record_all, counts, failures, finishes, one_if,
  value, record_all-totals, eq_Labels_iff,
}
use yeti_lnp_resolver.Statistics.Metering.{labels_of, init_metrics, init_rows, meter_effect, meter}
use yeti_lnp_resolver.Statistics.Ledger.{is_counted, is_settled, one_if_same}

-- The calls of the exporter that the effects stand for, and those of the rows before them.
abbrev cons_metric : Option Driver → (Driver → Metric) → List Metric → List Metric
cons_metric none f rest = rest
cons_metric (some d) f rest = f d ∷ rest

abbrev cons_effect : List (ℤ × Driver) → Effect → List Metric → List Metric
cons_effect ds (count_increment j) rest =
    cons_metric (lookup eq_ℤ j ds) (λ d. counted (labels_of d)) rest
cons_effect ds (failed_increment j) rest =
    cons_metric (lookup eq_ℤ j ds) (λ d. failed (labels_of d)) rest
cons_effect ds (finished_increment j time) rest =
    cons_metric (lookup eq_ℤ j ds) (λ d. finished (labels_of d) time) rest
cons_effect ds _ rest = rest

abbrev metrics : List (ℤ × Driver) → List Effect → List Metric
metrics ds [] = []
metrics ds (x ∷ xs) = cons_effect ds x (metrics ds xs)

abbrev init_list : List (Option Driver) → List Metric → List Metric
init_list [] rest = rest
init_list (none ∷ rows) rest = init_list rows rest
init_list (some d ∷ rows) rest = initialized (labels_of d) ∷ init_list rows rest

cons_effect-record_all :
    (ds : List (ℤ × Driver)) (x : Effect) (rest : List Metric) (e : Exporter)
    → record_all (cons_effect ds x rest) e ≡ record_all rest (meter_effect ds x e)
unfolding meter
cons_effect-record_all ds (count_increment j) rest e = elim (Option-cases (lookup eq_ℤ j ds)) [
  | inl absent ↦ rw absent refl
  | inr (d, found) ↦ rw found refl
]
cons_effect-record_all ds (failed_increment j) rest e = elim (Option-cases (lookup eq_ℤ j ds)) [
  | inl absent ↦ rw absent refl
  | inr (d, found) ↦ rw found refl
]
cons_effect-record_all ds (finished_increment j time) rest e =
    elim (Option-cases (lookup eq_ℤ j ds)) [
      | inl absent ↦ rw absent refl
      | inr (d, found) ↦ rw found refl
    ]
cons_effect-record_all ds (send_data client b) rest e = refl
cons_effect-record_all ds (cache_sync c) rest e = refl
cons_effect-record_all ds (make_request h) rest e = refl

meter-record_all :
    (ds : List (ℤ × Driver)) (xs : List Effect) (e : Exporter)
    → meter ds xs e ≡ record_all (metrics ds xs) e
unfolding meter
meter-record_all ds [] e = refl
meter-record_all ds (x ∷ xs) e =
    meter-record_all ds xs (meter_effect ds x e)
    ∙ sym (cons_effect-record_all ds x (metrics ds xs) e)

init_rows-record_all :
    (rows : List (Option Driver)) (rest : List Metric) (e : Exporter)
    → record_all rest (init_rows rows e) ≡ record_all (init_list rows rest) e
unfolding init_rows
init_rows-record_all [] rest e = refl
init_rows-record_all (none ∷ rows) rest e = init_rows-record_all rows rest e
init_rows-record_all (some d ∷ rows) rest e = init_rows-record_all rows rest (init_metrics d e)

-- The rows count, fail and finish nothing.
init_list-counts :
    (l : Labels) (rows : List (Option Driver)) (rest : List Metric)
    → (counts l (init_list rows rest) ≡ counts l rest)
      × (failures l (init_list rows rest) ≡ failures l rest)
      × (finishes l (init_list rows rest) ≡ finishes l rest)
init_list-counts l [] rest = (refl, refl, refl)
init_list-counts l (none ∷ rows) rest = init_list-counts l rows rest
init_list-counts l (some d ∷ rows) rest = init_list-counts l rows rest

module _ (ds : List (ℤ × Driver)) (keyed : All IsKeyed ds) (i : ℤ) (d : Driver)
    (found : lookup eq_ℤ i ds ≡ some d) where
  absent_elsewhere : (j : ℤ) → lookup eq_ℤ j ds ≡ none → one_if_same j i ≡ 0
  absent_elsewhere j absent = elim (Bool-cases (eq_ℤ j i)) [
    | inl same ↦ let here : j ≡ i = (eq_ℤ_iff j i).0 same in cc
    | inr differ ↦ rw differ refl
  ]

  -- Two drivers of the map have the same labels only if they are the same.
  labels_test :
      (j : ℤ) (other : Driver)
      → lookup eq_ℤ j ds ≡ some other
      → one_if (labels_of other) (labels_of d) 1 ≡ one_if_same j i
  labels_test j other e =
      let mine : i ≡ d.unique_id = lookup-All eq_ℤ eq_ℤ_iff IsKeyed i d ds keyed found in
      let theirs : j ≡ other.unique_id = lookup-All eq_ℤ eq_ℤ_iff IsKeyed j other ds keyed e in
      elim (Bool-cases (eq_ℤ j i)) [
        | inl same ↦
            let here : j ≡ i = (eq_ℤ_iff j i).0 same in
            let one : other ≡ d = cc in
            let equal : eq_Labels (labels_of other) (labels_of d) ≡ true =
              (eq_Labels_iff (labels_of other) (labels_of d)).1 (ap labels_of one) in
            rw (same, equal) refl
        | inr differ ↦
            ground
              (arith, eq_Labels_iff (labels_of other) (labels_of d), eq_ℤ_iff j i, mine, theirs)
      ]

  cons_counted :
      (j : ℤ) (rest : List Metric)
      → counts
          (labels_of d)
          (cons_metric (lookup eq_ℤ j ds) (λ other. counted (labels_of other)) rest)
        ≡ one_if_same j i + counts (labels_of d) rest
  cons_counted j rest = elim (Option-cases (lookup eq_ℤ j ds)) [
    | inl absent ↦ rw absent (omega (arith, absent_elsewhere j absent))
    | inr (other, e) ↦ rw e (omega (arith, labels_test j other e))
  ]

  cons_failed :
      (j : ℤ) (rest : List Metric)
      → failures
          (labels_of d)
          (cons_metric (lookup eq_ℤ j ds) (λ other. failed (labels_of other)) rest)
        ≡ one_if_same j i + failures (labels_of d) rest
  cons_failed j rest = elim (Option-cases (lookup eq_ℤ j ds)) [
    | inl absent ↦ rw absent (omega (arith, absent_elsewhere j absent))
    | inr (other, e) ↦ rw e (omega (arith, labels_test j other e))
  ]

  cons_finished :
      (j : ℤ) (time : ℕ) (rest : List Metric)
      → finishes
          (labels_of d)
          (cons_metric (lookup eq_ℤ j ds) (λ other. finished (labels_of other) time) rest)
        ≡ one_if_same j i + finishes (labels_of d) rest
  cons_finished j time rest = elim (Option-cases (lookup eq_ℤ j ds)) [
    | inl absent ↦ rw absent (omega (arith, absent_elsewhere j absent))
    | inr (other, e) ↦ rw e (omega (arith, labels_test j other e))
  ]

  -- A metric of one kind leaves the numbers of the other kinds.
  cons_unrelated :
      (o : Option Driver) (f : Driver → Metric) (measure : List Metric → ℕ) (rest : List Metric)
      → ((other : Driver) → measure (f other ∷ rest) ≡ measure rest)
      → measure (cons_metric o f rest) ≡ measure rest
  cons_unrelated none f measure rest same = refl
  cons_unrelated (some other) f measure rest same = same other

  -- The metrics count as many requests as the effects, and settle as many.
  abbrev Agrees : List Effect → List Metric → Type 0
  Agrees xs ms =
      (counts (labels_of d) ms ≡ count (is_counted i) xs)
      × (failures (labels_of d) ms + finishes (labels_of d) ms ≡ count (is_settled i) xs)

  cons_effect-Agrees :
      (x : Effect) (xs : List Effect) (ms : List Metric)
      → Agrees xs ms
      → Agrees (x ∷ xs) (cons_effect ds x ms)
  cons_effect-Agrees (count_increment j) xs ms (p, q) =
      let o = lookup eq_ℤ j ds in
      let f : Driver → Metric = λ other. counted (labels_of other) in
      let failing = cons_unrelated o f (failures (labels_of d)) ms (λ other. refl) in
      let finishing = cons_unrelated o f (finishes (labels_of d)) ms (λ other. refl) in
      (omega (arith, p, cons_counted j ms), omega (arith, q, failing, finishing))
  cons_effect-Agrees (failed_increment j) xs ms (p, q) =
      let o = lookup eq_ℤ j ds in
      let f : Driver → Metric = λ other. failed (labels_of other) in
      let counting = cons_unrelated o f (counts (labels_of d)) ms (λ other. refl) in
      let finishing = cons_unrelated o f (finishes (labels_of d)) ms (λ other. refl) in
      (omega (arith, p, counting), omega (arith, q, cons_failed j ms, finishing))
  cons_effect-Agrees (finished_increment j time) xs ms (p, q) =
      let o = lookup eq_ℤ j ds in
      let f : Driver → Metric = λ other. finished (labels_of other) time in
      let counting = cons_unrelated o f (counts (labels_of d)) ms (λ other. refl) in
      let failing = cons_unrelated o f (failures (labels_of d)) ms (λ other. refl) in
      (omega (arith, p, counting), omega (arith, q, cons_finished j time ms, failing))
  cons_effect-Agrees (send_data client b) xs ms a = (omega (arith, a.0), omega (arith, a.1))
  cons_effect-Agrees (cache_sync c) xs ms a = (omega (arith, a.0), omega (arith, a.1))
  cons_effect-Agrees (make_request h) xs ms a = (omega (arith, a.0), omega (arith, a.1))

  metrics-Agrees : (xs : List Effect) → Agrees xs (metrics ds xs)
  metrics-Agrees [] = (refl, refl)
  metrics-Agrees (x ∷ xs) = cons_effect-Agrees x xs (metrics ds xs) (metrics-Agrees xs)

  -- The exporter that was started, given the rows and then the effects, has counted as many of the
  -- driver's requests as the effects, and settled as many.
  pub meter-values :
      (rows : List (Option Driver)) (xs : List Effect) (e : Exporter)
      → e.is_undefined ≡ false
      → let t = meter ds xs (init_rows rows (start true e)) in
        (value (labels_of d) t.requests_count ≡ count (is_counted i) xs)
        × (value (labels_of d) t.requests_failed + value (labels_of d) t.requests_finished
            ≡ count (is_settled i) xs)
        × (t.is_undefined ≡ false)
  meter-values rows xs e undefined =
      let l = labels_of d in
      let all = init_list rows (metrics ds xs) in
      let totals = record_all-totals l all e undefined in
      let kept = init_list-counts l rows (metrics ds xs) in
      let agrees = metrics-Agrees xs in
      let same : meter ds xs (init_rows rows (start true e)) ≡ record_all all (start true e) =
        meter-record_all ds xs (init_rows rows (start true e))
        ∙ init_rows-record_all rows (metrics ds xs) (start true e) in
      rw same (
        totals.0 ∙ kept.0 ∙ agrees.0,
        omega (arith, totals.1, totals.2, kept.1, kept.2, agrees.1),
        totals.4,
      )
