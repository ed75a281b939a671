-- ===== src/Statistics/Totals.antt =====
-- What the exporter's counters add up to, and the use of a family that was freed.
use yeti_lnp_resolver.Base.{
  ◌≡◌, refl, ◌↔◌, ℕ, ◌+◌, true, false, List, [], ◌∷◌, equal_iff, eq_ℤ_iff, if◌then◌else◌, arith,
}
use yeti_lnp_resolver.Statistics.{
  Labels, eq_Labels, Family, family, Exporter, add, driver_requests_count_increment,
  driver_requests_failed_increment, driver_requests_finished_increment, driver_init_metrics, stop,
  start,
}

pub eq_Labels_iff : (a b : Labels) → (eq_Labels a b ≡ true) ↔ (a ≡ b)
eq_Labels_iff (s, a) (t, b) = ground (arith, equal_iff s t, eq_ℤ_iff a b)

abbrev pub value_in : Labels → List (Labels × ℕ) → ℕ
value_in l [] = 0
value_in l ((k, n) ∷ m) = if eq_Labels k l then n else value_in l m

-- The value of a counter, 0 if it does not exist.
abbrev pub value : Labels → Family → ℕ
value l (family m) = value_in l m
value l _ = 0

value_in-add :
    (l k : Labels) (v : ℕ) (m : List (Labels × ℕ))
    → value_in l (add k v m) ≡ value_in l m + (if eq_Labels k l then v else 0)
unfolding add
value_in-add l k v [] = ground arith
value_in-add l k v ((i, n) ∷ m) =
    ground (arith, eq_Labels_iff i k, eq_Labels_iff i l, eq_Labels_iff k l, value_in-add l k v m)

-- The calls of the resolver.
pub data Metric : Type 0 where
  counted failed initialized : Labels → Metric
  finished : Labels → ℕ → Metric

abbrev pub record_metric : Metric → Exporter → Exporter
record_metric (counted l) e = driver_requests_count_increment l e
record_metric (failed l) e = driver_requests_failed_increment l e
record_metric (initialized l) e = driver_init_metrics l e
record_metric (finished l t) e = driver_requests_finished_increment l t e

abbrev pub record_all : List Metric → Exporter → Exporter
record_all [] e = e
record_all (x ∷ xs) e = record_all xs (record_metric x e)

-- How many requests with the labels were counted, failed and finished, and their time.
abbrev pub one_if : Labels → Labels → ℕ → ℕ
one_if k l v = if eq_Labels k l then v else 0

abbrev pub counts : Labels → List Metric → ℕ
counts l [] = 0
counts l (counted k ∷ xs) = one_if k l 1 + counts l xs
counts l (x ∷ xs) = counts l xs

abbrev pub failures : Labels → List Metric → ℕ
failures l [] = 0
failures l (failed k ∷ xs) = one_if k l 1 + failures l xs
failures l (x ∷ xs) = failures l xs

abbrev pub finishes : Labels → List Metric → ℕ
finishes l [] = 0
finishes l (finished k t ∷ xs) = one_if k l 1 + finishes l xs
finishes l (x ∷ xs) = finishes l xs

abbrev pub times : Labels → List Metric → ℕ
times l [] = 0
times l (finished k t ∷ xs) = one_if k l t + times l xs
times l (x ∷ xs) = times l xs

-- All four families are there, and nothing that was freed has been used.
abbrev IsStarted :
    Exporter
    → List (Labels × ℕ)
    → List (Labels × ℕ)
    → List (Labels × ℕ)
    → List (Labels × ℕ)
    → Type 0
IsStarted e c f d t =
    (e.requests_count ≡ family c)
    × (e.requests_failed ≡ family f)
    × (e.requests_finished ≡ family d)
    × (e.requests_time ≡ family t)
    × (e.is_undefined ≡ false)

-- What the counters are to be after further calls.
abbrev Totals :
    Labels
    → List Metric
    → List (Labels × ℕ)
    → List (Labels × ℕ)
    → List (Labels × ℕ)
    → List (Labels × ℕ)
    → Exporter
    → Type 0
Totals l xs c f d t e =
    (value l e.requests_count ≡ value_in l c + counts l xs)
    × (value l e.requests_failed ≡ value_in l f + failures l xs)
    × (value l e.requests_finished ≡ value_in l d + finishes l xs)
    × (value l e.requests_time ≡ value_in l t + times l xs)
    × (e.is_undefined ≡ false)

record_all-Totals :
    (l : Labels) (xs : List Metric) (c f d t : List (Labels × ℕ)) (e : Exporter)
    → IsStarted e c f d t
    → Totals l xs c f d t (record_all xs e)
unfolding driver_requests_count_increment driver_requests_failed_increment
    driver_requests_finished_increment driver_init_metrics
record_all-Totals l [] c f d t e (ec, ef, ed, et, eu) =
    rw (ec, ef, ed, et) (omega arith, omega arith, omega arith, omega arith, eu)
record_all-Totals l (counted k ∷ xs) c f d t e (ec, ef, ed, et, eu) =
    let rest =
      record_all-Totals l xs (add k 1 c) f d t (driver_requests_count_increment k e)
        (rw ec refl, ef, ed, et, rw ec eu) in
    (omega (arith, rest.0, value_in-add l k 1 c), rest.1, rest.2, rest.3, rest.4)
record_all-Totals l (failed k ∷ xs) c f d t e (ec, ef, ed, et, eu) =
    let rest =
      record_all-Totals l xs c (add k 1 f) d t (driver_requests_failed_increment k e)
        (ec, rw ef refl, ed, et, rw ef eu) in
    (rest.0, omega (arith, rest.1, value_in-add l k 1 f), rest.2, rest.3, rest.4)
record_all-Totals l (finished k n ∷ xs) c f d t e (ec, ef, ed, et, eu) =
    let rest =
      record_all-Totals l xs c f (add k 1 d) (add k n t) (driver_requests_finished_increment k n e)
        (ec, ef, rw ed refl, rw et refl, rw (ed, et) eu) in
    (
      rest.0,
      rest.1,
      omega (arith, rest.2, value_in-add l k 1 d),
      omega (arith, rest.3, value_in-add l k n t),
      rest.4,
    )
record_all-Totals l (initialized k ∷ xs) c f d t e (ec, ef, ed, et, eu) =
    let rest =
      record_all-Totals l xs (add k 0 c) (add k 0 f) (add k 0 d) (add k 0 t)
        (driver_init_metrics k e)
        (rw ec refl, rw ef refl, rw ed refl, rw et refl, rw (ec, ef, ed, et) eu) in
    (
      ground (arith, rest.0, value_in-add l k 0 c),
      ground (arith, rest.1, value_in-add l k 0 f),
      ground (arith, rest.2, value_in-add l k 0 d),
      ground (arith, rest.3, value_in-add l k 0 t),
      rest.4,
    )

-- Once the exporter has started, the counters of every name and identifier are, after any calls,
-- as many as the requests counted, failed and finished with them, and the sum of their times, and
-- nothing that was freed is used, if nothing was before.
pub record_all-totals :
    (l : Labels) (xs : List Metric) (e : Exporter)
    → e.is_undefined ≡ false
    → let t = record_all xs (start true e) in
      (value l t.requests_count ≡ counts l xs)
      × (value l t.requests_failed ≡ failures l xs)
      × (value l t.requests_finished ≡ finishes l xs)
      × (value l t.requests_time ≡ times l xs)
      × (t.is_undefined ≡ false)
unfolding start
record_all-totals l xs e u =
    let all = record_all-Totals l xs [] [] [] [] (start true e) (refl, refl, refl, refl, u) in
    (omega (arith, all.0), omega (arith, all.1), omega (arith, all.2), omega (arith, all.3), all.4)

-- If an exporter that has started is started again and the HTTP server cannot be bound, the next
-- request that finishes is counted in memory that was freed; one that fails or is counted is not.
start-freed :
    (l : Labels) (time : ℕ) (m : List (Labels × ℕ)) (e : Exporter)
    → e.requests_finished ≡ family m
    → e.is_undefined ≡ false
    → let again = start false e in
      ((driver_requests_finished_increment l time again).is_undefined ≡ true)
      × ((driver_requests_failed_increment l again).is_undefined ≡ false)
      × ((driver_requests_count_increment l again).is_undefined ≡ false)
unfolding start stop driver_requests_count_increment driver_requests_failed_increment
    driver_requests_finished_increment
start-freed l time m e found u = (rw found refl, u, u)
