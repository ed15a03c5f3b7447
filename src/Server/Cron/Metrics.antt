-- ===== src/Server/Cron/Metrics.antt =====
-- The rates of src/cache.c: trackInstantaneousMetric, getInstantaneousMetric and getLRUClock, on
-- values that are small enough not to overflow a long long.
use native.Mathlib.Nat.{zero-div}
use jmeter_on_k8s.Prelude.{
  ℕ, zero, suc, ◌+◌, ◌-◌, ◌*◌, ◌/◌, ◌%◌, ◌<◌, ◌^◌, ◌≡◌, refl, ap, true, Option, none, some, List,
  [], ◌∷◌, ltb, if◌then◌else◌, ◌>>=◌, length, set, Bool-cases, inl, inr, replicate, arith,
}

-- An element of server.inst_metric.
pub record InstMetric : Type 0 where
  pub last_sample_time : ℕ
  pub last_sample_count : ℕ
  pub samples : List ℕ
  pub idx : ℕ

-- samples[idx] = v, which faults outside the array
abbrev store_sample : List ℕ → ℕ → ℕ → Option (List ℕ)
store_sample samples idx v = if ltb idx (length samples) then some (set samples idx v) else none

-- t > 0 ? ops * 1000 / t : 0, with t = now - last_sample_time
abbrev ops_per_second : ℕ → ℕ → ℕ → ℕ
ops_per_second ops now last = if ltb last now then ops * 1000 / (now - last) else 0

-- `now` and `now'` are the two calls of mstime. The source overwrites the reading with the last one.
unfoldable pub track_instantaneous_metric : ℕ → ℕ → InstMetric → ℕ → Option InstMetric
track_instantaneous_metric now now' m current_reading =
    let current_reading' = m.last_sample_count in
    let ops = current_reading' in
    store_sample m.samples m.idx (ops_per_second ops now m.last_sample_time) >>= λ samples.
    some (record {
      last_sample_time = now';
      last_sample_count = current_reading';
      samples = samples;
      idx = (m.idx + 1) % 16;
    })

abbrev pub sum_samples : List ℕ → ℕ
sum_samples [] = 0
sum_samples (x ∷ xs) = x + sum_samples xs

abbrev pub get_instantaneous_metric : InstMetric → ℕ
get_instantaneous_metric m = sum_samples m.samples / 16

abbrev pub get_lru_clock : ℕ → ℕ
get_lru_clock mstime = mstime / 1000 % 2 ^ 24

-- One call of the tracking for each reading, with its two times.
unfoldable pub track_readings : List (ℕ × ℕ × ℕ) → InstMetric → Option InstMetric
track_readings [] m = some m
track_readings ((now, now', reading) ∷ rs) m =
    track_instantaneous_metric now now' m reading >>= λ m'. track_readings rs m'

-- The state of a metric in a server that has just started.
abbrev pub fresh_metric : InstMetric
fresh_metric = record {
  last_sample_time = 0;
  last_sample_count = 0;
  samples = replicate 16 0;
  idx = 0;
}

-- All samples are 0, and the index is one of the array.
record IsStuck (m : InstMetric) : Type 0 where
  pub zeros : m.samples ≡ replicate 16 0
  pub in_range : m.idx < 16
  pub no_count : m.last_sample_count ≡ 0

set-replicate : (n i : ℕ) → set {A = ℕ} (replicate n 0) i 0 ≡ replicate n 0
set-replicate zero i = refl
set-replicate (suc n) zero = refl
set-replicate (suc n) (suc i) = ap (λ (xs : List ℕ). 0 ∷ xs) (set-replicate n i)

no_ops : (now last : ℕ) → ops_per_second 0 now last ≡ 0
no_ops now last = elim (Bool-cases (ltb last now)) [
  | inl e ↦ rw e (zero-div (now - last))
  | inr e ↦ rw e refl
]

track-IsStuck :
    (now now' : ℕ) (m : InstMetric) (reading : ℕ)
    → IsStuck m
    → (m' : InstMetric) × (track_instantaneous_metric now now' m reading ≡ some m') × IsStuck m'
unfolding track_instantaneous_metric
track-IsStuck now now' m reading ok =
    let small : ltb m.idx 16 ≡ true = ground (arith, ok.in_range) in
    (
      record {
        last_sample_time = now';
        last_sample_count = 0;
        samples = replicate 16 0;
        idx = (m.idx + 1) % 16;
      },
      rw ok.no_count (
          rw ok.zeros (
            rw small (
              rw (no_ops now m.last_sample_time) (
                ap
                  (λ xs. some (record {
                    last_sample_time = now';
                    last_sample_count = 0;
                    samples = xs;
                    idx = (m.idx + 1) % 16;
                  }))
                  (set-replicate 16 m.idx))))),
      record { zeros = refl; in_range = omega arith; no_count = refl },
    )

track_readings-IsStuck :
    (rs : List (ℕ × ℕ × ℕ)) (m : InstMetric)
    → IsStuck m
    → (m' : InstMetric) × (track_readings rs m ≡ some m') × IsStuck m'
unfolding track_readings
track_readings-IsStuck [] m ok = (m, refl, ok)
track_readings-IsStuck ((now, now', reading) ∷ rs) m ok =
    let (m1, run1, ok1) = track-IsStuck now now' m reading ok in
    let (m2, run2, ok2) = track_readings-IsStuck rs m1 ok1 in (m2, rw (run1, ◌>>=◌) run2, ok2)

-- However the clock and the readings go, trackInstantaneousMetric never writes outside the samples of
-- a metric of a server that has just started, its index stays in the array, and the rate that
-- getInstantaneousMetric gives is 0: the readings are lost.
pub track_readings-get_instantaneous_metric :
    (rs : List (ℕ × ℕ × ℕ))
    → (m : InstMetric) × (track_readings rs fresh_metric ≡ some m)
      × (length m.samples ≡ 16)
      × (m.idx < 16)
      × (get_instantaneous_metric m ≡ 0)
track_readings-get_instantaneous_metric rs =
    let (m, run, ok) =
      track_readings-IsStuck rs fresh_metric
        (record { zeros = refl; in_range = omega arith; no_count = refl }) in
    (m, run, ap length ok.zeros, ok.in_range, ap (λ xs. sum_samples xs / 16) ok.zeros)
