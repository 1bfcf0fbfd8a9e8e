-- ===== src/Worker/Gauge.antt =====
-- What a refresh of the worker's lag leaves in the gauge.
use smart_warehouse_platform.Prelude.{
  All, contains, lookup, ℕ, ℤ, Bool, true, false, not, ap, List, [], ◌∷◌, some, ◌≡◌, ◌≢◌, ◌⊎◌, ◌≤ℤ◌,
  ◌-ℤ◌, refl, sym, subst, ◌∙◌, arith, inl, inr, if◌then◌else◌,
}
use smart_warehouse_platform.Prelude.Eq.{int_eq}
use smart_warehouse_platform.Worker.Refresh.{
  Clock, is_due, LagState, LagAnswers, partitions_of, offsets, lag_of, or_minus_one, lags, set_lags,
  all_answer, watermark_or_zero, report_offsets, report_lags, refresh_lag,
}
use smart_warehouse_platform.Worker.Offsets.{
  lookup-set_lags, all_answer-before_error, expected_lag, lag_of-expected_lag, committed_at,
  lookup-offsets, first_of-none, HasWatermark, HasWatermark-all_answer, watermark_of,
}

module _ (seconds : ℤ) (clock : Clock) (client : LagAnswers) (assignment : List ℤ)
    (state : LagState) where
  -- The partitions that a refresh is about: those assigned, or else those of the topic.
  abbrev pub AreRefreshed : List ℤ → Type 0
  AreRefreshed ps =
      ((ps ≢ []) × (assignment ≡ ps)) ⊎ ((assignment ≡ []) × (client.topic ≡ some (some ps)))

  -- A refresh that is due, and to whose calls the client answers: the partitions, their committed
  -- offsets, and the watermark of each.
  abbrev pub IsAnswered : List ℤ → List ℤ → Type 0
  IsAnswered ps committed =
      (seconds ≤ℤ clock.tested -ℤ state.last_lag_refresh)
      × (client.is_closed ≡ false)
      × AreRefreshed ps
      × (client.committed ≡ some committed)
      × All (HasWatermark client) ps

  is_due-refreshed :
      seconds ≤ℤ clock.tested -ℤ state.last_lag_refresh
      → is_due seconds clock state.last_lag_refresh ≡ true
  is_due-refreshed h = ground (arith, h)

  assigned : (ps : List ℤ) → ps ≢ [] → partitions_of ps client.topic ≡ some ps
  assigned [] h = absurd (h refl)
  assigned (p ∷ ps) h = refl

  partitions_of-refreshed :
      (ps : List ℤ) → AreRefreshed ps → partitions_of assignment client.topic ≡ some ps
  partitions_of-refreshed ps (inl (some_assigned, e)) = rw e (assigned ps some_assigned)
  partitions_of-refreshed ps (inr (none_assigned, e)) = rw none_assigned (rw e refl)

  abbrev lag_now : List ℤ → List ℤ → ℤ → ℤ
  lag_now ps committed p =
      lag_of (watermark_or_zero (client.high p)) (or_minus_one (lookup p (offsets ps committed [])))

  abbrev Sets : List ℤ → List ℤ → Bool × LagState → Type 0
  Sets ps committed r =
      (r.0 ≡ false)
      × (r.1.last_lag_refresh ≡ clock.kept)
      × ((p : ℤ)
          → lookup p r.1.consumer_lag ≡ (
              if contains ps p then some (lag_now ps committed p) else lookup p state.consumer_lag))

  abbrev due_state : LagState
  due_state = record state { last_lag_refresh = clock.kept }

  report_offsets-Sets :
      (ps committed : List ℤ)
      → all_answer client.high ps ≡ true
      → Sets ps committed (report_offsets client ps (some committed) due_state)
  unfolding report_offsets
  report_offsets-Sets ps committed all = (
    ap not all,
    refl,
    λ p.
        ap
          (λ qs. lookup p (
            set_lags (lags (λ q. watermark_or_zero (client.high q)) (offsets ps committed []) qs)
              state.consumer_lag))
          (all_answer-before_error client.high ps all)
        ∙ lookup-set_lags (λ q. watermark_or_zero (client.high q)) (offsets ps committed []) ps
            state.consumer_lag p,
  )

  report_lags-Sets :
      (ps committed : List ℤ)
      → client.committed ≡ some committed
      → all_answer client.high ps ≡ true
      → Sets ps committed (report_lags client ps due_state)
  unfolding report_lags
  report_lags-Sets [] committed c all = (refl, refl, λ p. refl)
  report_lags-Sets (q ∷ qs) committed c all =
      subst (λ m. Sets (q ∷ qs) committed (report_offsets client (q ∷ qs) m due_state)) (sym c)
        (report_offsets-Sets (q ∷ qs) committed all)

  -- What a refresh leaves of the partitions, whose offsets are answered in their order.
  abbrev pub Reports : List ℤ → List ℤ → Bool × LagState → Type 0
  Reports ps committed r =
      (r.0 ≡ false)
      × (r.1.last_lag_refresh ≡ clock.kept)
      × ((p : ℤ)
          → contains ps p ≡ true
          → (high : ℕ) × (client.high p ≡ some high)
            × (lookup p r.1.consumer_lag ≡ some (expected_lag high (committed_at ps committed p))))
      × ((p : ℤ) → contains ps p ≡ false → lookup p r.1.consumer_lag ≡ lookup p state.consumer_lag)

  lag_now-expected_lag :
      (ps committed : List ℤ) (p : ℤ) (high : ℕ)
      → client.high p ≡ some high
      → lag_now ps committed p ≡ expected_lag high (committed_at ps committed p)
  lag_now-expected_lag ps committed p high e = rw e (
      rw (lookup-offsets ps committed [] p) (
        rw (first_of-none (committed_at ps committed p))
          (lag_of-expected_lag high (committed_at ps committed p))))

  Sets-Reports :
      (ps committed : List ℤ) (r : Bool × LagState)
      → All (HasWatermark client) ps
      → Sets ps committed r
      → Reports ps committed r
  Sets-Reports ps committed r all (fine, time, sets) = (
    fine,
    time,
    λ p found.
        let (high, e) = watermark_of client ps p all found in
        (high, e, sets p ∙ rw found (ap some (lag_now-expected_lag ps committed p high e))),
    λ p other. sets p ∙ rw other refl,
  )

  -- A refresh that is due, and to whose calls the client answers, does not raise, keeps the time, and
  -- sets the gauge of each assigned partition, or of each partition of the topic if none is assigned,
  -- to its lag: the high watermark if no offset is committed, else the messages from the committed
  -- offset up to it. All other gauges stay.
  pub refresh_lag-Reports :
      (ps committed : List ℤ)
      → IsAnswered ps committed
      → Reports ps committed (refresh_lag seconds clock client assignment state)
  unfolding refresh_lag
  refresh_lag-Reports ps committed (due, is_open, found, c, all) =
      Sets-Reports ps committed (refresh_lag seconds clock client assignment state) all (
        rw (is_due-refreshed due) (
          rw is_open (
            rw (partitions_of-refreshed ps found)
              (report_lags-Sets ps committed c (HasWatermark-all_answer client ps all)))))
