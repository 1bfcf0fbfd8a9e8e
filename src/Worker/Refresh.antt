-- ===== src/Worker/Refresh.antt =====
-- `_refresh_lag` of consumer_worker.py, and when a refresh is due. Times of `time.monotonic` and the
-- settings in seconds are integers of one unit.
use smart_warehouse_platform.Prelude.{
  ℕ, ℤ, pos, negsuc, ◌-ℤ◌, ltb_ℤ, max_ℤ, Bool, true, false, not, ◌&&◌, List, [], ◌∷◌, Option, none,
  some, Dict, lookup, insert, if◌then◌else◌,
}
use smart_warehouse_platform.Prelude.Eq.{int_eq}

-- The readings of the clock for the test and for the time that is kept.
pub record Clock : Type 0 where
  pub tested : ℤ
  pub kept : ℤ

abbrev pub is_due : ℤ → Clock → ℤ → Bool
is_due seconds clock last = not (ltb_ℤ (clock.tested -ℤ last) seconds)

-- `self._last_lag_refresh` and the gauge `consumer_lag`, by partition.
pub record LagState : Type 0 where
  pub last_lag_refresh : ℤ
  pub consumer_lag : Dict ℤ ℤ

-- What the client answers: whether it is closed; the partitions of the topic, if it is there; the
-- committed offsets of the partitions, in their order; and the high watermarks. none is an exception.
pub record LagAnswers : Type 0 where
  pub is_closed : Bool
  pub topic : Option (Option (List ℤ))
  pub committed : Option (List ℤ)
  pub high : ℤ → Option ℕ

-- The assigned partitions, or else those of the topic.
abbrev pub partitions_of : List ℤ → Option (Option (List ℤ)) → Option (List ℤ)
partitions_of (p ∷ ps) topic = some (p ∷ ps)
partitions_of [] none = none
partitions_of [] (some none) = some []
partitions_of [] (some (some ps)) = some ps

-- The dict of the committed offsets.
abbrev pub offsets : List ℤ → List ℤ → Dict ℤ ℤ → Dict ℤ ℤ
offsets (p ∷ ps) (offset ∷ rest) d = offsets ps rest (insert p offset d)
offsets _ _ d = d

-- The lag of a partition, from its watermark `high` and its committed offset, which is -1 if there
-- is none.
unfoldable pub lag_of : ℤ → ℤ → ℤ
lag_of high committed_offset =
    if ltb_ℤ committed_offset (pos 0) then high else max_ℤ (high -ℤ committed_offset) (pos 0)

abbrev pub or_minus_one : Option ℤ → ℤ
or_minus_one none = negsuc 0
or_minus_one (some offset) = offset

-- The loop over the partitions, with their watermarks and the offsets that `committed` has.
unfoldable pub lags : (ℤ → ℤ) → Dict ℤ ℤ → List ℤ → List (ℤ × ℤ)
unfolding lag_of
lags high committed [] = []
lags high committed (partition ∷ partitions) =
    (partition, lag_of (high partition) (or_minus_one (lookup partition committed)))
    ∷ lags high committed partitions

abbrev pub set_lags : List (ℤ × ℤ) → Dict ℤ ℤ → Dict ℤ ℤ
set_lags [] gauge = gauge
set_lags ((partition, lag) ∷ rest) gauge = set_lags rest (insert partition lag gauge)

-- The loop ends at the first partition whose watermarks raise.
abbrev pub has_answer : Option ℕ → Bool
has_answer none = false
has_answer (some n) = true

abbrev pub before_error : (ℤ → Option ℕ) → List ℤ → List ℤ
before_error high [] = []
before_error high (p ∷ ps) =
    let rest = before_error high ps in if has_answer (high p) then p ∷ rest else []

abbrev pub all_answer : (ℤ → Option ℕ) → List ℤ → Bool
all_answer high [] = true
all_answer high (p ∷ ps) = has_answer (high p) && all_answer high ps

abbrev pub watermark_or_zero : Option ℕ → ℤ
watermark_or_zero none = pos 0
watermark_or_zero (some n) = pos n

-- What is done once the partitions are known, and whether it raises.
unfoldable pub report_offsets : LagAnswers → List ℤ → Option (List ℤ) → LagState → Bool × LagState
unfolding lags
report_offsets client ps none state = (true, state)
report_offsets client ps (some committed) state = (
  not (all_answer client.high ps),
  record state {
    consumer_lag =
        set_lags
          (lags (λ partition. watermark_or_zero (client.high partition)) (offsets ps committed [])
            (before_error client.high ps))
          state.consumer_lag;
  },
)

unfoldable pub report_lags : LagAnswers → List ℤ → LagState → Bool × LagState
unfolding report_offsets
report_lags client [] state = (false, state)
report_lags client (p ∷ ps) state = report_offsets client (p ∷ ps) client.committed state

abbrev pub report_partitions : LagAnswers → Option (List ℤ) → LagState → Bool × LagState
report_partitions client none state = (true, state)
report_partitions client (some ps) state = report_lags client ps state

unfoldable pub refresh_lag : ℤ → Clock → LagAnswers → List ℤ → LagState → Bool × LagState
unfolding report_lags
refresh_lag seconds clock client assignment state =
    let due = record state { last_lag_refresh = clock.kept } in
    if is_due seconds clock state.last_lag_refresh
    then (if client.is_closed
        then (true, due)
        else report_partitions client (partitions_of assignment client.topic) due)
    else (false, state)
