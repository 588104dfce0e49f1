-- ===== src/Telemetry/Recorder/Totals.antt =====
-- What the totals of a recorder and its interval add up to.
use openhound_okta.Base.{
  ℕ, suc, ◌+◌, ◌≡◌, refl, ap, ◌∙◌, Bool, true, false, some, String, [], ◌∷◌, leb, ◌==◌, arith,
  Bool-cases, inl, inr, string_eq,
}
use openhound_okta.Base.Dict.{Dict, lookup, insert, lookup-cons}
use openhound_okta.Telemetry.Measurements.{EndpointMeasurements, merge}
use openhound_okta.Telemetry.Export.{interval_record, ExportRecord}
use openhound_okta.Telemetry.Recorder.{Recorder, no_measurements}
use openhound_okta.Telemetry.Recorder.Steps.{
  insert_item, sorted_items, get_or_none, absorb, enqueue, rolled_over, report, flush, aggregate,
}

-- A quantity that merging adds up.
pub record IsAdditive {Q : Type 0} (w : EndpointMeasurements Q → ℕ) : Type 0 where
  pub nothing : w no_measurements ≡ 0
  pub merged : (m other : EndpointMeasurements Q) → w (merge m other) ≡ w m + w other

module _ {Q : Type 0} where
  pub get_or_none-here :
      (k j : String) (m : EndpointMeasurements Q) (d : Dict String (EndpointMeasurements Q))
      → (k == j) ≡ true
      → get_or_none k ((j, m) ∷ d) ≡ m
  unfolding get_or_none
  get_or_none-here k j m d h =
      let found : lookup k ((j, m) ∷ d) ≡ some m = lookup-cons k j m d ∙ rw h refl in
      rw (get_or_none, found) refl

  pub get_or_none-later :
      (k j : String) (m : EndpointMeasurements Q) (d : Dict String (EndpointMeasurements Q))
      → (k == j) ≡ false
      → get_or_none k ((j, m) ∷ d) ≡ get_or_none k d
  unfolding get_or_none
  get_or_none-later k j m d h =
      let past : lookup k ((j, m) ∷ d) ≡ lookup k d = lookup-cons k j m d ∙ rw h refl in
      rw (get_or_none, past) refl

  pub get_or_none-nil : (k : String) → get_or_none {Q = Q} k [] ≡ no_measurements
  unfolding get_or_none lookup
  get_or_none-nil k = refl

module _ {Q : Type 0} (w : EndpointMeasurements Q → ℕ) where
  -- The quantity over all endpoints.
  abbrev pub total_of : Dict String (EndpointMeasurements Q) → ℕ
  total_of [] = 0
  total_of ((_, m) ∷ d) = w m + total_of d

  -- The quantity in the totals and in the interval.
  abbrev pub measured : Recorder Q → ℕ
  measured s = total_of s.summary + total_of s.interval

  total_of-insert_item :
      (k : String) (m : EndpointMeasurements Q) (d : Dict String (EndpointMeasurements Q))
      → total_of (insert_item k m d) ≡ w m + total_of d
  unfolding insert_item
  total_of-insert_item k m [] = omega arith
  total_of-insert_item k m ((j, x) ∷ d) = ground (arith, total_of-insert_item k m d)

  pub total_of-sorted_items :
      (d : Dict String (EndpointMeasurements Q)) → total_of (sorted_items d) ≡ total_of d
  unfolding sorted_items
  total_of-sorted_items [] = refl
  total_of-sorted_items ((k, m) ∷ d) =
      total_of-insert_item k m (sorted_items d) ∙ ap (λ n. w m + n) (total_of-sorted_items d)

  module _ (additive : IsAdditive w) where
    total_of-insert :
        (k : String) (m : EndpointMeasurements Q) (d : Dict String (EndpointMeasurements Q))
        → total_of (insert k m d) + w (get_or_none k d) ≡ total_of d + w m
    unfolding insert
    total_of-insert k m [] = rw (get_or_none-nil {Q = Q} k) (omega (arith, additive.nothing))
    total_of-insert k m ((j, x) ∷ d) = elim (Bool-cases (k == j)) [
      | inl same ↦ rw (same, get_or_none-here k j x d same) (omega arith)
      | inr other ↦
          rw (other, get_or_none-later k j x d other) (omega (arith, total_of-insert k m d))
    ]

    total_of-absorb :
        (totals d : Dict String (EndpointMeasurements Q))
        → total_of (absorb totals d) ≡ total_of totals + total_of d
    unfolding absorb
    total_of-absorb totals [] = omega arith
    total_of-absorb totals ((k, m) ∷ d) = ground (
      arith,
      additive.merged (get_or_none k totals) m,
      total_of-insert k (merge (get_or_none k totals) m) totals,
      total_of-absorb (insert k (merge (get_or_none k totals) m) totals) d,
    )

    pub measured-aggregate :
        (template : String → String) (endpoint : String)
        (change : EndpointMeasurements Q → EndpointMeasurements Q) (n : ℕ) (s : Recorder Q)
        → ((m : EndpointMeasurements Q) → w (change m) ≡ w m + n)
        → measured (aggregate template endpoint change s) ≡ measured s + n
    unfolding aggregate
    measured-aggregate template endpoint change n s h =
        let old = get_or_none (template endpoint) s.interval in
        omega (arith, h old, total_of-insert (template endpoint) (change old) s.interval)

    pub measured-enqueue :
        (r : ExportRecord Q) (priority : Bool) (s : Recorder Q)
        → measured (enqueue r priority s) ≡ measured s
    unfolding enqueue
    measured-enqueue r priority s = refl

    measured-rolled_over : (now : ℕ) (s : Recorder Q) → measured (rolled_over now s) ≡ measured s
    unfolding rolled_over
    measured-rolled_over now s = omega (arith, total_of-absorb s.summary s.interval)

    measured-report : (r : ExportRecord Q) (s : Recorder Q) → measured (report r s) ≡ measured s
    unfolding report
    measured-report r s =
        elim (Bool-cases (leb s.settings.max_interval_records s.interval_records)) [
          | inl many ↦ rw (report, many) refl
          | inr few ↦
              rw (report, few)
                (measured-enqueue r false (record s { interval_records = suc s.interval_records }))
        ]

    pub measured-flush :
        (force : Bool) (now : ℕ) (s : Recorder Q) → measured (flush force now s) ≡ measured s
    unfolding flush
    measured-flush force now s = ground (
      arith,
      measured-report
          (interval_record (suc s.sequence) (sorted_items s.app_interval) (sorted_items s.interval))
          (rolled_over now s),
      measured-rolled_over now s,
    )
