-- ===== src/Telemetry/Export/Complete.antt =====
-- What a summary says that calls the telemetry complete.
use openhound_okta.Base.{
  ℕ, ◌+◌, ◌-◌, ◌≡◌, ◌⊎◌, refl, sym, ap, subst, ◌∙◌, Bool, true, false, not, ◌||◌, List, [], ◌∷◌,
  ◌++◌, map, ltb, arith, Bool-cases, inl, inr, All, ◌==◌, string_eq, nat_eq, String,
}
use openhound_okta.Telemetry.Export.{
  Flags, Summary, ExportRecord, run_start, interval_record, run_summary, Line, full, export_status,
  short_summary, Writer, opened, is_incomplete, stamped, shortened, summary_reserve_bytes,
  write_line, write_status, write_summary, write_data, write, write_all,
}
use openhound_okta.Telemetry.Export.Bounds.{IsData, write_all-snoc}

append_assoc {ℓ} : {A : Type ℓ} (xs ys zs : List A) → (xs ++ ys) ++ zs ≡ xs ++ (ys ++ zs)
append_assoc [] ys zs = refl
append_assoc (x ∷ xs) ys zs = ap (λ l. x ∷ l) (append_assoc xs ys zs)

append_nil {ℓ} : {A : Type ℓ} (xs : List A) → xs ++ [] ≡ xs
append_nil [] = refl
append_nil (x ∷ xs) = ap (λ l. x ∷ l) (append_nil xs)

-- A line is a summary that calls the telemetry complete.
abbrev pub says_complete : {Q : Type 0} → Line Q → Bool
says_complete (full (run_summary s)) = s.telemetry_state == "complete"
says_complete (full run_start) = false
says_complete (full (interval_record _ _ _)) = false
says_complete export_status = false
says_complete (short_summary s) = s.telemetry_state == "complete"

abbrev pub any_says_complete : {Q : Type 0} → List (Line Q) → Bool
any_says_complete [] = false
any_says_complete (line ∷ lines) = says_complete line || any_says_complete lines

any_says_complete-snoc :
    {Q : Type 0} (lines : List (Line Q)) (line : Line Q)
    → any_says_complete (lines ++ (line ∷ [])) ≡ (any_says_complete lines || says_complete line)
any_says_complete-snoc [] line = ground arith
any_says_complete-snoc (x ∷ lines) line = ground (arith, any_says_complete-snoc lines line)

data_says_nothing : {Q : Type 0} (r : ExportRecord Q) → IsData r → says_complete (full r) ≡ false
data_says_nothing run_start d = refl
data_says_nothing (interval_record n apps endpoints) d = refl
data_says_nothing (run_summary s) d = cc

stamped_says :
    {Q : Type 0} (f : Flags) (s : Summary Q)
    → says_complete (full (run_summary (stamped f s))) ≡ not (is_incomplete s.collection_state f)
unfolding stamped string_eq
stamped_says f s = elim (Bool-cases (is_incomplete s.collection_state f)) [
  | inl incomplete ↦ rw (stamped, incomplete) refl
  | inr fine ↦ rw (stamped, fine) refl
]

shortened_says_nothing :
    {Q : Type 0} (f : Flags) (s : Summary Q) → says_complete (short_summary (shortened f s)) ≡ false
unfolding shortened string_eq
shortened_says_nothing f s = refl

incomplete_lem :
    (state : String) (f : Flags)
    → is_incomplete state f ≡ false
    → (state ≡ "complete") × (f.dropped_records ≡ 0) × (f.output_truncated ≡ false)
unfolding is_incomplete
incomplete_lem state f h = (ground arith, ground arith, ground arith)

module _ {Q : Type 0} (size : Line Q → ℕ) (max_file_bytes : ℕ) where
  abbrev pub to_line : ExportRecord Q → Line Q
  to_line r = full r

  -- Either the output is truncated, or the record is written and nothing else changes.
  data_cases :
      (r : ExportRecord Q) (f : Flags) (w : Writer Q)
      → ((write_data size max_file_bytes r f w).0.output_truncated ≡ true)
        ⊎ (write_data size max_file_bytes r f w ≡ (f, write_line size max_file_bytes (full r) w))
  unfolding write_data
  data_cases r f w =
      elim (Bool-cases
        (ltb (max_file_bytes - summary_reserve_bytes) (w.bytes_written + size (full r)))) [
          | inl large ↦ inl (rw (write_data, large) refl)
          | inr fits ↦ elim (Bool-cases (ltb max_file_bytes (w.bytes_written + size (full r)))) [
            | inl larger ↦ inl (rw (write_data, fits, larger) refl)
            | inr small ↦ inr (rw (write_data, fits, small) refl)
          ]
        ]

  write_data-says_complete :
      (r : ExportRecord Q) (f : Flags) (w : Writer Q)
      → IsData r
      → any_says_complete w.file ≡ false
      → any_says_complete (write_data size max_file_bytes r f w).1.file ≡ false
  unfolding write_data write_status write_line
  write_data-says_complete r f w d h = ground (
    arith,
    any_says_complete-snoc w.file (full r),
    any_says_complete-snoc w.file export_status,
    data_says_nothing r d,
  )

  write_all-nil : (st : Flags × Writer Q) → write_all size max_file_bytes [] st ≡ st
  unfolding write_all
  write_all-nil st = refl

  write_all-data :
      (r : ExportRecord Q) (rs : List (ExportRecord Q)) (f : Flags) (w : Writer Q)
      → IsData r
      → write_all size max_file_bytes (r ∷ rs) (f, w)
        ≡ write_all size max_file_bytes rs (write_data size max_file_bytes r f w)
  unfolding write_all write
  write_all-data run_start rs f w d = refl
  write_all-data (interval_record n apps endpoints) rs f w d = refl
  write_all-data (run_summary s) rs f w d = cc

  -- Truncated, or every record so far written, as the flags began.
  abbrev Goes : List (ExportRecord Q) → Flags → Writer Q → Flags × Writer Q → Type 0
  Goes rs f w st =
      (any_says_complete st.1.file ≡ false)
      × ((st.0.output_truncated ≡ true) ⊎ ((st.0 ≡ f) × (st.1.file ≡ w.file ++ map to_line rs)))

  write_all-truncated :
      (rs : List (ExportRecord Q)) (st : Flags × Writer Q)
      → All IsData rs
      → any_says_complete st.1.file ≡ false
      → st.0.output_truncated ≡ true
      → (any_says_complete (write_all size max_file_bytes rs st).1.file ≡ false)
        × ((write_all size max_file_bytes rs st).0.output_truncated ≡ true)
  write_all-truncated [] st d h k = rw (write_all-nil st) (h, k)
  write_all-truncated (r ∷ rs) (f, w) (d, ds) h k = rw (write_all-data r rs f w d) (
      write_all-truncated rs (write_data size max_file_bytes r f w) ds
        (write_data-says_complete r f w d h)
        (elim (data_cases r f w) [
          | inl cut ↦ cut
          | inr kept ↦ ap (λ st. st.0.output_truncated) kept ∙ k
        ]))

  follows :
      (rs : List (ExportRecord Q)) (f : Flags) (w : Writer Q) (r : ExportRecord Q)
      (st : Flags × Writer Q)
      → Goes rs f (write_line size max_file_bytes (full r) w) st
      → Goes (r ∷ rs) f w st
  unfolding write_line
  follows rs f w r st (said, inl cut) = (said, inl cut)
  follows rs f w r st (said, inr (same, lines)) =
      (said, inr (same, lines ∙ append_assoc w.file (full r ∷ []) (map to_line rs)))

  write_all-Goes :
      (rs : List (ExportRecord Q)) (f : Flags) (w : Writer Q)
      → All IsData rs
      → any_says_complete w.file ≡ false
      → Goes rs f w (write_all size max_file_bytes rs (f, w))
  write_all-Goes [] f w d h = rw (write_all-nil (f, w)) (h, inr (refl, sym (append_nil w.file)))
  write_all-Goes (r ∷ rs) f w (d, ds) h = rw (write_all-data r rs f w d) (elim (data_cases r f w) [
    | inl cut ↦
        let (said, still) =
          write_all-truncated rs (write_data size max_file_bytes r f w) ds
            (write_data-says_complete r f w d h) cut in
        (said, inl still)
    | inr kept ↦ rw kept (
        follows rs f w r
          (write_all size max_file_bytes rs (f, write_line size max_file_bytes (full r) w))
          (write_all-Goes rs f (write_line size max_file_bytes (full r) w) ds (
            subst (λ st. any_says_complete st.1.file ≡ false) kept
              (write_data-says_complete r f w d h))))
  ])

  write_summary_complete :
      (rs : List (ExportRecord Q)) (s : Summary Q) (f : Flags) (st : Flags × Writer Q)
      → Goes rs f opened st
      → any_says_complete (write_summary size max_file_bytes s st.0 st.1).1.file ≡ true
      → ((write_summary size max_file_bytes s st.0 st.1).1.file
          ≡ map to_line rs ++ (full (run_summary (stamped f s)) ∷ []))
        × (f.dropped_records ≡ 0)
        × (s.collection_state ≡ "complete")
  unfolding write_summary write_line
  write_summary_complete rs s f (g, w) (said, went) h =
      let whole = full (run_summary (stamped g s)) in
      let short = short_summary (shortened g s) in
      elim (Bool-cases (ltb max_file_bytes (w.bytes_written + size whole))) [
        | inl large ↦
            ground (arith, said, any_says_complete-snoc w.file short, shortened_says_nothing g s)
        | inr fits ↦
            let fine : is_incomplete s.collection_state g ≡ false =
              ground (arith, any_says_complete-snoc w.file whole, stamped_says g s) in
            let (complete, none_dropped, kept) = incomplete_lem s.collection_state g fine in
            elim went [
              | inl cut ↦ cc
              | inr (same, lines) ↦
                  rw (write_summary, fits)
                    (
                      (ap (λ ls. ls ++ (whole ∷ [])) lines)
                          ∙ ap (λ x. map to_line rs ++ (full (run_summary (stamped x s)) ∷ []))
                              same,
                      subst (λ x. x.dropped_records ≡ 0) same none_dropped,
                      complete,
                    )
            ]
      ]

  -- If a summary in the file calls the telemetry complete, the collection was complete, no record was dropped before, and the
  -- file is every record of the queue, in order, with that summary behind them.
  pub complete_summary_is_true :
      (rs : List (ExportRecord Q)) (s : Summary Q) (f : Flags)
      → All IsData rs
      → any_says_complete
          (write_all size max_file_bytes (rs ++ (run_summary s ∷ [])) (f, opened)).1.file
        ≡ true
      → ((write_all size max_file_bytes (rs ++ (run_summary s ∷ [])) (f, opened)).1.file
          ≡ map to_line rs ++ (full (run_summary (stamped f s)) ∷ []))
        × (f.dropped_records ≡ 0)
        × (s.collection_state ≡ "complete")
  unfolding write
  complete_summary_is_true rs s f all_data =
      rw (write_all-snoc size max_file_bytes rs (run_summary s) (f, opened)) (
        write_summary_complete rs s f (write_all size max_file_bytes rs (f, opened))
          (write_all-Goes rs f opened all_data refl))
