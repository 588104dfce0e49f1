-- ===== src/Telemetry/Export/Bounds.antt =====
-- The file of the export: it stays within its size, and the reserve is enough for the summary.
use openhound_okta.Base.{
  ℕ, ◌+◌, ◌-◌, ◌≡◌, ◌≤◌, ◌⊎◌, refl, false, List, [], ◌∷◌, ◌++◌, ltb, arith, if◌then◌else◌,
  Bool-cases, inl, inr, All, total,
}
use openhound_okta.Telemetry.Export.{
  Flags, Summary, ExportRecord, run_start, interval_record, run_summary, Line, full, export_status,
  short_summary, Writer, opened, stamped, shortened, is_summary, summary_reserve_bytes, write_line,
  write_status, write_summary, write_data, write, write_all,
}

total-snoc {ℓ} :
    {A : Type ℓ} (w : A → ℕ) (xs : List A) (x : A) → total w (xs ++ (x ∷ [])) ≡ total w xs + w x
total-snoc w [] x = omega arith
total-snoc w (y ∷ ys) x = omega (arith, total-snoc w ys x)

abbrev pub IsData : {Q : Type 0} → ExportRecord Q → Type 0
IsData r = is_summary r ≡ false

module _ {Q : Type 0} (size : Line Q → ℕ) (max_file_bytes : ℕ) where
  -- The bytes are counted, and leave the reserve, less the status once that is written.
  record LeavesReserve (w : Writer Q) : Type 0 where
    counted : total size w.file ≡ w.bytes_written
    limited :
        w.bytes_written
        ≤ (max_file_bytes - summary_reserve_bytes)
          + (if w.truncation_written then size export_status else 0)

  written-counted :
      (line : Line Q) (w : Writer Q)
      → total size w.file ≡ w.bytes_written
      → total size (write_line size max_file_bytes line w).file
        ≡ (write_line size max_file_bytes line w).bytes_written
  unfolding write_line
  written-counted line w h = omega (arith, total-snoc size w.file line, h)

  write_status-LeavesReserve :
      (w : Writer Q) → LeavesReserve w → LeavesReserve (write_status size max_file_bytes w)
  unfolding write_status write_line
  write_status-LeavesReserve w h = record {
    counted = ground (arith, h.counted, written-counted export_status w h.counted);
    limited = ground (arith, h.limited);
  }

  write_data-LeavesReserve :
      (r : ExportRecord Q) (f : Flags) (w : Writer Q)
      → LeavesReserve w
      → LeavesReserve (write_data size max_file_bytes r f w).1
  unfolding write_data
  write_data-LeavesReserve r f w h =
      elim (Bool-cases
        (ltb (max_file_bytes - summary_reserve_bytes) (w.bytes_written + size (full r)))) [
          | inl large ↦ rw (write_data, large) (write_status-LeavesReserve w h)
          | inr fits ↦ elim (Bool-cases (ltb max_file_bytes (w.bytes_written + size (full r)))) [
            | inl larger ↦ rw (write_data, fits, larger) h
            | inr small ↦
                rw (write_data, fits, small)
                  (record {
                    counted = written-counted (full r) w h.counted;
                    limited = ground (arith, h.limited);
                  })
          ]
        ]

  write_all-LeavesReserve :
      (rs : List (ExportRecord Q)) (f : Flags) (w : Writer Q)
      → All IsData rs
      → LeavesReserve w
      → LeavesReserve (write_all size max_file_bytes rs (f, w)).1
  unfolding write_all write
  write_all-LeavesReserve [] f w d h = h
  write_all-LeavesReserve (run_start ∷ rs) f w (d, ds) h =
      let (f', w') = write_data size max_file_bytes run_start f w in
      write_all-LeavesReserve rs f' w' ds (write_data-LeavesReserve run_start f w h)
  write_all-LeavesReserve (interval_record n apps endpoints ∷ rs) f w (d, ds) h =
      let (f', w') = write_data size max_file_bytes (interval_record n apps endpoints) f w in
      write_all-LeavesReserve rs f' w' ds
        (write_data-LeavesReserve (interval_record n apps endpoints) f w h)
  write_all-LeavesReserve (run_summary s ∷ rs) f w (d, ds) h = cc

  -- The file ends with the summary, whole or cut short.
  abbrev pub EndsWith : Summary Q → Writer Q → Type 0
  EndsWith s w =
      (before : List (Line Q)) × (f : Flags) × ((w.file
          ≡ before ++ (full (run_summary (stamped f s)) ∷ []))
        ⊎ (w.file ≡ before ++ (short_summary (shortened f s) ∷ [])))

  write_summary_lem :
      (s : Summary Q) (f : Flags) (w : Writer Q)
      → LeavesReserve w
      → size export_status + size (short_summary (shortened f s)) ≤ summary_reserve_bytes
      → summary_reserve_bytes ≤ max_file_bytes
      → let w' = (write_summary size max_file_bytes s f w).1 in
        (total size w'.file ≡ w'.bytes_written)
        × (w'.bytes_written ≤ max_file_bytes)
        × EndsWith s w'
  unfolding write_summary write_line
  write_summary_lem s f w h room enough =
      let whole = full (run_summary (stamped f s)) in
      let short = short_summary (shortened f s) in
      elim (Bool-cases (ltb max_file_bytes (w.bytes_written + size whole))) [
        | inl large ↦
            let fits : ltb max_file_bytes (w.bytes_written + size short) ≡ false =
              ground (arith, h.limited) in
            rw (write_summary, large, fits)
              (written-counted short w h.counted, ground (arith, h.limited), (w.file, f, inr refl))
        | inr fits ↦
            rw (write_summary, fits)
              (written-counted whole w h.counted, ground arith, (w.file, f, inl refl))
      ]

  pub write_all-snoc :
      (rs : List (ExportRecord Q)) (r : ExportRecord Q) (st : Flags × Writer Q)
      → write_all size max_file_bytes (rs ++ (r ∷ [])) st
        ≡ write size max_file_bytes r (write_all size max_file_bytes rs st)
  unfolding write_all
  write_all-snoc [] r st = refl
  write_all-snoc (x ∷ rs) r st = write_all-snoc rs r (write size max_file_bytes x st)

  -- Whatever records are written before it, the summary ends the file, whole or cut short, and the file has at most as many
  -- bytes as the setting allows: the reserve is enough where the status and the short summary fit in it.
  pub summary_is_written :
      (rs : List (ExportRecord Q)) (s : Summary Q) (f : Flags)
      → All IsData rs
      → size export_status
          + size (short_summary (shortened (write_all size max_file_bytes rs (f, opened)).0 s))
        ≤ summary_reserve_bytes
      → summary_reserve_bytes ≤ max_file_bytes
      → let w = (write_all size max_file_bytes (rs ++ (run_summary s ∷ [])) (f, opened)).1 in
        (total size w.file ≡ w.bytes_written) × (w.bytes_written ≤ max_file_bytes) × EndsWith s w
  unfolding write
  summary_is_written rs s f all_data room enough =
      let st = write_all size max_file_bytes rs (f, opened) in
      let start : LeavesReserve opened = record { counted = refl; limited = omega arith } in
      rw (write_all-snoc rs (run_summary s) (f, opened)) (
        write_summary_lem s st.0 st.1 (write_all-LeavesReserve rs f opened all_data start) room
          enough)
