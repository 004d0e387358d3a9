-- ===== src/Uploader/Folder/Scan.antt =====
-- What a scan finds.
use ubki_uploader.Prelude.{
  ℕ, ◌+◌, ◌≡◌, refl, String, Bool, ◌&&◌, not, List, [], ◌∷◌, arith, count_where, count-order_by,
  select, order_by,
}
use ubki_uploader.Config.{Config}
use ubki_uploader.Uploader.Summary.{RunSummary}
use ubki_uploader.Uploader.Folder.{Entry, name_before, is_considered, is_settled, scan, scan_folder}

module _ (matches : String → Bool) (now : ℕ) (config : Config) where
  abbrev pub is_eligible : Entry → Bool
  is_eligible e = is_considered e && matches e.name && is_settled now config e

  abbrev pub is_foreign : Entry → Bool
  is_foreign e = is_considered e && not (matches e.name)

  scan-select :
      (entries : List Entry) (summary : RunSummary)
      → (scan matches now config entries summary).0 ≡ select is_eligible entries
  unfolding scan
  scan-select [] summary = refl
  scan-select (e ∷ entries) summary = ground (
    arith,
    scan-select entries summary,
    scan-select entries (record summary { files_skipped = summary.files_skipped + 1 }),
  )

  scan_skips :
      (entries : List Entry) (summary : RunSummary)
      → (scan matches now config entries summary).1
        ≡ record summary { files_skipped = summary.files_skipped + count_where is_foreign entries }
  unfolding scan
  scan_skips [] summary = ground arith
  scan_skips (e ∷ entries) summary = ground (
    arith,
    scan_skips entries summary,
    scan_skips entries (record summary { files_skipped = summary.files_skipped + 1 }),
  )

  -- A scan gives exactly the files of the folder that are not hidden, match the mask and are old
  -- enough, in the order of their names, and counts as skipped exactly the files that are not
  -- hidden and do not match; it changes nothing else of the summary.
  pub scan_folder_lem :
      (folder : List Entry) (summary : RunSummary)
      → scan_folder matches now config folder summary ≡ (
        select is_eligible (order_by name_before folder),
        record summary { files_skipped = summary.files_skipped + count_where is_foreign folder },
      )
  unfolding scan_folder
  scan_folder_lem folder summary =
      let sorted = order_by name_before folder in
      ground (
        arith,
        scan-select sorted summary,
        scan_skips sorted summary,
        count-order_by name_before is_foreign folder,
      )
