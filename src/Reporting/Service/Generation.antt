-- ===== src/Reporting/Service/Generation.antt =====
-- reporting.service.ts: what the three handlers save.
use nexapay_fintech_super_ap.Common.{
  ◌≡◌, refl, ap, ◌∙◌, Option, none, some, List, [], ◌∷◌, ◌++◌, sum, map, or_else,
}
use mathlib.Core.List.{append_assoc}
use nexapay_fintech_super_ap.Common.Action.{Result, ok, err, internal_error}
use nexapay_fintech_super_ap.Reporting.Entities.{
  ReportType, Granularity, ReportFormat, ReportEntity, Data, Filter, VolumeBucket, ModuleBucket,
  GrowthBucket, State, Clients, Env,
}
use nexapay_fintech_super_ap.Reporting.Repository.{volume_row, revenue_row, get_es_interval}
use nexapay_fintech_super_ap.Reporting.Repository.Calls.{
  save_report_lem, volumes_answered, revenue_answered, revenue_failed,
}
use nexapay_fintech_super_ap.Reporting.Repository.Growth.{
  growth_of, aggregate_user_growth-growth_of,
}
use nexapay_fintech_super_ap.Reporting.Service.{
  new_report, get_transaction_volume, get_revenue, get_user_growth, report_data,
  generate_and_save_report, generate_all,
}

-- The rows of revenue, with the total of all buckets.
abbrev pub revenues_of : List ModuleBucket → Data
revenues_of bs = Data.revenues (map (revenue_row (sum (λ b. b.total_fees) bs)) bs)

module _ (c : Clients) (env : Env) (granularity : Granularity) (format : ReportFormat) where
  -- The report of a type with its data.
  abbrev pub report_of : ReportType → Data → ReportEntity
  report_of type_ d = new_report env type_ granularity format (c.stringify d)

  volume_saved :
      (s : State) {buckets : Option (List VolumeBucket)}
      → c.search_volumes (Filter.has_amount ∷ []) (get_es_interval (some granularity))
        ≡ some buckets
      → generate_and_save_report c env ReportType.transaction_volume granularity format s ≡ (
        ok (
            report_of ReportType.transaction_volume
              (Data.volumes (map volume_row (or_else buckets [])))),
        record s {
          reports =
              s.reports
              ++ report_of ReportType.transaction_volume
                  (Data.volumes (map volume_row (or_else buckets [])))
                ∷ [];
        },
      )
  unfolding generate_and_save_report report_data get_transaction_volume
  volume_saved s e = rw (volumes_answered c granularity s e) (rw (save_report_lem c) refl)

  revenue_saved :
      (s : State) {buckets : Option (List ModuleBucket)}
      → c.search_modules (Filter.has_fee ∷ []) ≡ some buckets
      → generate_and_save_report c env ReportType.revenue granularity format s ≡ (
        ok (report_of ReportType.revenue (revenues_of (or_else buckets []))),
        record s {
          reports =
              s.reports ++ report_of ReportType.revenue (revenues_of (or_else buckets [])) ∷ [];
        },
      )
  unfolding generate_and_save_report report_data get_revenue
  revenue_saved s e = rw (revenue_answered c s e) (rw (save_report_lem c) refl)

  growth_saved :
      (s : State) {buckets : Option (List GrowthBucket)}
      → c.search_growth [] (get_es_interval (some granularity)) ≡ some buckets
      → generate_and_save_report c env ReportType.user_growth granularity format s ≡ (
        ok (report_of ReportType.user_growth (Data.growths (growth_of [] (or_else buckets [])))),
        record s {
          reports =
              s.reports
              ++ report_of ReportType.user_growth (Data.growths (growth_of [] (or_else buckets [])))
                ∷ [];
        },
      )
  unfolding generate_and_save_report report_data get_user_growth
  growth_saved s e =
      rw (aggregate_user_growth-growth_of c none none (some granularity) s e)
        (rw (save_report_lem c) refl)

  revenue_lost :
      (s : State)
      → c.search_modules (Filter.has_fee ∷ []) ≡ none
      → generate_and_save_report c env ReportType.revenue granularity format s
        ≡ (err internal_error, s)
  unfolding generate_and_save_report report_data get_revenue
  revenue_lost s e = rw (revenue_failed c s e) refl

  abbrev volume_report : Option (List VolumeBucket) → ReportEntity
  volume_report v =
      report_of ReportType.transaction_volume (Data.volumes (map volume_row (or_else v [])))

  abbrev growth_report : Option (List GrowthBucket) → ReportEntity
  growth_report u = report_of ReportType.user_growth (Data.growths (growth_of [] (or_else u [])))

  -- What a run leaves, by the answers of the searches; a search of the revenue that throws is `none`.
  abbrev pub generated :
      Option (List VolumeBucket)
      → Option (Option (List ModuleBucket))
      → Option (List GrowthBucket)
      → State
      → Result (Unit {0}) × State
  generated v none u s =
      (err internal_error, record s { reports = s.reports ++ volume_report v ∷ [] })
  generated v (some m) u s = (
    ok tt,
    record s {
      reports =
          s.reports
          ++ volume_report v
            ∷ report_of ReportType.revenue (revenues_of (or_else m []))
            ∷ growth_report u
            ∷ [];
    },
  )

  generate_all_cases :
      (answer : Option (Option (List ModuleBucket))) (s : State) {v : Option (List VolumeBucket)}
      {u : Option (List GrowthBucket)}
      → c.search_modules (Filter.has_fee ∷ []) ≡ answer
      → c.search_volumes (Filter.has_amount ∷ []) (get_es_interval (some granularity)) ≡ some v
      → c.search_growth [] (get_es_interval (some granularity)) ≡ some u
      → generate_all c env granularity format s ≡ generated v answer u s
  generate_all_cases none s {v} em ev eu =
      let s1 : State = record s { reports = s.reports ++ volume_report v ∷ [] } in
      rw (volume_saved s ev) (rw (revenue_lost s1 em) refl)
  generate_all_cases (some m) s {v} {u} em ev eu =
      let a = volume_report v in
      let b = report_of ReportType.revenue (revenues_of (or_else m [])) in
      let g = growth_report u in
      let s1 : State = record s { reports = s.reports ++ a ∷ [] } in
      let s2 : State = record s { reports = (s.reports ++ a ∷ []) ++ b ∷ [] } in
      rw (volume_saved s ev) (
        rw (revenue_saved s1 em) (
          rw (growth_saved s2 eu) (
            ap (λ rows. (ok tt, record s { reports = rows }))
              (append_assoc (s.reports ++ a ∷ []) (b ∷ []) (g ∷ [])
                ∙ append_assoc s.reports (a ∷ []) (b ∷ g ∷ [])))))

  -- A scheduled generation, of whatever granularity and format, for which the searches of the
  -- volumes and of the growth answer: when that of the revenue answers too, it saves exactly three
  -- reports, in this order: volumes, revenue with its total, growth of users. When that of the revenue
  -- throws, the run throws an internal error, and has saved the volumes and no growth.
  pub generate_all-generated :
      (s : State) {v : Option (List VolumeBucket)} {u : Option (List GrowthBucket)}
      → c.search_volumes (Filter.has_amount ∷ []) (get_es_interval (some granularity)) ≡ some v
      → c.search_growth [] (get_es_interval (some granularity)) ≡ some u
      → generate_all c env granularity format s
        ≡ generated v (c.search_modules (Filter.has_fee ∷ [])) u s
  generate_all-generated s ev eu =
      generate_all_cases (c.search_modules (Filter.has_fee ∷ [])) s refl ev eu
