-- ===== src/Reporting/Repository/Calls.antt =====
-- reporting.repository.ts: what the calls return, as equations.
use nexapay_fintech_super_ap.Common.{
  ◌≡◌, refl, Option, none, some, List, [], ◌∷◌, ◌++◌, map, sum, or_else,
}
use nexapay_fintech_super_ap.Common.Action.{ok, err, internal_error}
use nexapay_fintech_super_ap.Reporting.Entities.{
  ReportEntity, Granularity, Filter, VolumeBucket, ModuleBucket, State, Clients,
}
use nexapay_fintech_super_ap.Reporting.Repository.{
  save_report, aggregate_transaction_volume, aggregate_revenue, volume_row, revenue_row,
  get_es_interval,
}

module _ (c : Clients) where
  pub save_report_lem :
      (r : ReportEntity) (s : State)
      → save_report c r s ≡ (ok r, record s { reports = s.reports ++ r ∷ [] })
  unfolding save_report
  save_report_lem r s = rw (c.save_lem r s.reports) refl

  pub volumes_answered :
      (granularity : Granularity) (s : State) {buckets : Option (List VolumeBucket)}
      → c.search_volumes (Filter.has_amount ∷ []) (get_es_interval (some granularity))
        ≡ some buckets
      → aggregate_transaction_volume c none none (some granularity) none s
        ≡ (ok (map volume_row (or_else buckets [])), s)
  unfolding aggregate_transaction_volume
  volumes_answered granularity s e = rw e refl

  pub revenue_answered :
      (s : State) {buckets : Option (List ModuleBucket)}
      → c.search_modules (Filter.has_fee ∷ []) ≡ some buckets
      → aggregate_revenue c none none s ≡ (
        ok (map (revenue_row (sum (λ b. b.total_fees) (or_else buckets []))) (or_else buckets [])),
        s,
      )
  unfolding aggregate_revenue
  revenue_answered s e = rw e refl

  pub revenue_failed :
      (s : State)
      → c.search_modules (Filter.has_fee ∷ []) ≡ none
      → aggregate_revenue c none none s ≡ (err internal_error, s)
  unfolding aggregate_revenue
  revenue_failed s e = rw e refl
