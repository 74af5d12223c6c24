-- ===== src/Reporting/Repository.antt =====
-- reporting.repository.ts: the queries of `ReportingRepository`. The ping at the start is left out.
pub mod Calls
pub mod Growth
use nexapay_fintech_super_ap.Common.{
  ℕ, ◌+◌, ◌*◌, Option, none, some, List, [], ◌∷◌, ◌++◌, ◌==◌, Bool, true, false, ltb, filter, map,
  sum, take, or_else, if◌then◌else◌,
}
use nexapay_fintech_super_ap.Common.Rows.{find?}
use nexapay_fintech_super_ap.Common.Action.{
  Action, ◌>>=◌, ◌>>◌, pure, gets, modify, or_throw, internal_error,
}
use nexapay_fintech_super_ap.Reporting.Entities.{
  ReportType, Granularity, ReportEntity, TransactionVolumeRow, RevenueRow, UserGrowthRow, Filter,
  Interval, VolumeBucket, ModuleBucket, GrowthBucket, State, Clients, Env,
}

abbrev pub same_type : ReportType → ReportType → Bool
same_type ReportType.transaction_volume ReportType.transaction_volume = true
same_type ReportType.revenue ReportType.revenue = true
same_type ReportType.user_growth ReportType.user_growth = true
same_type _ _ = false

-- `if (value) filters.push(…)`
abbrev pub filter_of : (ℕ → Filter) → Option ℕ → List Filter
filter_of make none = []
filter_of make (some value) = make value ∷ []

abbrev pub get_es_interval : Option Granularity → Interval
get_es_interval (some Granularity.weekly) = Interval.week
get_es_interval (some Granularity.monthly) = Interval.month
get_es_interval _ = Interval.day

abbrev pub volume_row : VolumeBucket → TransactionVolumeRow
volume_row b = record { period = b.key_as_string; volume = b.total_volume; count = b.doc_count }

abbrev pub revenue_row : ℕ → ModuleBucket → RevenueRow
revenue_row total b = record {
  module_ = b.key;
  revenue = b.total_fees;
  percentage = if ltb 0 total then (100 * b.total_fees, total) else (0, 1);
}

-- The rows, with the number of users before the first.
unfoldable pub growth_rows : ℕ → List GrowthBucket → List UserGrowthRow
growth_rows cumulative [] = []
growth_rows cumulative (b ∷ bs) =
    record {
      period = b.key_as_string;
      new_users = b.doc_count;
      total_users = cumulative + b.doc_count;
    }
    ∷ growth_rows (cumulative + b.doc_count) bs

module _ (c : Clients) where
  pub save_report : ReportEntity → Action State ReportEntity
  save_report report = do
    (saved, rows) ← gets (λ s. c.save report s.reports)
    modify (λ s. record s { reports = rows })
    pure saved

  pub find_report_by_id : ℕ → Action State (Option ReportEntity)
  find_report_by_id id = gets (λ s. find? (λ r. r.id == id) s.reports)

  -- The latest first.
  pub find_reports_by_type : ReportType → ℕ → Action State (List ReportEntity)
  find_reports_by_type type_ limit = gets (λ s.
      take limit
        (c.order_desc (λ r. r.generated_at) (filter (λ r. same_type r.type_ type_) s.reports)))

  pub aggregate_transaction_volume :
      Option ℕ → Option ℕ → Option Granularity → Option ℕ → Action State (List TransactionVolumeRow)
  aggregate_transaction_volume date_from date_to granularity module_ = do
    let filters =
        Filter.has_amount ∷ filter_of Filter.since date_from
        ++ filter_of Filter.until date_to
        ++ filter_of Filter.of_module module_
    buckets ← or_throw (c.search_volumes filters (get_es_interval granularity)) internal_error
    pure (map volume_row (or_else buckets []))

  pub aggregate_revenue : Option ℕ → Option ℕ → Action State (List RevenueRow)
  aggregate_revenue date_from date_to = do
    let filters =
        Filter.has_fee ∷ filter_of Filter.since date_from ++ filter_of Filter.until date_to
    buckets ← or_throw (c.search_modules filters) internal_error
    let total_revenue = sum (λ b. b.total_fees) (or_else buckets [])
    pure (map (revenue_row total_revenue) (or_else buckets []))

  pub aggregate_user_growth :
      Option ℕ → Option ℕ → Option Granularity → Action State (List UserGrowthRow)
  aggregate_user_growth date_from date_to granularity = do
    let filters = filter_of Filter.since date_from ++ filter_of Filter.until date_to
    buckets ← or_throw (c.search_growth filters (get_es_interval granularity)) internal_error
    pure (growth_rows 0 (or_else buckets []))
