-- ===== src/Reporting/Entities.antt =====
-- report.entity.ts and the rows of reporting.repository.ts. Dates in queries, periods, names of
-- modules and serialized data are only passed on or compared, and are numbers. Volumes and fees are in
-- cents.
use nexapay_fintech_super_ap.Common.{ℕ, ◌≡◌, Option, List, [], ◌∷◌, ◌++◌}

pub data ReportType : Type 0 where
  transaction_volume revenue user_growth : ReportType

pub data Granularity : Type 0 where
  daily weekly monthly : Granularity

pub data ReportFormat : Type 0 where
  csv pdf : ReportFormat

-- `${type}_${granularity}_${day}`
pub record ReportName : Type 0 where
  pub type_ : ReportType
  pub granularity : Granularity
  pub day : ℕ

-- `generated_by` is the one parameter that is ever set: 'cron' is `true`.
pub record ReportEntity : Type 0 where
  pub id : ℕ
  pub name : ReportName
  pub type_ : ReportType
  pub granularity : Granularity
  pub format : ReportFormat
  pub data_ : ℕ
  pub generated_at : ℕ

pub record TransactionVolumeRow : Type 0 where
  pub period : ℕ
  pub volume : ℕ
  pub count : ℕ

-- The percentage is 100 times `revenue` over `of_total`, or 0 where that is 0.
pub record RevenueRow : Type 0 where
  pub module_ : ℕ
  pub revenue : ℕ
  pub percentage : ℕ × ℕ

pub record UserGrowthRow : Type 0 where
  pub period : ℕ
  pub new_users : ℕ
  pub total_users : ℕ

-- What a report holds.
pub data Data : Type 0 where
  volumes : List TransactionVolumeRow → Data
  revenues : List RevenueRow → Data
  growths : List UserGrowthRow → Data

-- A clause of an Elasticsearch query.
pub data Filter : Type 0 where
  has_amount has_fee : Filter
  since until of_module : ℕ → Filter

pub data Interval : Type 0 where
  day week month : Interval

pub record VolumeBucket : Type 0 where
  pub key_as_string : ℕ
  pub doc_count : ℕ
  pub total_volume : ℕ

pub record ModuleBucket : Type 0 where
  pub key : ℕ
  pub doc_count : ℕ
  pub total_fees : ℕ

pub record GrowthBucket : Type 0 where
  pub key_as_string : ℕ
  pub doc_count : ℕ

pub record State : Type 0 where
  pub reports : List ReportEntity

-- The external clients. A search is `none` where it throws, and has `some none` where the answer has no
-- buckets. The table of reports gives a new row its id. JSON, PDF and CSV are libraries; a parser that
-- throws is `none`.
pub record Clients : Type 0 where
  pub search_volumes : List Filter → Interval → Option (Option (List VolumeBucket))
  pub search_modules : List Filter → Option (Option (List ModuleBucket))
  pub search_growth : List Filter → Interval → Option (Option (List GrowthBucket))
  pub save : ReportEntity → List ReportEntity → ReportEntity × List ReportEntity
  pub order_desc : (ReportEntity → ℕ) → List ReportEntity → List ReportEntity
  pub stringify : Data → ℕ
  pub parse : ℕ → Option Data
  pub to_pdf : ReportName → Option Data → ℕ
  pub to_csv : Data → Option ℕ
  pub save_lem : (r : ReportEntity) (rs : List ReportEntity) → save r rs ≡ (r, rs ++ r ∷ [])

-- The clock, the day of it, and the id of a new report.
pub record Env : Type 0 where
  pub now : ℕ
  pub today : ℕ
  pub uuid : ReportType → ℕ
