-- ===== src/Reporting/Service.antt =====
-- reporting.service.ts: the methods of `ReportingService`. Log lines are left out; the PDF is a
-- parameter, as its drawing calls are those of a library.
pub mod Generation
use nexapay_fintech_super_ap.Common.{ℕ, Option, none, some, List, [], ◌∷◌}
use nexapay_fintech_super_ap.Common.Action.{
  Action, Result, ok, err, ◌>>=◌, ◌>>◌, pure, throw, internal_error,
}
use nexapay_fintech_super_ap.Reporting.Entities.{
  ReportName, ReportType, Granularity, ReportFormat, ReportEntity, TransactionVolumeRow, RevenueRow,
  UserGrowthRow, Data, State, Clients, Env,
}
use nexapay_fintech_super_ap.Reporting.Repository.{
  save_report, find_report_by_id, aggregate_transaction_volume, aggregate_revenue,
  aggregate_user_growth,
}

-- `catch (error) { throw new HttpException(…, 500) }`
abbrev pub as_internal : {S A : Type 0} → Result A × S → Result A × S
as_internal (ok a, s) = (ok a, s)
as_internal (err _, s) = (err internal_error, s)

abbrev pub new_report : Env → ReportType → Granularity → ReportFormat → ℕ → ReportEntity
new_report env type_ granularity format data_ = record {
  id = env.uuid type_;
  name = record { type_ = type_; granularity = granularity; day = env.today };
  type_ = type_;
  granularity = granularity;
  format = format;
  data_ = data_;
  generated_at = env.now;
}

-- The rows of the data; what is no list is none.
abbrev pub is_no_data : Option Data → Option Data
is_no_data none = none
is_no_data (some (Data.volumes [])) = none
is_no_data (some (Data.revenues [])) = none
is_no_data (some (Data.growths [])) = none
is_no_data (some d) = some d

module _ (c : Clients) where
  pub get_transaction_volume :
      Option ℕ → Option ℕ → Option Granularity → Option ℕ → Action State (List TransactionVolumeRow)
  get_transaction_volume date_from date_to granularity module_ s =
      as_internal (aggregate_transaction_volume c date_from date_to granularity module_ s)

  -- The granularity is not used.
  pub get_revenue : Option ℕ → Option ℕ → Option Granularity → Action State (List RevenueRow)
  get_revenue date_from date_to granularity s =
      as_internal (aggregate_revenue c date_from date_to s)

  pub get_user_growth : Option ℕ → Option ℕ → Option Granularity → Action State (List UserGrowthRow)
  get_user_growth date_from date_to granularity s =
      as_internal (aggregate_user_growth c date_from date_to granularity s)

  pub get_report_by_id : ℕ → Action State (Option ReportEntity)
  get_report_by_id = find_report_by_id c

  -- Empty data, and data that the parser refuses, make an empty text, 0.
  abbrev pub generate_csv : Option Data → ℕ
  generate_csv none = 0
  generate_csv (some d) = elim (c.to_csv d) [ none ↦ 0 | some text ↦ text ]

  -- The file of a report.
  abbrev pub file_of : ReportFormat → ReportName → Option Data → ℕ
  file_of ReportFormat.pdf name d = c.to_pdf name d
  file_of ReportFormat.csv name d = generate_csv d

  pub export_report : ReportEntity → Action State ℕ
  export_report report =
      pure (file_of report.format report.name (is_no_data (c.parse report.data_)))

  -- The switch of `generateAndSaveReport`.
  pub report_data : ReportType → Granularity → Action State Data
  report_data ReportType.transaction_volume granularity = do
    rows ← get_transaction_volume none none (some granularity) none
    pure (Data.volumes rows)
  report_data ReportType.revenue granularity = do
    rows ← get_revenue none none (some granularity)
    pure (Data.revenues rows)
  report_data ReportType.user_growth granularity = do
    rows ← get_user_growth none none (some granularity)
    pure (Data.growths rows)

  pub generate_and_save_report :
      Env → ReportType → Granularity → ReportFormat → Action State ReportEntity
  generate_and_save_report env type_ granularity format = do
    data_ ← report_data type_ granularity
    save_report c (new_report env type_ granularity format (c.stringify data_))

  -- The body that the three handlers share.
  abbrev pub generate_all : Env → Granularity → ReportFormat → Action State (Unit {0})
  generate_all env granularity format = do
    generate_and_save_report env ReportType.transaction_volume granularity format
    generate_and_save_report env ReportType.revenue granularity format
    generate_and_save_report env ReportType.user_growth granularity format
    pure tt

  pub handle_daily_report_generation : Env → Action State (Unit {0})
  handle_daily_report_generation env = generate_all env Granularity.daily ReportFormat.csv

  pub handle_weekly_report_generation : Env → Action State (Unit {0})
  handle_weekly_report_generation env = generate_all env Granularity.weekly ReportFormat.pdf

  pub handle_monthly_report_generation : Env → Action State (Unit {0})
  handle_monthly_report_generation env = generate_all env Granularity.monthly ReportFormat.pdf
