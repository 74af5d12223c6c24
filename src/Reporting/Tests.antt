-- ===== src/Reporting/Tests.antt =====
-- Instances of the theorems on the reporting service, with searches that answer fixed buckets.
use nexapay_fintech_super_ap.Common.{ℕ, ◌≡◌, refl, none, some, List, [], ◌∷◌, ◌++◌}
use nexapay_fintech_super_ap.Common.Action.{ok}
use nexapay_fintech_super_ap.Common.InMemory.{sort_desc}
use nexapay_fintech_super_ap.Reporting.Entities.{
  Granularity, ReportFormat, Data, ModuleBucket, GrowthBucket, Clients, Env,
}
use nexapay_fintech_super_ap.Reporting.Repository.{aggregate_user_growth}
use nexapay_fintech_super_ap.Reporting.Repository.Growth.{aggregate_user_growth-growth_of}
use nexapay_fintech_super_ap.Reporting.Service.{generate_all}
use nexapay_fintech_super_ap.Reporting.Service.Generation.{generated, generate_all-generated}

-- Two new users in the first period, and three in the second.
abbrev arrivals : List GrowthBucket
arrivals =
    record { key_as_string = 1; doc_count = 2 } ∷ record { key_as_string = 2; doc_count = 3 } ∷ []

abbrev fees : List ModuleBucket
fees =
    record { key = 1; doc_count = 4; total_fees = 300 }
    ∷ record { key = 2; doc_count = 1; total_fees = 100 }
    ∷ []

abbrev code : Data → ℕ
code (Data.volumes _) = 1
code (Data.revenues _) = 2
code (Data.growths _) = 3

abbrev clients : Clients
clients = record {
  search_volumes = λ filters interval. some none;
  search_modules = λ filters. some (some fees);
  search_growth = λ filters interval. some (some arrivals);
  save = λ r rs. (r, rs ++ r ∷ []);
  order_desc = sort_desc;
  stringify = code;
  parse = λ _. none;
  to_pdf = λ name d. 9;
  to_csv = λ d. some 8;
  save_lem = λ r rs. refl;
}

abbrev env : Env
env = record { now = 100; today = 1; uuid = λ _. 5 }

aggregate_user_growth-growth_of_example :
    aggregate_user_growth clients none none none (record { reports = [] }) ≡ (
      ok (
          record { period = 1; new_users = 2; total_users = 2 }
          ∷ record { period = 2; new_users = 3; total_users = 5 }
          ∷ []),
      record { reports = [] },
    )
aggregate_user_growth-growth_of_example =
    aggregate_user_growth-growth_of clients none none none (record { reports = [] }) refl

generate_all-generated_example :
    generate_all clients env Granularity.weekly ReportFormat.pdf (record { reports = [] })
    ≡ generated clients env Granularity.weekly ReportFormat.pdf none
        (some (some fees))
        (some arrivals)
        (record { reports = [] })
generate_all-generated_example =
    generate_all-generated clients env Granularity.weekly ReportFormat.pdf (record { reports = [] })
      refl refl
