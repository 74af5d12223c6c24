-- ===== src/Reporting/Repository/Growth.antt =====
-- reporting.repository.ts, `aggregateUserGrowthFromES`: the running total against sums.
use nexapay_fintech_super_ap.Common.{
  sum-append, or_else, ℕ, ◌+◌, ◌≡◌, refl, sym, ap, ◌∙◌, Option, some, List, [], ◌∷◌, ◌++◌, sum,
}
use native.Mathlib.Nat.{add-zero}
use nexapay_fintech_super_ap.Common.Action.{ok}
use nexapay_fintech_super_ap.Reporting.Entities.{
  Granularity, Filter, GrowthBucket, UserGrowthRow, State, Clients,
}
use nexapay_fintech_super_ap.Reporting.Repository.{
  growth_rows, aggregate_user_growth, filter_of, get_es_interval,
}

-- The rows by sums: a row for each bucket, with the sum of the counts up to it.
abbrev pub growth_of : List GrowthBucket → List GrowthBucket → List UserGrowthRow
growth_of before [] = []
growth_of before (b ∷ bs) =
    record {
      period = b.key_as_string;
      new_users = b.doc_count;
      total_users = sum (λ x. x.doc_count) (before ++ b ∷ []);
    }
    ∷ growth_of (before ++ b ∷ []) bs

growth_rows_sums :
    (before bs : List GrowthBucket)
    → growth_rows (sum (λ x. x.doc_count) before) bs ≡ growth_of before bs
unfolding growth_rows
growth_rows_sums before [] = refl
growth_rows_sums before (b ∷ bs) =
    let next : sum (λ x. x.doc_count) before + b.doc_count
        ≡ sum (λ x. x.doc_count) (before ++ b ∷ []) =
      ap (λ n. sum (λ x. x.doc_count) before + n) (sym (add-zero b.doc_count))
      ∙ sym (sum-append (λ x. x.doc_count) before (b ∷ [])) in
    rw next (
      ap
        (λ rows.
          record {
            period = b.key_as_string;
            new_users = b.doc_count;
            total_users = sum (λ x. x.doc_count) (before ++ b ∷ []);
          }
          ∷ rows)
        (growth_rows_sums (before ++ b ∷ []) bs))

-- The growth of users over a range of dates has a row for each bucket that the search answers, in its
-- order, whose total is the sum of the new users of the buckets up to it: of the range, not of all users
-- before. An answer without buckets gives no rows. The call changes nothing.
pub aggregate_user_growth-growth_of :
    (c : Clients) (date_from date_to : Option ℕ) (granularity : Option Granularity)
    {buckets : Option (List GrowthBucket)} (s : State)
    → c.search_growth
        (filter_of Filter.since date_from ++ filter_of Filter.until date_to)
        (get_es_interval granularity)
      ≡ some buckets
    → aggregate_user_growth c date_from date_to granularity s
      ≡ (ok (growth_of [] (or_else buckets [])), s)
unfolding aggregate_user_growth
aggregate_user_growth-growth_of c date_from date_to granularity {buckets} s e =
    rw e (ap (λ rows. (ok rows, s)) (growth_rows_sums [] (or_else buckets [])))
