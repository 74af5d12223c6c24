-- ===== src/Common/InMemory.antt =====
-- Clients over plain lists and functions that meet the laws of the interfaces, for the instances.
use nexapay_fintech_super_ap.Common.Tests.{if◌then◌else◌, leb, ltb, ◌==◌, Bool-cases}
use nexapay_fintech_super_ap.Common.Lists.{length, filter, any, take, drop, All}
use nexapay_fintech_super_ap.Common.Rows.{find?, replace}
use nexapay_fintech_super_ap.Common.Int.{ℤ, pos, negsuc}
use nexapay_fintech_super_ap.Common.Clients.{Prisma, Mongo, Redis, IsDescending}
use Prim.Native.Nat.{ℕ, ◌+◌, ◌≤◌}
use mathlib.Core.Path.{◌≡◌, refl}
use mathlib.Core.Logic.{inl, inr}
use mathlib.Core.Bool.{Bool, not, ◌&&◌}
use mathlib.Core.Option.{Option, none, some}
use mathlib.Core.Option
use mathlib.Core.List.{List, [], ◌∷◌, ◌++◌, Perm}
use mathlib.Core.List.Perm
use native.Mathlib.Omega.{arith}

module _ {V : Type 0} (key : V → ℕ) where
  abbrev pub insert_desc : V → List V → List V
  insert_desc x [] = x ∷ []
  insert_desc x (y ∷ ys) = if leb (key y) (key x) then x ∷ y ∷ ys else y ∷ insert_desc x ys

  abbrev pub sort_desc : List V → List V
  sort_desc [] = []
  sort_desc (x ∷ xs) = insert_desc x (sort_desc xs)

  insert_desc-perm : (x : V) (ys : List V) → Perm (insert_desc x ys) (x ∷ ys)
  insert_desc-perm x [] = Perm.refl (x ∷ [])
  insert_desc-perm x (y ∷ ys) = elim (Bool-cases (leb (key y) (key x))) [
    | inl e ↦ rw e (Perm.refl (x ∷ y ∷ ys))
    | inr e ↦ rw e (Perm.trans (Perm.cons y (insert_desc-perm x ys)) (Perm.swap x y ys))
  ]

  pub sort_desc-perm : (xs : List V) → Perm (sort_desc xs) xs
  sort_desc-perm [] = Perm.refl []
  sort_desc-perm (x ∷ xs) =
      Perm.trans (insert_desc-perm x (sort_desc xs)) (Perm.cons x (sort_desc-perm xs))

  All-mono : (a b : ℕ) (ys : List V) → a ≤ b → All (λ y. key y ≤ a) ys → All (λ y. key y ≤ b) ys
  All-mono a b [] h all = tt
  All-mono a b (y ∷ ys) h (first, rest) = (omega arith, All-mono a b ys h rest)

  All-insert_desc :
      (b : ℕ) (x : V) (ys : List V)
      → key x ≤ b
      → All (λ y. key y ≤ b) ys
      → All (λ y. key y ≤ b) (insert_desc x ys)
  All-insert_desc b x [] h all = (h, tt)
  All-insert_desc b x (y ∷ ys) h (first, rest) = elim (Bool-cases (leb (key y) (key x))) [
    | inl e ↦ rw e (h, (first, rest))
    | inr e ↦ rw e (first, All-insert_desc b x ys h rest)
  ]

  insert_desc-IsDescending :
      (x : V) (ys : List V) → IsDescending key ys → IsDescending key (insert_desc x ys)
  insert_desc-IsDescending x [] d = (tt, tt)
  insert_desc-IsDescending x (y ∷ ys) (below, d) = elim (Bool-cases (leb (key y) (key x))) [
    | inl e ↦ rw e ((ground arith, All-mono (key y) (key x) ys (ground arith) below), (below, d))
    | inr e ↦
        rw e (All-insert_desc (key y) x ys (ground arith) below, insert_desc-IsDescending x ys d)
  ]

  pub sort_desc-IsDescending : (xs : List V) → IsDescending key (sort_desc xs)
  sort_desc-IsDescending [] = tt
  sort_desc-IsDescending (x ∷ xs) =
      insert_desc-IsDescending x (sort_desc xs) (sort_desc-IsDescending xs)

module _ {V : Type 0} where
  abbrev pub page_of : (V → Bool) → (V → ℕ) → ℤ → ℕ → List V → Option (List V)
  page_of p key (pos skip) size rows = some (take size (drop skip (sort_desc key (filter p rows))))
  page_of p key (negsuc n) size rows = none

  abbrev pub updated : (V → Bool) → (V → V) → List V → Option V → Option (V × List V)
  updated p f rows none = none
  updated p f rows (some v) = some (f v, replace p f rows)

  pub updated-none :
      (p : V → Bool) (f : V → V) (rows : List V)
      → find? p rows ≡ none
      → updated p f rows (find? p rows) ≡ none
  updated-none p f rows e = rw e

  pub updated-some :
      (p : V → Bool) (f : V → V) (rows : List V) {v : V}
      → find? p rows ≡ some v
      → updated p f rows (find? p rows) ≡ some (f v, replace p f rows)
  updated-some p f rows e = rw e

  -- A table in memory.
  abbrev pub table : Prisma V
  table = record {
    find_unique = find?;
    find_many = filter;
    count = λ p rows. length (filter p rows);
    order_desc = sort_desc;
    find_page = page_of;
    create = λ clash v rows. if any clash rows then none else some (rows ++ v ∷ []);
    update = λ p f rows. updated p f rows (find? p rows);
    find_unique_lem = λ p rows. refl;
    find_many_lem = λ p rows. refl;
    count_lem = λ p rows. refl;
    order_desc-perm = sort_desc-perm;
    order_desc-IsDescending = sort_desc-IsDescending;
    find_page_lem = λ p key skip size rows. (
      sort_desc key (filter p rows),
      sort_desc-perm key (filter p rows),
      sort_desc-IsDescending key (filter p rows),
      refl,
    );
    find_page_negative = λ p key n size rows. refl;
    create_lem = λ clash v rows. refl;
    update_none = updated-none;
    update_some = updated-some;
  }

  -- A collection in memory, in which the ids that a test picks cast.
  abbrev pub collection : (ℕ → Bool) → Mongo V
  collection casts = record {
    casts = casts;
    save =
        λ id same v rows. if casts id && not (any same rows) then some (rows ++ v ∷ []) else none;
    find = filter;
    find_by_id = λ id same rows. if casts id then some (find? same rows) else none;
    find_by_id_and_update = λ id same f rows.
        if casts id then some (Option.map f (find? same rows), replace same f rows) else none;
    save_lem = λ id same v rows. refl;
    find_lem = λ p rows. refl;
    find_by_id_lem = λ id same rows. refl;
    find_by_id_and_update_lem = λ id same f rows. refl;
  }

-- A cache entry: a value, and the time until which it is served.
abbrev pub Cache : Type 0 → Type 0
Cache V = ℕ → Option (V × ℕ)

abbrev pub served {ℓ} : {V : Type ℓ} → ℕ → Option (V × ℕ) → Option V
served t none = none
served t (some (v, until)) = if ltb t until then some v else none

abbrev pub cached : {V : Type 0} → ℕ → ℕ → ℕ → V → Cache V → Cache V
cached now k ttl v c key = if key == k then some (v, now + ttl) else c key

pub served-cached :
    {V : Type 0} (t now key k ttl : ℕ) (v : V) (c : Cache V)
    → served t (cached now k ttl v c key)
      ≡ (if key == k then (if ltb t (now + ttl) then some v else none) else served t (c key))
served-cached t now key k ttl v c = elim (Bool-cases (key == k)) [ inl e ↦ rw e | inr e ↦ rw e ]

-- A Redis in memory.
abbrev pub redis : {V : Type 0} → Redis (Cache V) V
redis = record { get = λ t key c. served t (c key); setex = cached; get-setex = served-cached }
