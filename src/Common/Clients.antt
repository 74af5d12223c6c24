-- ===== src/Common/Clients.antt =====
-- The clients of the database and the cache, which the services call and do not implement: records
-- of the calls, with their documented behaviour as laws.
use Prim.Native.Nat.{ℕ, ◌+◌, ◌≤◌}
use mathlib.Core.Path.{◌≡◌}
use mathlib.Core.Bool.{Bool, not, ◌&&◌}
use mathlib.Core.Option.{Option, none, some}
use mathlib.Core.Option
use mathlib.Core.List.{List, [], ◌∷◌, ◌++◌, Perm}
use nexapay_fintech_super_ap.Common.Int.{ℤ, pos, negsuc}
use nexapay_fintech_super_ap.Common.Tests.{if◌then◌else◌, ltb, ◌==◌}
use nexapay_fintech_super_ap.Common.Lists.{filter, any, length, take, drop, All}
use nexapay_fintech_super_ap.Common.Rows.{find?, replace}

-- From the largest key down.
abbrev pub IsDescending {ℓ} : {A : Type ℓ} → (A → ℕ) → List A → Type 0
IsDescending key [] = Unit
IsDescending key (x ∷ xs) = All (λ y. key y ≤ key x) xs × IsDescending key xs

-- A table of the Prisma client. `find_page` has an order, an offset and a size, and refuses a
-- negative offset; two queries may order rows with equal keys differently. `create` is given the rows that the table's unique columns exclude,
-- and is refused if there is one; `update` is refused if no row meets its condition.
pub record Prisma (V : Type 0) : Type 0 where
  pub find_unique : (V → Bool) → List V → Option V
  pub find_many : (V → Bool) → List V → List V
  pub count : (V → Bool) → List V → ℕ
  pub order_desc : (V → ℕ) → List V → List V
  pub find_page : (V → Bool) → (V → ℕ) → ℤ → ℕ → List V → Option (List V)
  pub create : (V → Bool) → V → List V → Option (List V)
  pub update : (V → Bool) → (V → V) → List V → Option (V × List V)
  pub find_unique_lem : (p : V → Bool) (rows : List V) → find_unique p rows ≡ find? p rows
  pub find_many_lem : (p : V → Bool) (rows : List V) → find_many p rows ≡ filter p rows
  pub count_lem : (p : V → Bool) (rows : List V) → count p rows ≡ length (filter p rows)
  pub order_desc-perm : (key : V → ℕ) (rows : List V) → Perm (order_desc key rows) rows
  pub order_desc-IsDescending :
      (key : V → ℕ) (rows : List V) → IsDescending key (order_desc key rows)
  pub find_page_lem :
      (p : V → Bool) (key : V → ℕ) (skip size : ℕ) (rows : List V)
      → (sorted : List V) × Perm sorted (filter p rows)
        × IsDescending key sorted
        × (find_page p key (pos skip) size rows ≡ some (take size (drop skip sorted)))
  pub find_page_negative :
      (p : V → Bool) (key : V → ℕ) (n size : ℕ) (rows : List V)
      → find_page p key (negsuc n) size rows ≡ none
  pub create_lem :
      (clash : V → Bool) (v : V) (rows : List V)
      → create clash v rows ≡ (if any clash rows then none else some (rows ++ v ∷ []))
  pub update_none :
      (p : V → Bool) (f : V → V) (rows : List V) → find? p rows ≡ none → update p f rows ≡ none
  pub update_some :
      (p : V → Bool) (f : V → V) (rows : List V) {v : V}
      → find? p rows ≡ some v
      → update p f rows ≡ some (f v, replace p f rows)

-- A collection of Mongoose whose `_id` is an ObjectId. A given id is cast, and a call with an id
-- that does not cast throws; `save` refuses such an id and one that is taken. The conditions on
-- documents that pick an id come with it.
pub record Mongo (V : Type 0) : Type 0 where
  pub casts : ℕ → Bool
  pub save : ℕ → (V → Bool) → V → List V → Option (List V)
  pub find : (V → Bool) → List V → List V
  pub find_by_id : ℕ → (V → Bool) → List V → Option (Option V)
  pub find_by_id_and_update : ℕ → (V → Bool) → (V → V) → List V → Option (Option V × List V)
  pub save_lem :
      (id : ℕ) (same : V → Bool) (v : V) (rows : List V)
      → save id same v rows
        ≡ (if casts id && not (any same rows) then some (rows ++ v ∷ []) else none)
  pub find_lem : (p : V → Bool) (rows : List V) → find p rows ≡ filter p rows
  pub find_by_id_lem :
      (id : ℕ) (same : V → Bool) (rows : List V)
      → find_by_id id same rows ≡ (if casts id then some (find? same rows) else none)
  pub find_by_id_and_update_lem :
      (id : ℕ) (same : V → Bool) (f : V → V) (rows : List V)
      → find_by_id_and_update id same f rows
        ≡ (if casts id then some (Option.map f (find? same rows), replace same f rows) else none)

-- String keys of Redis with an expiry. Keys are numbered; times are in milliseconds.
pub record Redis (C V : Type 0) : Type 0 where
  pub get : ℕ → ℕ → C → Option V
  pub setex : ℕ → ℕ → ℕ → V → C → C
  -- `get` at time `t` of a key, after a `setex` at time `now` with `ttl`.
  pub get-setex :
      (t now key k ttl : ℕ) (v : V) (c : C)
      → get t key (setex now k ttl v c)
        ≡ (if key == k then (if ltb t (now + ttl) then some v else none) else get t key c)
