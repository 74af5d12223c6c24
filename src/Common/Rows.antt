-- ===== src/Common/Rows.antt =====
-- A table as the list of its rows: the first row that a condition picks, and writes to it.
use nexapay_fintech_super_ap.Common.Tests.{if◌then◌else◌}
use nexapay_fintech_super_ap.Common.Lists.{sum, any}
use Prim.Native.Nat.{ℕ, ◌+◌}
use mathlib.Core.Path.{◌≡◌, refl}
use mathlib.Core.Bool.{Bool, true, false}
use mathlib.Core.Option.{Option, none, some}
use mathlib.Core.List.{List, [], ◌∷◌, ◌++◌}
use native.Mathlib.Omega.{arith}

module _ {A : Type 0} where
  -- The first row that meets the condition.
  abbrev pub find? : (A → Bool) → List A → Option A
  find? p [] = none
  find? p (x ∷ xs) = if p x then some x else find? p xs

  -- The first row that meets the condition, rewritten.
  abbrev pub replace : (A → Bool) → (A → A) → List A → List A
  replace p f [] = []
  replace p f (x ∷ xs) = if p x then f x ∷ xs else x ∷ replace p f xs

module _ {A : Type 0} where
  -- The row that is found meets the condition.
  pub find?-holds : (p : A → Bool) (xs : List A) {w : A} → find? p xs ≡ some w → p w ≡ true
  find?-holds p [] h = cc
  find?-holds p (x ∷ xs) {w} h = ground (arith, find?-holds p xs {w = w})

  -- A sharper condition that the found row meets finds the same row.
  pub find?-sharper :
      (p q : A → Bool) (xs : List A) {w : A}
      → ((x : A) → q x ≡ true → p x ≡ true)
      → q w ≡ true
      → find? p xs ≡ some w
      → find? q xs ≡ some w
  find?-sharper p q [] s h e = cc
  find?-sharper p q (x ∷ xs) {w} s h e = ground (arith, s x, find?-sharper p q xs {w = w} s h)

  -- So do the writes through the two conditions.
  pub replace-sharper :
      (p q : A → Bool) (f : A → A) (xs : List A) {w : A}
      → ((x : A) → q x ≡ true → p x ≡ true)
      → q w ≡ true
      → find? p xs ≡ some w
      → replace q f xs ≡ replace p f xs
  replace-sharper p q f [] s h e = cc
  replace-sharper p q f (x ∷ xs) {w} s h e =
      ground (arith, s x, replace-sharper p q f xs {w = w} s h)

  pub find?-replace_self :
      (p : A → Bool) (f : A → A) (xs : List A) {w : A}
      → p (f w) ≡ true
      → find? p xs ≡ some w
      → find? p (replace p f xs) ≡ some (f w)
  find?-replace_self p f [] h e = cc
  find?-replace_self p f (x ∷ xs) {w} h e = ground (arith, find?-replace_self p f xs {w = w} h)

  -- A write does not touch what another condition finds.
  pub find?-replace_other :
      (p q : A → Bool) (f : A → A) (xs : List A)
      → ((x : A) → p x ≡ true → q x ≡ false)
      → ((x : A) → p x ≡ true → q (f x) ≡ false)
      → find? q (replace p f xs) ≡ find? q xs
  find?-replace_other p q f [] s t = refl
  find?-replace_other p q f (x ∷ xs) s t =
      ground (arith, s x, t x, find?-replace_other p q f xs s t)

  -- A write changes a sum over the rows by what it changes in the row that it finds.
  pub sum-replace :
      (m : A → ℕ) (p : A → Bool) (f : A → A) (xs : List A) {w : A}
      → find? p xs ≡ some w
      → sum m (replace p f xs) + m w ≡ sum m xs + m (f w)
  sum-replace m p f [] e = cc
  sum-replace m p f (x ∷ xs) {w} e = ground (arith, sum-replace m p f xs {w = w})

  pub find?-append_none :
      (p : A → Bool) (xs ys : List A) → find? p xs ≡ none → find? p (xs ++ ys) ≡ find? p ys
  find?-append_none p [] ys e = refl
  find?-append_none p (x ∷ xs) ys e = ground (arith, find?-append_none p xs ys)

  pub find?-append_some :
      (p : A → Bool) (xs ys : List A) {w : A} → find? p xs ≡ some w → find? p (xs ++ ys) ≡ some w
  find?-append_some p [] ys e = cc
  find?-append_some p (x ∷ xs) ys {w} e = ground (arith, find?-append_some p xs ys {w = w})

  pub any-false-find? : (p : A → Bool) (xs : List A) → find? p xs ≡ none → any p xs ≡ false
  any-false-find? p [] e = refl
  any-false-find? p (x ∷ xs) e = ground (arith, any-false-find? p xs)
