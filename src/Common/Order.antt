-- ===== src/Common/Order.antt =====
-- Descending lists: where the keys tell the rows apart, a list has one descending order only.
use Prim.Native.Nat.{ℕ, ◌≤◌}
use mathlib.Core.Path.{◌≡◌, sym, subst, ap₂}
use mathlib.Core.Logic.Or
use mathlib.Core.List.{
  List, [], ◌∷◌, Mem, Perm, mem-cons, mem-cons_self, mem-cons_of_mem, not-mem-nil,
}
use mathlib.Core.List.Perm
use native.Mathlib.Bridge.{le_prop}
use native.Mathlib.Omega.{arith}
use nexapay_fintech_super_ap.Common.Lists.{All}
use nexapay_fintech_super_ap.Common.Clients.{IsDescending}

module _ {A : Type 0} (key : A → ℕ) where
  -- Two rows with the same key are the same row.
  abbrev pub KeysTell : List A → Type 0
  KeysTell xs = (x y : A) → Mem x xs → Mem y xs → key x ≡ key y → x ≡ y

  pub KeysTell-perm : {xs ys : List A} → Perm xs ys → KeysTell ys → KeysTell xs
  KeysTell-perm p tell x y mx my e = tell x y ((Perm.mem_iff p).0 mx) ((Perm.mem_iff p).0 my) e

  All-mem : (b : ℕ) (x : A) (xs : List A) → All (λ y. key y ≤ b) xs → Mem x xs → key x ≤ b
  All-mem b x [] h m = absurd (not-mem-nil m)
  All-mem b x (y ∷ ys) (first, rest) m =
      Or.elim (le_prop {n = key x} {m = b}) (mem-cons.0 m)
        (λ e. subst (λ z. key z ≤ b) (sym e) first) (All-mem b x ys rest)

  head_above :
      {a b : A} {xs ys : List A}
      → Perm (b ∷ ys) (a ∷ xs)
      → IsDescending key (a ∷ xs)
      → key b ≤ key a
  head_above {a} {b} {xs} p (below, d) =
      All-mem (key a) b (a ∷ xs) (omega arith, below) ((Perm.mem_iff p).0 mem-cons_self)

  -- Two descending orders of rows that their keys tell apart are one.
  pub descending_unique :
      (xs ys : List A)
      → Perm xs ys
      → IsDescending key xs
      → IsDescending key ys
      → KeysTell xs
      → xs ≡ ys
  descending_unique [] ys p dx dy tell = Perm.nil-eq p
  descending_unique (a ∷ xs) [] p dx dy tell = Perm.eq-nil p
  descending_unique (a ∷ xs) (b ∷ ys) p dx dy tell =
      let high : key b ≤ key a = head_above (Perm.symm p) dx in
      let low : key a ≤ key b = head_above p dy in
      let heads : a ≡ b =
        tell a b mem-cons_self ((Perm.mem_iff (Perm.symm p)).0 mem-cons_self) (omega arith) in
      let tails = Perm.cons_inv (Perm.trans p (Perm.symm (Perm.cons' heads Perm.rfl))) in
      ap₂ ◌∷◌ heads (
        descending_unique xs ys tails dx.1 dy.1
          (λ x y mx my. tell x y (mem-cons_of_mem a mx) (mem-cons_of_mem a my)))
