-- ===== src/Base/Unique.antt =====
-- A rearrangement of a list without repetitions has none.
use Prim.Native.Nat.{ℕ}
use mathlib.Core.Logic.{inl, inr}
use mathlib.Core.List.{List, [], ◌∷◌, Perm, Nodup, Nodup-cons}
use mathlib.Core.List.Perm
use mathlib.Core.List.Pairwise
use native.Mathlib.Omega.{arith}
use setrixdb.Base.Tests.{Bool-cases}
use setrixdb.Base.Ids.{elem, elem-Mem, Mem-elem}
use setrixdb.Base.Select.{IsUnique}

IsUnique-Nodup : (xs : List ℕ) → IsUnique xs → Nodup xs
IsUnique-Nodup [] u = Pairwise.nil
IsUnique-Nodup (x ∷ xs) u =
    Nodup-cons.1 (λ m. let found = Mem-elem x xs m in ground (arith, u.0), IsUnique-Nodup xs u.1)

Nodup-IsUnique : (xs : List ℕ) → Nodup xs → IsUnique xs
Nodup-IsUnique [] d = tt
Nodup-IsUnique (x ∷ xs) d =
    let (apart, rest) = Nodup-cons.0 d in
    (
      elim (Bool-cases (elem x xs)) [ inl e ↦ absurd (apart (elem-Mem x xs e)) | inr e ↦ e ],
      Nodup-IsUnique xs rest,
    )

pub IsUnique-perm : {xs ys : List ℕ} → Perm xs ys → IsUnique xs → IsUnique ys
IsUnique-perm {xs} {ys} p u = Nodup-IsUnique ys (Perm.nodup p (IsUnique-Nodup xs u))
