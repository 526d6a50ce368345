-- ===== src/Prelude/Assoc.antt =====
-- Association lists: a Go map, a directory of files or a table with a primary key.
use mathlib.Core.Path.{◌≡◌, refl}
use mathlib.Core.List.{List, [], ◌∷◌}
use mathlib.Core.Option.{Option, none, some}
use native.Mathlib.Omega.{arith}
use cache_22_server.Prelude.Tests.{if◌then◌else◌}
use cache_22_server.Prelude.Keys.{Eq, ◌==◌}

abbrev pub Assoc {ℓ κ} : Type ℓ → Type κ → Type (ℓ ⊔ κ)
Assoc K V = List (K × V)

module _ {ℓ κ} {K : Type ℓ} {V : Type κ} ⦃keys : Eq K⦄ where
  unfoldable pub lookup : K → Assoc K V → Option V
  lookup key [] = none
  lookup key ((own, value) ∷ table) = if own == key then some value else lookup key table

  unfoldable pub erase : K → Assoc K V → Assoc K V
  erase key [] = []
  erase key ((own, value) ∷ table) =
      if own == key then erase key table else (own, value) ∷ erase key table

  unfoldable pub insert : K → V → Assoc K V → Assoc K V
  insert key new [] = (key, new) ∷ []
  insert key new ((own, value) ∷ table) =
      if own == key then (key, new) ∷ table else (own, value) ∷ insert key new table

  pub lookup-erase :
      (gone key : K) (table : Assoc K V)
      → lookup key (erase gone table) ≡ (if gone == key then none else lookup key table)
  unfolding lookup erase
  lookup-erase gone key [] = ground arith
  lookup-erase gone key ((own, value) ∷ table) = ground (
    arith,
    keys.beq_iff gone key,
    keys.beq_iff own gone,
    keys.beq_iff own key,
    lookup-erase gone key table,
  )

  pub lookup-insert :
      (set key : K) (new : V) (table : Assoc K V)
      → lookup key (insert set new table) ≡ (if set == key then some new else lookup key table)
  unfolding lookup insert
  lookup-insert set key new [] = refl
  lookup-insert set key new ((own, value) ∷ table) = ground (
    arith,
    keys.beq_iff set key,
    keys.beq_iff own set,
    keys.beq_iff own key,
    lookup-insert set key new table,
  )
