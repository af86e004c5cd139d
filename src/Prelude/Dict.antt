-- ===== src/Prelude/Dict.antt =====
-- Python dictionaries as association lists in insertion order: a write to a key that is there keeps
-- its position, and a new key goes to the end.
use mathlib.Core.Path.{◌≡◌, refl}
use mathlib.Core.Option.{Option, none, some}
use mathlib.Core.List.{List, [], ◌∷◌, map}
use native.Mathlib.Omega.{arith}
use cross_pool.Prelude.Tests.{if◌then◌else◌}
use cross_pool.Prelude.Interface.{Eq, ◌==◌}

module _ {ℓ κ} {K : Type ℓ} {V : Type κ} where
  abbrev pub keys : List (K × V) → List K
  keys = map (λ e. e.0)

  abbrev pub values : List (K × V) → List V
  values = map (λ e. e.1)

module _ {ℓ κ} {K : Type ℓ} {V : Type κ} ⦃e : Eq K⦄ where
  unfoldable pub lookup : K → List (K × V) → Option V
  lookup key [] = none
  lookup key ((held, value) ∷ entries) = if held == key then some value else lookup key entries

  unfoldable pub insert : K → V → List (K × V) → List (K × V)
  insert key new [] = (key, new) ∷ []
  insert key new ((held, value) ∷ entries) =
      if held == key then (held, new) ∷ entries else (held, value) ∷ insert key new entries

  unfoldable pub delete : K → List (K × V) → List (K × V)
  delete key [] = []
  delete key ((held, value) ∷ entries) =
      let rest = delete key entries in if held == key then rest else (held, value) ∷ rest

  pub lookup-delete :
      (gone key : K) (entries : List (K × V))
      → lookup key (delete gone entries) ≡ (if gone == key then none else lookup key entries)
  unfolding lookup delete
  lookup-delete gone key [] = ground arith
  lookup-delete gone key ((held, value) ∷ entries) = ground (
    arith,
    e.beq_iff gone key,
    e.beq_iff held gone,
    e.beq_iff held key,
    lookup-delete gone key entries,
  )

  pub lookup-insert :
      (new key : K) (value : V) (entries : List (K × V))
      → lookup key (insert new value entries)
        ≡ (if new == key then some value else lookup key entries)
  unfolding lookup insert
  lookup-insert new key value [] = refl
  lookup-insert new key value ((held, old) ∷ entries) = ground (
    arith,
    e.beq_iff new key,
    e.beq_iff held new,
    e.beq_iff held key,
    lookup-insert new key value entries,
  )
