-- ===== src/Prelude/Keys.antt =====
-- Dictionaries whose keys do not repeat, and how their sizes change.
use Prim.Native.Nat.{ℕ, suc}
use mathlib.Core.Path.{◌≡◌, refl}
use mathlib.Core.Bool.{true, false}
use mathlib.Core.List.{List, [], ◌∷◌, ◌++◌}
use native.Mathlib.Omega.{arith}
use cross_pool.Prelude.Tests.{is_some}
use cross_pool.Prelude.Lists.{length}
use cross_pool.Prelude.Interface.{Eq, nat_eq, beq_refl}
use cross_pool.Prelude.Dict.{lookup, insert, delete, keys, lookup-insert, lookup-delete}
use cross_pool.Prelude.Sets.{elem}

module _ {ℓ κ} {K : Type ℓ} {V : Type κ} ⦃e : Eq K⦄ where
  unfoldable pub HasDistinctKeys : List (K × V) → Type 0
  HasDistinctKeys [] = Unit
  HasDistinctKeys ((key, value) ∷ entries) =
      (is_some (lookup key entries) ≡ false) × HasDistinctKeys entries

  pub insert-HasDistinctKeys :
      (key : K) (value : V) (entries : List (K × V))
      → HasDistinctKeys entries
      → HasDistinctKeys (insert key value entries)
  unfolding HasDistinctKeys insert lookup
  insert-HasDistinctKeys key value [] h = (refl, tt)
  insert-HasDistinctKeys key value ((held, old) ∷ entries) h = ground (
    arith,
    e.beq_iff held key,
    e.beq_iff key held,
    lookup-insert key held value entries,
    insert-HasDistinctKeys key value entries h.1,
  )

  pub delete-HasDistinctKeys :
      (key : K) (entries : List (K × V))
      → HasDistinctKeys entries
      → HasDistinctKeys (delete key entries)
  unfolding HasDistinctKeys delete
  delete-HasDistinctKeys key [] h = tt
  delete-HasDistinctKeys key ((held, old) ∷ entries) h =
      ground (arith, lookup-delete key held entries, delete-HasDistinctKeys key entries h.1)

  -- A key that is not there is added at the end.
  pub insert_new :
      (key : K) (value : V) (entries : List (K × V))
      → is_some (lookup key entries) ≡ false
      → insert key value entries ≡ entries ++ ((key, value) ∷ [])
  unfolding insert lookup
  insert_new key value [] h = refl
  insert_new key value ((held, old) ∷ entries) h = ground (arith, insert_new key value entries)

  pub length-insert_new :
      (key : K) (value : V) (entries : List (K × V))
      → is_some (lookup key entries) ≡ false
      → length (insert key value entries) ≡ suc (length entries)
  unfolding insert lookup
  length-insert_new key value [] h = refl
  length-insert_new key value ((held, old) ∷ entries) h =
      ground (arith, length-insert_new key value entries)

  pub length-insert_held :
      (key : K) (value : V) (entries : List (K × V))
      → is_some (lookup key entries) ≡ true
      → length (insert key value entries) ≡ length entries
  unfolding insert lookup
  length-insert_held key value [] h = cc
  length-insert_held key value ((held, old) ∷ entries) h =
      ground (arith, length-insert_held key value entries)

  pub delete_absent :
      (key : K) (entries : List (K × V))
      → is_some (lookup key entries) ≡ false
      → delete key entries ≡ entries
  unfolding delete lookup
  delete_absent key [] h = refl
  delete_absent key ((held, old) ∷ entries) h = ground (arith, delete_absent key entries)

  pub length-delete :
      (key : K) (entries : List (K × V))
      → HasDistinctKeys entries
      → is_some (lookup key entries) ≡ true
      → suc (length (delete key entries)) ≡ length entries
  unfolding delete lookup HasDistinctKeys
  length-delete key [] h held = cc
  length-delete key ((other, old) ∷ entries) h held =
      ground (arith, e.beq_iff other key, length-delete key entries h.1, delete_absent key entries)

  -- Writing a key twice is writing it once, and deleting a key that was new undoes its writing.
  pub insert_twice :
      (key : K) (first second : V) (entries : List (K × V))
      → insert key second (insert key first entries) ≡ insert key second entries
  unfolding insert
  insert_twice key first second [] = ground (arith, beq_refl key)
  insert_twice key first second ((held, old) ∷ entries) =
      ground (arith, insert_twice key first second entries)

  pub delete-insert_new :
      (key : K) (value : V) (entries : List (K × V))
      → is_some (lookup key entries) ≡ false
      → delete key (insert key value entries) ≡ entries
  unfolding insert delete lookup
  delete-insert_new key value [] h = ground (arith, beq_refl key)
  delete-insert_new key value ((held, old) ∷ entries) h =
      ground (arith, delete-insert_new key value entries)

pub elem-keys {ℓ} :
    {V : Type ℓ} (key : ℕ) (entries : List (ℕ × V))
    → elem key (keys entries) ≡ is_some (lookup key entries)
unfolding elem lookup
elem-keys key [] = refl
elem-keys key ((held, value) ∷ entries) = ground (arith, elem-keys key entries)
