-- ===== src/Prelude/Sets.antt =====
-- Lists of numbers as sets: membership as `in` and `torch.isin` test it, selection by a Boolean mask,
-- the sorted set of a list, and counting.
use Prim.Native.Nat.{ℕ, zero, suc, ◌+◌, ◌≤◌, ◌<◌}
use mathlib.Core.Path.{◌≡◌, refl, ◌∙◌}
use mathlib.Core.Logic.{◌↔◌, inl, inr}
use mathlib.Core.Bool.{Bool, true, false, ◌&&◌, ◌||◌}
use mathlib.Core.List.{List, [], ◌∷◌, ◌++◌}
use native.Mathlib.Omega.{arith}
use cross_pool.Prelude.Tests.{ltb, leb, if◌then◌else◌, Bool-cases}
use cross_pool.Prelude.Lists.{length}
use cross_pool.Prelude.Interface.{◌==◌, nat_eq}

unfoldable pub elem : ℕ → List ℕ → Bool
elem x [] = false
elem x (y ∷ ys) = y == x || elem x ys

module _ {ℓ} {A : Type ℓ} where
  -- `xs[mask]`
  unfoldable pub select : (A → Bool) → List A → List A
  select p [] = []
  select p (x ∷ xs) = let rest = select p xs in if p x then x ∷ rest else rest

  -- `xs[:n]`
  unfoldable pub take : ℕ → List A → List A
  take zero xs = []
  take (suc n) [] = []
  take (suc n) (x ∷ xs) = x ∷ take n xs

  unfoldable pub count : (A → Bool) → List A → ℕ
  count p [] = 0
  count p (x ∷ xs) = if p x then suc (count p xs) else count p xs

-- `sorted(set(xs))`
unfoldable pub add_sorted : ℕ → List ℕ → List ℕ
add_sorted x [] = x ∷ []
add_sorted x (y ∷ ys) =
    let rest = add_sorted x ys in
    if ltb x y then x ∷ y ∷ ys else if y == x then y ∷ ys else y ∷ rest

unfoldable pub sorted_set : List ℕ → List ℕ
unfolding add_sorted
sorted_set [] = []
sorted_set (x ∷ xs) = add_sorted x (sorted_set xs)

-- No number occurs twice.
abbrev pub IsUnique : List ℕ → Type 0
IsUnique xs = (x : ℕ) → count (λ y. y == x) xs ≤ 1

pub elem-append : (x : ℕ) (xs ys : List ℕ) → elem x (xs ++ ys) ≡ elem x xs || elem x ys
unfolding elem
elem-append x [] ys = refl
elem-append x (y ∷ xs) ys = ground (arith, elem-append x xs ys)

pub elem-select : (p : ℕ → Bool) (x : ℕ) (xs : List ℕ) → elem x (select p xs) ≡ elem x xs && p x
unfolding elem select
elem-select p x [] = refl
elem-select p x (y ∷ ys) = ground (arith, elem-select p x ys)

elem-add_sorted : (x y : ℕ) (xs : List ℕ) → elem x (add_sorted y xs) ≡ y == x || elem x xs
unfolding elem add_sorted
elem-add_sorted x y [] = refl
elem-add_sorted x y (z ∷ zs) = ground (arith, elem-add_sorted x y zs)

pub elem-sorted_set : (x : ℕ) (xs : List ℕ) → elem x (sorted_set xs) ≡ elem x xs
unfolding elem sorted_set
elem-sorted_set x [] = refl
elem-sorted_set x (y ∷ ys) =
    ground (arith, elem-add_sorted x y (sorted_set ys), elem-sorted_set x ys)

module _ {ℓ} {A : Type ℓ} (p : A → Bool) where
  pub count-append : (xs ys : List A) → count p (xs ++ ys) ≡ count p xs + count p ys
  unfolding count
  count-append [] ys = omega arith
  count-append (x ∷ xs) ys = ground (arith, count-append xs ys)

  pub length-select : (xs : List A) → length (select p xs) ≡ count p xs
  unfolding select count
  length-select [] = refl
  length-select (x ∷ xs) = ground (arith, length-select xs)

-- What is counted by two tests that exclude each other is counted by their disjunction.
pub count_split {ℓ} :
    {A : Type ℓ} (p q : A → Bool) (xs : List A)
    → ((x : A) → p x && q x ≡ false)
    → count (λ x. p x || q x) xs ≡ count p xs + count q xs
unfolding count
count_split p q [] h = omega arith
count_split p q (x ∷ xs) h = ground (arith, h x, count_split p q xs h)

pub count-le {ℓ} :
    {A : Type ℓ} (p q : A → Bool) (xs : List A)
    → ((x : A) → p x ≡ true → q x ≡ true)
    → count p xs ≤ count q xs
unfolding count
count-le p q [] h = omega arith
count-le p q (x ∷ xs) h = ground (arith, h x, count-le p q xs h)

pub elem-count : (x : ℕ) (xs : List ℕ) → (elem x xs ≡ true) ↔ (0 < count (λ y. y == x) xs)
unfolding elem count
elem-count x [] = ground arith
elem-count x (y ∷ ys) = ground (arith, elem-count x ys)

-- The test that a number lies in an interval.
abbrev pub within : ℕ → ℕ → ℕ → Bool
within low high x = leb low x && ltb x high

pub count-ext {ℓ} :
    {A : Type ℓ} (p q : A → Bool) (xs : List A) → ((x : A) → p x ≡ q x) → count p xs ≡ count q xs
unfolding count
count-ext p q [] h = refl
count-ext p q (x ∷ xs) h = ground (arith, h x, count-ext p q xs h)

count_none {ℓ} :
    {A : Type ℓ} (p : A → Bool) (xs : List A) → ((x : A) → p x ≡ false) → count p xs ≡ 0
unfolding count
count_none p [] h = refl
count_none p (x ∷ xs) h = ground (arith, h x, count_none p xs h)

count_next :
    (low n : ℕ) (xs : List ℕ)
    → count (within low (low + suc n)) xs
      ≡ count (within low (low + n)) xs + count (λ x. x == low + n) xs
count_next low n xs =
    count-ext (within low (low + suc n)) (λ x. within low (low + n) x || x == low + n) xs
      (λ x. ground arith)
    ∙ count_split (within low (low + n)) (λ x. x == low + n) xs (λ x. ground arith)

-- Numbers that do not repeat fill an interval exactly when their count there is its length.
module _ (xs : List ℕ) (unique : IsUnique xs) (low : ℕ) where
  count_within-le : (n : ℕ) → count (within low (low + n)) xs ≤ n
  count_within-le zero = omega (arith, count_none (within low (low + 0)) xs (λ x. ground arith))
  count_within-le (suc n) = omega (arith, count_next low n xs, unique (low + n), count_within-le n)

  pub count_within-full :
      (n : ℕ)
      → ((x : ℕ) → low ≤ x → x < low + n → elem x xs ≡ true)
      → count (within low (low + n)) xs ≡ n
  count_within-full zero h = count_none (within low (low + 0)) xs (λ x. ground arith)
  count_within-full (suc n) h = omega (
    arith,
    count_next low n xs,
    unique (low + n),
    count_within-full n (λ x a z. h x a (omega (arith, z))),
    (elem-count (low + n) xs).0 (h (low + n) (omega arith) (omega arith)),
  )

  pub full-elem :
      (n : ℕ)
      → count (within low (low + n)) xs ≡ n
      → (x : ℕ) → low ≤ x
      → x < low + n
      → elem x xs ≡ true
  full-elem zero h x a z = absurd (omega arith)
  full-elem (suc n) h x a z = elim (Bool-cases (x == low + n)) [
    | inl last ↦
        let same : x ≡ low + n = ground arith in
        rw same
          ((elem-count (low + n) xs).1 (omega (arith, count_next low n xs, h, count_within-le n)))
    | inr earlier ↦
        full-elem n (omega (arith, count_next low n xs, h, count_within-le n, unique (low + n))) x a
          (ground arith)
  ]

-- The numbers increase along the list.
abbrev IsBelow : ℕ → List ℕ → Type 0
IsBelow x xs = (y : ℕ) → elem y xs ≡ true → x < y

unfoldable pub IsAscending : List ℕ → Type 0
IsAscending [] = Unit
IsAscending (x ∷ xs) = IsBelow x xs × IsAscending xs

add_sorted-IsAscending : (x : ℕ) (xs : List ℕ) → IsAscending xs → IsAscending (add_sorted x xs)
unfolding add_sorted IsAscending elem
add_sorted-IsAscending x [] h = (λ y e. ground arith, tt)
add_sorted-IsAscending x (y ∷ ys) h = elim (Bool-cases (ltb x y)) [
  | inl less ↦ rw less (λ z e. grind (arith, h.0 z), h)
  | inr more ↦ elim (Bool-cases (y == x)) [
    | inl same ↦ rw (more, same) h
    | inr other ↦
        rw (more, other)
          (λ z e. grind (arith, h.0 z, elem-add_sorted z x ys), add_sorted-IsAscending x ys h.1)
  ]
]

pub sorted_set-IsAscending : (xs : List ℕ) → IsAscending (sorted_set xs)
unfolding sorted_set IsAscending
sorted_set-IsAscending [] = tt
sorted_set-IsAscending (x ∷ xs) =
    add_sorted-IsAscending x (sorted_set xs) (sorted_set-IsAscending xs)

pub select-IsAscending : (p : ℕ → Bool) (xs : List ℕ) → IsAscending xs → IsAscending (select p xs)
unfolding select IsAscending
select-IsAscending p [] h = tt
select-IsAscending p (x ∷ xs) h = elim (Bool-cases (p x)) [
  | inl kept ↦
      rw kept (λ y e. h.0 y (ground (arith, elem-select p y xs)), select-IsAscending p xs h.1)
  | inr gone ↦ rw gone (select-IsAscending p xs h.1)
]

pub count-ext_elem :
    (p q : ℕ → Bool) (xs : List ℕ)
    → ((x : ℕ) → elem x xs ≡ true → p x ≡ q x)
    → count p xs ≡ count q xs
unfolding count elem
count-ext_elem p q [] h = refl
count-ext_elem p q (x ∷ xs) h =
    ground (arith, h x (ground arith), count-ext_elem p q xs (λ y e. h y (ground arith)))

-- How often a number occurs.
abbrev pub occurs : ℕ → List ℕ → ℕ
occurs x = count (λ y. y == x)

pub occurs-select :
    (p : ℕ → Bool) (x : ℕ) (xs : List ℕ) → occurs x (select p xs) ≡ (if p x then occurs x xs else 0)
unfolding count select
occurs-select p x [] = ground arith
occurs-select p x (y ∷ ys) = ground (arith, occurs-select p x ys)

pub elem-occurs : (x : ℕ) (xs : List ℕ) → (elem x xs ≡ false) ↔ (occurs x xs ≡ 0)
elem-occurs x xs = ground (arith, elem-count x xs)

pub elem-take : (x n : ℕ) (xs : List ℕ) → elem x (take n xs) ≡ true → elem x xs ≡ true
unfolding elem take
elem-take x zero xs e = cc
elem-take x (suc n) [] e = e
elem-take x (suc n) (y ∷ ys) e = ground (arith, elem-take x n ys)
