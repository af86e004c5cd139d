-- ===== src/Storage/Reference.antt =====
-- The stable size of an engine: `reference_bytes` and the search of `reference_config` in
-- src/xpool/integrations/sglang/ecs/state.py. The sizes that SGLang's policy derives from a number of
-- pages are a parameter, as the tokens of each component. The ratio and the agreement of the ranks are
-- left out.
use cross_pool.Prelude.{
  ℕ, zero, suc, ◌+◌, ◌-◌, ◌*◌, ◌/◌, ◌≤◌, ◌<◌, ◌≡◌, refl, inl, inr, Bool, true, false, not, ◌&&◌,
  Option, none, some, List, [], ◌∷◌, arith, leb, ltb, nat_eq, if◌then◌else◌, Bool-cases, sym, ◌∙◌,
}
use mathlib.Core.Bool.{true≢false}
use cross_pool.Prelude.Result.{Result, ok, err, memory_error, ◌>>=◌}
use cross_pool.Quota.Profile.{align_up, bytes_for}
use cross_pool.Storage.Division.{up_div}
use cross_pool.Storage.Geometry.{KvVmmLayout, row_bytes, token_capacity}

abbrev add_bytes : ℕ → Option ℕ → Option ℕ
add_bytes n none = none
add_bytes n (some m) = some (n + m)

-- What one component costs with room for `count` tokens, of which it must have some.
abbrev component_bytes : KvVmmLayout → ℕ → Result ℕ
component_bytes l count = do
  aligned ←
      align_up
        (up_div (count + l.geometry.token_page_size) l.geometry.tokens_per_row
          * row_bytes l.geometry)
        l.geometry.mapping_granularity_bytes
  bytes_for l.profile (aligned / l.geometry.mapping_granularity_bytes)

-- The token counts go with the components; a component without one has no price.
unfoldable pub reference_bytes : List KvVmmLayout → List (Option ℕ) → Result (Option ℕ)
unfolding align_up bytes_for row_bytes
reference_bytes [] counts = ok (some 0)
reference_bytes (l ∷ ls) [] = ok none
reference_bytes (l ∷ ls) (none ∷ counts) = ok none
reference_bytes (l ∷ ls) (some count ∷ counts) =
    let rest = reference_bytes ls counts in
    if not (ltb 0 count && leb count (token_capacity l.geometry))
    then ok none
    else (do bytes ← component_bytes l count; total ← rest; ok (add_bytes bytes total))

-- The `while` of `reference_config`: `fits` says that a candidate has a price within the ceiling. `none`
-- means that the fuel ran out.
unfoldable pub search_pages : (ℕ → Bool) → ℕ → ℕ → ℕ → Option ℕ → Option (Option ℕ)
search_pages fits zero lower upper best = none
search_pages fits (suc fuel) lower upper best =
    let middle = (lower + upper) / 2 in
    let above = search_pages fits fuel (middle + 1) upper (some middle) in
    let below = search_pages fits fuel lower (middle - 1) best in
    if leb lower upper then (if fits middle then above else below) else some best

abbrev pub within_ceiling : ℕ → Result (Option ℕ) → Bool
within_ceiling ceiling_bytes (ok (some cost)) = leb cost ceiling_bytes
within_ceiling ceiling_bytes _ = false

abbrev chosen_pages : Option (Option ℕ) → Result ℕ
chosen_pages (some (some pages)) = ok pages
chosen_pages _ = err memory_error

-- The bounds of the search come from the caller, and its fuel is the number of candidates and one.
unfoldable pub reference_pages : List KvVmmLayout → (ℕ → List (Option ℕ)) → ℕ → ℕ → ℕ → Result ℕ
unfolding reference_bytes search_pages
reference_pages layouts sizes ceiling_bytes lower upper =
    if ltb upper lower
    then err memory_error
    else chosen_pages (
        search_pages (λ pages. within_ceiling ceiling_bytes (reference_bytes layouts (sizes pages)))
          (upper + 2 - lower) lower upper none)

-- What the search knows of its best candidate: it fits, and so far it is the one below `lower`.
abbrev IsBest : (ℕ → Bool) → ℕ → ℕ → Option ℕ → Type 0
IsBest fits low lower none = lower ≡ low
IsBest fits low lower (some best) = (low ≤ best) × (best + 1 ≡ lower) × (fits best ≡ true)

-- The largest candidate that fits, if one does.
abbrev pub IsLargest : (ℕ → Bool) → ℕ → ℕ → Option ℕ → Type 0
IsLargest fits low high none = (n : ℕ) → low ≤ n → n ≤ high → fits n ≡ false
IsLargest fits low high (some best) =
    (low ≤ best)
    × (best ≤ high)
    × (fits best ≡ true)
    × ((n : ℕ) → best < n → n ≤ high → fits n ≡ false)

module _ (fits : ℕ → Bool) (low high : ℕ) (positive : 0 < low)
    (smaller : (m n : ℕ) → low ≤ m → m ≤ n → n ≤ high → fits n ≡ true → fits m ≡ true) where
  search_pages-IsLargest_from :
      (fuel lower upper : ℕ) (best : Option ℕ)
      → upper + 1 < fuel + lower
      → lower ≤ upper + 1
      → low ≤ lower
      → upper ≤ high
      → IsBest fits low lower best
      → ((n : ℕ) → upper < n → n ≤ high → fits n ≡ false)
      → (found : Option ℕ) × (search_pages fits fuel lower upper best ≡ some found)
        × IsLargest fits low high found
  unfolding search_pages
  search_pages-IsLargest_from zero lower upper best enough near above below h none_above =
      absurd (omega arith)
  search_pages-IsLargest_from (suc fuel) lower upper best enough near above below h none_above =
      elim (Bool-cases (leb lower upper)) [
        | inr done ↦ rw done (best, refl, largest best h (ground arith))
        | inl more ↦ elim (Bool-cases (fits middle)) [
          | inl fit ↦
              rw (more, fit)
                (search_pages-IsLargest_from fuel (middle + 1) upper (some middle) (ground arith)
                  (ground arith) (ground arith) below (ground arith, refl, fit) none_above)
          | inr over ↦
              rw (more, over)
                (search_pages-IsLargest_from fuel lower (middle - 1) best (ground arith)
                  (ground arith) above (ground arith) h
                  (λ n past le. too_large n (ground arith) (ground arith) le over))
        ]
      ]
    where
      middle : ℕ
      middle = (lower + upper) / 2

      too_large :
          (n : ℕ) → low ≤ middle → middle ≤ n → n ≤ high → fits middle ≡ false → fits n ≡ false
      too_large n from le top over = elim (Bool-cases (fits n)) [
        | inl fit ↦ absurd (true≢false (sym (smaller middle n from le top fit) ∙ over))
        | inr no_ ↦ no_
      ]

      largest :
          (best : Option ℕ)
          → IsBest fits low lower best
          → lower ≡ upper + 1
          → IsLargest fits low high best
      largest none e end_ = λ n from to. none_above n (omega arith) to
      largest (some b) (from, e, fit) end_ =
          (from, omega arith, fit, λ n past to. none_above n (omega arith) to)

-- The result, if there is one, is a candidate that fits.
abbrev pub IsFitting : (ℕ → Bool) → ℕ → ℕ → Option ℕ → Type 0
IsFitting fits low high none = Unit
IsFitting fits low high (some best) = (low ≤ best) × (best ≤ high) × (fits best ≡ true)

search_pages-IsFitting :
    (fits : ℕ → Bool) (low high fuel lower upper : ℕ) (best : Option ℕ)
    → 0 < low
    → upper + 1 < fuel + lower
    → low ≤ lower
    → lower ≤ upper + 1
    → upper ≤ high
    → IsFitting fits low high best
    → (found : Option ℕ) × (search_pages fits fuel lower upper best ≡ some found)
      × IsFitting fits low high found
unfolding search_pages
search_pages-IsFitting fits low high zero lower upper best positive enough above near below h =
    absurd (omega arith)
search_pages-IsFitting fits low high (suc fuel) lower upper best positive enough above near below
      h =
    elim (Bool-cases (leb lower upper)) [
      | inr done ↦ rw done (best, refl, h)
      | inl more ↦ elim (Bool-cases (fits middle)) [
        | inl fit ↦
            rw (more, fit)
              (search_pages-IsFitting fits low high fuel (middle + 1) upper (some middle) positive
                (ground arith) (ground arith) (ground arith) below
                (ground arith, ground arith, fit))
        | inr over ↦
            rw (more, over)
              (search_pages-IsFitting fits low high fuel lower (middle - 1) best positive
                (ground arith) above (ground arith) (ground arith) h)
      ]
    ]
  where
    middle : ℕ
    middle = (lower + upper) / 2

-- Over a range that starts above 0, the search ends with the fuel that it is given, and what it finds,
-- if anything, is a candidate of the range that fits.
pub search_pages-enough :
    (fits : ℕ → Bool) (low high : ℕ)
    → 0 < low
    → low ≤ high
    → (found : Option ℕ) × (search_pages fits (high + 2 - low) low high none ≡ some found)
      × IsFitting fits low high found
search_pages-enough fits low high positive nonempty =
    search_pages-IsFitting fits low high (high + 2 - low) low high none positive (omega arith)
      (omega arith) (omega arith) (omega arith) tt

-- Over a range that starts above 0 and in which a candidate fits whenever a larger one does, the search
-- finds the largest that fits, if one does.
pub search_pages-IsLargest :
    (fits : ℕ → Bool) (low high : ℕ)
    → 0 < low
    → low ≤ high
    → ((m n : ℕ) → low ≤ m → m ≤ n → n ≤ high → fits n ≡ true → fits m ≡ true)
    → (found : Option ℕ) × (search_pages fits (high + 2 - low) low high none ≡ some found)
      × IsLargest fits low high found
search_pages-IsLargest fits low high positive nonempty smaller =
    search_pages-IsLargest_from fits low high positive smaller (high + 2 - low) low high none
      (omega arith) (omega arith) (omega arith) (omega arith) refl
      (λ n past le. absurd (omega arith))
