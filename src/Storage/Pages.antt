-- ===== src/Storage/Pages.antt =====
-- The page computations of `KvVmmBacking` in src/xpool/integrations/sglang/ecs/vmm.py. A tensor is a
-- list, a cumulative sum is a count below a bound, and the differences that `scatter_add_` collects are
-- kept as the starts and the ends of the intervals.
pub mod Cover
pub mod Empty
use cross_pool.Prelude.{ℕ, zero, suc, ◌+◌, ◌-◌, Bool, not, List, leb, ◌==◌, nat_eq, if◌then◌else◌}
use cross_pool.Prelude.Dict.{keys}
use cross_pool.Prelude.Sets.{elem, select, count}
use cross_pool.Storage.Geometry.{Geometry, KvVmmLayout, span_start, span_end, first_page, end_page}
use cross_pool.Storage.Backing.{KvVmmBundle}

abbrev pub Bundles : Type 0
Bundles = List (ℕ × KvVmmBundle)

-- A cumulative sum with a zero in front, of the positions that pass a test.
unfoldable pub prefix : (ℕ → Bool) → ℕ → ℕ
prefix p zero = 0
prefix p (suc n) = if p n then suc (prefix p n) else prefix p n

-- `missing_bundle_counts`, for one page.
unfoldable pub missing_bundle_count : Geometry → Bundles → ℕ → ℕ
unfolding prefix
missing_bundle_count g bundles page =
    prefix (λ b. not (elem b (keys bundles))) (span_end g page)
    - prefix (λ b. not (elem b (keys bundles))) (span_start g page)

-- How many of the pages touch a bundle: those that start up to it, less those that end up to it.
unfoldable pub free_count : Geometry → List ℕ → ℕ → ℕ
unfolding count
free_count g pages bundle =
    count (λ p. leb (span_start g p) bundle) pages - count (λ p. leb (span_end g p) bundle) pages

unfoldable pub empty_bundles : KvVmmLayout → Bundles → List ℕ → List ℕ
unfolding free_count select
empty_bundles l bundles free =
    select (λ b. free_count l.geometry free b + first_page l.geometry b == end_page l.geometry b)
      (select (leb l.profile.floor_bundles) (keys bundles))

-- `ElasticPageAllocator.intersecting_pages`, for one page.
unfoldable pub intersects : Geometry → List ℕ → ℕ → Bool
unfolding prefix
intersects g bundles page = not (
    prefix (λ b. elem b bundles) (span_end g page)
    == prefix (λ b. elem b bundles) (span_start g page))
