-- ===== src/Storage/Allocator.antt =====
-- `ElasticPageAllocator` and its two children in src/xpool/integrations/sglang/ecs/allocator.py. The
-- parts of SGLang's allocators that they call are parameters: how its free containers are read, filled
-- and rebuilt.
use cross_pool.Prelude.{
  ℕ, ◌+◌, ◌-◌, Bool, true, false, not, ◌&&◌, Option, none, some, List, [], ◌∷◌, ◌++◌, map, any, all,
  sum, length, range_from, leb, ltb, ◌==◌, nat_eq, if◌then◌else◌,
}
use cross_pool.Prelude.Result.{runtime_error}
use cross_pool.Prelude.Action.{Action, pure, modify, require, ◌>>◌}
use cross_pool.Prelude.Dict.{keys}
use cross_pool.Prelude.Sets.{elem, select, take}
use cross_pool.Storage.Geometry.{Geometry, KvVmmLayout, span_start, span_end}
use cross_pool.Storage.Pages.{Bundles, missing_bundle_count, free_count, intersects}

-- The token allocator defers frees in `release_pages`, the paged one in `staged_pages`.
pub record ElasticPageAllocator : Type 0 where
  pub free_pages : List ℕ
  pub release_pages : List ℕ
  pub staged_pages : List (List ℕ)
  pub num_staged_pages : ℕ
  pub unavailable_pages : List ℕ
  pub retiring_pages : List ℕ

pub data AllocatorKind : Type 0 where
  token_pages paged_pages : AllocatorKind

abbrev Method : Type 0 → Type 0
Method A = Action ElasticPageAllocator A

-- SGLang's own operations on the free containers.
pub record Upstream : Type 0 where
  pub get_all_free_pages : ElasticPageAllocator → List ℕ
  pub free_page_ids : List ℕ → ElasticPageAllocator → ElasticPageAllocator
  pub clear : ElasticPageAllocator → ElasticPageAllocator
  pub available_size : ElasticPageAllocator → ℕ

-- `not pages.numel()`
abbrev pub is_empty : List ℕ → Bool
is_empty [] = true
is_empty (p ∷ ps) = false

pub record SglangPagePlan : Type 0 where
  pub page_ids : List ℕ
  pub missing_bundle_ids : List ℕ

-- `torch.sort(pages).values`
abbrev pub insert_page : ℕ → List ℕ → List ℕ
insert_page p [] = p ∷ []
insert_page p (q ∷ qs) = let rest = insert_page p qs in if leb p q then p ∷ q ∷ qs else q ∷ rest

unfoldable pub sort_pages : List ℕ → List ℕ
sort_pages [] = []
sort_pages (p ∷ ps) = insert_page p (sort_pages ps)

module _ (g : Geometry) (bundles : Bundles) where
  abbrev pub is_backed : ℕ → Bool
  is_backed page = missing_bundle_count g bundles page == 0

  -- A page with some of its bundles backed.
  abbrev pub is_partial : ℕ → Bool
  is_partial page = ltb (missing_bundle_count g bundles page) (span_end g page - span_start g page)

  -- A stable sort by `partial`, the partial ones first.
  abbrev pub by_partial : List ℕ → List ℕ
  by_partial pages = select is_partial pages ++ select (λ p. not (is_partial p)) pages

  -- The bundles below `capacity` that a selected page touches and that are not mapped.
  abbrev pub missing_ids : ℕ → List ℕ → List ℕ
  missing_ids capacity selected =
      select (λ b. ltb 0 (free_count g selected b) && not (elem b (keys bundles)))
        (range_from 0 capacity)

-- The children keep the retired pages out of each of their containers.
abbrev pub exclude : AllocatorKind → Geometry → List ℕ → ElasticPageAllocator → ElasticPageAllocator
exclude token_pages g bundle_ids a = record a {
  free_pages = select (λ p. not (intersects g bundle_ids p)) a.free_pages;
  release_pages = select (λ p. not (intersects g bundle_ids p)) a.release_pages;
}
exclude paged_pages g bundle_ids a =
    let staged = map (select (λ p. not (intersects g bundle_ids p))) a.staged_pages in
    record a {
      free_pages = select (λ p. not (intersects g bundle_ids p)) a.free_pages;
      staged_pages = staged;
      num_staged_pages = sum (map length staged);
    }

module _ (u : Upstream) where
  unfoldable pub clear : Geometry → Bundles → Method (Unit {0})
  unfolding missing_bundle_count select
  clear g bundles a =
      (require (is_empty a.retiring_pages) runtime_error
          >> modify (λ b.
            let fresh = u.clear b in
            record fresh {
              unavailable_pages = select (λ p. not (is_backed g bundles p)) fresh.free_pages;
              free_pages = select (is_backed g bundles) fresh.free_pages;
            }))
        a

  abbrev pub candidates : ElasticPageAllocator → List ℕ
  candidates a = select (λ p. not (elem p a.retiring_pages)) a.unavailable_pages

  abbrev pub plan_missing : KvVmmLayout → Bundles → List ℕ → List ℕ → SglangPagePlan
  plan_missing l bundles resident selected = record {
    page_ids = resident ++ selected;
    missing_bundle_ids = missing_ids l.geometry bundles l.profile.bundle_capacity selected;
  }

  unfoldable pub plan_pages :
      KvVmmLayout → Bundles → ElasticPageAllocator → ℕ → Option SglangPagePlan
  unfolding missing_bundle_count free_count select sort_pages take
  plan_pages l bundles a page_count =
      let resident = u.get_all_free_pages a in
      if leb page_count (length resident)
      then some (record { page_ids = take page_count resident; missing_bundle_ids = [] })
      else if ltb (length resident + length (candidates a)) page_count
      then none
      else some (
          plan_missing l bundles resident (
            take (page_count - length resident)
              (by_partial l.geometry bundles (sort_pages (candidates a)))))

  -- `publish_pages`, once the pages are known.
  abbrev pub publish_selected : Geometry → Bundles → List ℕ → List ℕ → Method (Unit {0})
  publish_selected g bundles page_ids [] = pure tt
  publish_selected g bundles page_ids (p ∷ ps) = do
    λ a. require (not (any (λ q. elem q a.retiring_pages) (p ∷ ps))) runtime_error a
    require (all (is_backed g bundles) (p ∷ ps)) runtime_error
    modify (λ a. record a {
      unavailable_pages = select (λ q. not (elem q page_ids)) a.unavailable_pages;
    })
    modify (u.free_page_ids (p ∷ ps))

  unfoldable pub publish_pages : Geometry → Bundles → List ℕ → Method (Unit {0})
  unfolding missing_bundle_count select
  publish_pages g bundles page_ids a =
      publish_selected g bundles page_ids (select (λ q. elem q page_ids) a.unavailable_pages) a

  abbrev pub withdraw : Geometry → List ℕ → ElasticPageAllocator → ElasticPageAllocator
  withdraw g bundle_ids a = record a {
    retiring_pages =
        select (intersects g bundle_ids) (u.get_all_free_pages a ++ a.unavailable_pages);
    unavailable_pages =
        a.unavailable_pages ++ select (intersects g bundle_ids) (u.get_all_free_pages a);
  }

  unfoldable pub begin_retirement : AllocatorKind → Geometry → List ℕ → Method (Unit {0})
  unfolding intersects select
  begin_retirement kind g bundle_ids a =
      (require (is_empty a.retiring_pages) runtime_error
          >> modify (withdraw g bundle_ids)
          >> modify (exclude kind g bundle_ids))
        a

unfoldable pub finish_retirement : ElasticPageAllocator → ElasticPageAllocator
finish_retirement a = record a { retiring_pages = [] }
