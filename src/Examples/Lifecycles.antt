-- ===== src/Examples/Lifecycles.antt =====
-- A component of a rank that maps a page and hands it to the engine, and a plan for two pages.
use cross_pool.Prelude.{
  ℕ, ◌+◌, ◌≡◌, refl, true, false, ◌||◌, some, [], ◌∷◌, ◌++◌, arith, length, subst, ◌==◌, nat_eq,
}
use cross_pool.Prelude.Sets.{elem, select, take, count, count-append}
use cross_pool.Prelude.Dict.{keys}
use cross_pool.Storage.Geometry.{past_page, row_bytes, span_start, span_end}
use cross_pool.Storage.Geometry.Span.{Touches, IsUsable}
use cross_pool.Storage.Pages.{Bundles, prefix, missing_bundle_count, free_count}
use cross_pool.Storage.Pages.Cover.{IsResident}
use cross_pool.Storage.Allocator.{
  ElasticPageAllocator, Upstream, SglangPagePlan, token_pages, sort_pages, plan_pages,
}
use cross_pool.Storage.Plans.{plan_pages-eq-some}
use cross_pool.Prelude.Result.{ok}
use cross_pool.Prelude.Dict.{lookup, insert}
use cross_pool.Prelude.Keys.{HasDistinctKeys}
use cross_pool.Prelude.Sets.{add_sorted, sorted_set}
use cross_pool.Quota.Ledger.{try_reserve}
use cross_pool.Storage.Backing.{acquire, map_missing, map_absent, try_map}
use cross_pool.Storage.Backing.Outcome.{IsMapped}
use cross_pool.Storage.Pool.{store_of}
use cross_pool.Storage.Served.{IsUpstream, IsServed}
use cross_pool.Storage.Managed.{
  Managed, component, mapped, published, Changes, start, then_, maps, publishes,
}
use cross_pool.Storage.Lifecycle.{IsManaged, Changes-served}
use cross_pool.Examples.Bundles.{layout, geometry, layout-IsLayout, willing}

-- Free containers as plain lists.
abbrev upstream : Upstream
upstream = record {
  get_all_free_pages = λ a. a.free_pages ++ a.release_pages;
  free_page_ids = λ ps a. record a { free_pages = ps ++ a.free_pages };
  clear = λ a. record a { free_pages = 1 ∷ 2 ∷ 3 ∷ []; release_pages = [] };
  available_size = λ a. length a.free_pages + length a.free_pages;
}

upstream-IsUpstream : IsUpstream token_pages upstream
upstream-IsUpstream = record {
  all_of = λ a p. count-append (λ y. y == p) a.free_pages a.release_pages;
  frees = λ ps a p. omega (
    arith,
    count-append (λ y. y == p) (ps ++ a.free_pages) a.release_pages,
    count-append (λ y. y == p) ps a.free_pages,
    count-append (λ y. y == p) a.free_pages a.release_pages,
  );
  keeps_unavailable = λ ps a. refl;
  keeps_retiring = λ ps a. refl;
}

-- The floor is backed, and all usable pages are withheld.
abbrev fresh : Managed
fresh = record {
  focus = record {
    component = record {
      layout = layout;
      kind = token_pages;
      allocator = record {
        free_pages = [];
        release_pages = [];
        staged_pages = [];
        num_staged_pages = 0;
        unavailable_pages = 1 ∷ 2 ∷ 3 ∷ [];
        retiring_pages = [];
      };
      base = 64;
      bundles = (0, record { handle = 7; mapped = true }) ∷ [];
    };
    quota = record { limit_bytes = 20; charged_bytes = 4 };
  };
  pending = [];
}

fresh-IsServed : IsServed upstream (component fresh) fresh.pending
unfolding elem count past_page row_bytes
fresh-IsServed = record {
  layout = layout-IsLayout;
  fits = λ b e. ground arith;
  free_set = record { unique = λ x. ground arith; usable = λ page e. ground arith };
  resident = λ page usable available b touch. ground arith;
  withheld = λ page e. ground arith;
  withdrawn = λ page b usable touch e. ground arith;
}

fresh-IsManaged : IsManaged upstream 0 fresh
unfolding HasDistinctKeys lookup elem
fresh-IsManaged = record {
  served = fresh-IsServed;
  booked = record { distinct = (refl, tt); charge = refl; within = (omega arith, omega arith) };
  sound = λ b held apart. (7, ground arith);
}

abbrev backed : Managed
backed = mapped willing (1 ∷ []) fresh

abbrev served : Managed
served = published upstream (1 ∷ []) backed

answered : (try_map layout.profile willing (1 ∷ []) (store_of fresh.focus)).0 ≡ ok true
unfolding try_map map_absent map_missing acquire try_reserve lookup insert select elem add_sorted
    sorted_set
answered = refl

steps : Changes upstream fresh served
steps = then_ (then_ start (maps (1 ∷ []) willing true answered refl)) (publishes (1 ∷ []) refl)

Changes-served_example :
    ((page b : ℕ)
      → IsUsable (component served).layout.geometry page
      → elem page (component served).allocator.unavailable_pages ≡ false
      → Touches (component served).layout.geometry page b
      → IsMapped b (store_of served.focus))
    × ((page : ℕ)
        → elem page (upstream.get_all_free_pages (component served).allocator) ≡ true
        → IsUsable (component served).layout.geometry page
          × (elem page (component served).allocator.unavailable_pages ≡ false))
Changes-served_example = Changes-served upstream 0 steps upstream-IsUpstream fresh-IsManaged

-- One page is free, and the others are withheld.
abbrev one_free : ElasticPageAllocator
one_free = record {
  free_pages = 1 ∷ [];
  release_pages = [];
  staged_pages = [];
  num_staged_pages = 0;
  unavailable_pages = 3 ∷ 2 ∷ [];
  retiring_pages = [];
}

abbrev one_backed : Bundles
one_backed =
    (0, record { handle = 7; mapped = true }) ∷ (1, record { handle = 8; mapped = true }) ∷ []

free-IsResident :
    (p : ℕ)
    → elem p (upstream.get_all_free_pages one_free) ≡ true
    → IsResident geometry one_backed p
unfolding elem span_start span_end row_bytes
free-IsResident p e b touch =
    let at_one : p ≡ 1 = ground arith in
    let touched : Touches geometry 1 b = subst (λ p. Touches geometry p b) at_one touch in
    ground (arith, touched)

withheld-IsUsable : (p : ℕ) → elem p one_free.unavailable_pages ≡ true → IsUsable geometry p
unfolding elem past_page
withheld-IsUsable p e = ground arith

abbrev two_pages : SglangPagePlan
two_pages = record { page_ids = 1 ∷ 2 ∷ []; missing_bundle_ids = 2 ∷ [] }

planned : plan_pages upstream layout one_backed one_free 2 ≡ some two_pages
unfolding plan_pages missing_bundle_count prefix free_count count select elem sort_pages take
    span_start span_end row_bytes
planned = refl

plan_pages-eq-some_example :
    (length two_pages.page_ids ≡ 2)
    × ((page b : ℕ)
        → elem page two_pages.page_ids ≡ true
        → Touches geometry page b
        → elem b (keys one_backed) || elem b two_pages.missing_bundle_ids ≡ true)
plan_pages-eq-some_example =
    plan_pages-eq-some upstream layout layout-IsLayout one_backed one_free 2 two_pages
      free-IsResident withheld-IsUsable planned
