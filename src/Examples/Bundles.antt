-- ===== src/Examples/Bundles.antt =====
-- Runs of the storage of one component: a layout of four bundles with one page each, the first of which
-- is the dummy page.
use mathlib.Core.Bool.{true≢false}
use cross_pool.Prelude.{
  ℕ, ◌*◌, ◌-◌, ◌∙◌, sym, ap, inl, inr, Bool, Bool-cases, ◌+◌, ◌≤◌, ◌<◌, ◌≡◌, ◌↔◌, refl, true, false,
  Option, none, some, [], ◌∷◌, is_some, arith, ◌==◌, nat_eq, if◌then◌else◌,
}
use cross_pool.Prelude.Result.{ok, out_of_memory}
use cross_pool.Prelude.Dict.{lookup, insert, delete, keys}
use cross_pool.Prelude.Keys.{HasDistinctKeys}
use cross_pool.Prelude.Sets.{elem, select, count, add_sorted, sorted_set}
use cross_pool.Quota.Profile.{bytes_for, make_pool, align_up}
use cross_pool.Quota.Ledger.{try_reserve, release}
use cross_pool.Storage.Geometry.{Geometry, KvVmmLayout, make_layout, row_bytes, span_end, past_page}
use cross_pool.Storage.Geometry.Span.{Touches, Holds, bundle_spans_iff}
use cross_pool.Storage.Geometry.Checked.{IsLayout, make_layout-eq-ok, span_end-le}
use cross_pool.Storage.Backing.{
  Driver, Store, new_backing, close, acquire, discard, discard_all, close_bundle, map_missing,
  map_absent, try_map, unmap,
}
use cross_pool.Storage.Backing.Books.{IsBooked}
use cross_pool.Storage.Backing.Uses.{maps, unmaps, closes, calls, calls-IsBooked}
use cross_pool.Storage.Backing.Opened.{new_backing-IsBooked}
use cross_pool.Storage.Backing.Closed.{close-eq-ok}
use cross_pool.Storage.Backing.Rollback.{try_map-eq-false}
use cross_pool.Storage.Backing.Frame.{Keeps, unmap-floor}
use cross_pool.Storage.Backing.Outcome.{IsMapped, try_map-eq-true}
use cross_pool.Storage.Pages.{Bundles, missing_bundle_count, empty_bundles}
use cross_pool.Storage.Pages.Cover.{IsResident, missing_bundle_count_iff}
use cross_pool.Storage.Pages.Empty.{IsFreeSet, IsUnowned, empty_bundles_iff}
use cross_pool.Storage.Reference.{
  search_pages, within_ceiling, reference_bytes, IsFitting, IsLargest, search_pages-enough,
  search_pages-IsLargest,
}

abbrev pub geometry : Geometry
geometry = record {
  device_type = "cuda";
  device_index = some 0;
  itemsize = 1;
  shape = 8 ∷ 2 ∷ [];
  tokens_per_row = 1;
  token_page_size = 2;
  layer_count = 1;
  buffers_per_layer = 1;
  mapping_granularity_bytes = 4;
}

abbrev pub layout : KvVmmLayout
layout = record {
  geometry = geometry;
  profile = record { bundle_bytes = 4; bundle_capacity = 4; floor_bundles = 1 };
}

made : make_layout geometry ≡ ok layout
unfolding make_layout row_bytes make_pool align_up
made = refl

make_layout-eq-ok_example : IsLayout layout × (layout.geometry ≡ geometry)
make_layout-eq-ok_example = make_layout-eq-ok geometry layout (omega arith) made

pub layout-IsLayout : IsLayout layout
layout-IsLayout = (make_layout-eq-ok geometry layout (omega arith) made).0

bundle_spans_iff_example : Touches geometry 2 2 ↔ Holds geometry 2 2
bundle_spans_iff_example = bundle_spans_iff geometry layout-IsLayout.sized 2 2

two_free : IsFreeSet geometry (2 ∷ 3 ∷ [])
unfolding elem count past_page row_bytes
two_free = record { unique = λ x. ground arith; usable = λ page e. ground arith }

abbrev two_backed : Bundles
two_backed =
    (0, record { handle = 7; mapped = true }) ∷ (2, record { handle = 9; mapped = true }) ∷ []

empty_bundles_iff_example :
    (elem 2 (empty_bundles layout two_backed (2 ∷ 3 ∷ [])) ≡ true)
    ↔ ((elem 2 (keys two_backed) ≡ true) × (1 ≤ 2) × IsUnowned geometry (2 ∷ 3 ∷ []) 2)
empty_bundles_iff_example =
    empty_bundles_iff layout layout-IsLayout two_backed (2 ∷ 3 ∷ []) 2 two_free (omega arith)

-- A driver that grants everything, and one that runs out of memory at bundle 2.
abbrev pub willing : Driver
willing = record {
  create = λ _. none;
  mapping = λ _. none;
  access = λ _. none;
  unmapping = λ _. none;
  releasing = λ _. none;
  handle = λ id. id + 7;
}

abbrev pub exhausted : Driver
exhausted = record willing { create = λ id. if id == 2 then some out_of_memory else none }

-- The floor is backed, and another component is charged with 3 bytes.
abbrev store : Store
store = record {
  base = 64;
  bundles = (0, record { handle = 7; mapped = true }) ∷ [];
  quota = record { limit_bytes = 20; charged_bytes = 7 };
}

store-IsBooked : IsBooked 4 3 store
unfolding HasDistinctKeys lookup
store-IsBooked = record {
  distinct = (refl, tt);
  charge = refl;
  within = (omega arith, omega arith);
}

calls-IsBooked_example : IsBooked 4 3 (
    calls layout.profile
      (maps (2 ∷ 1 ∷ []) exhausted
        ∷ maps (3 ∷ 1 ∷ []) willing
        ∷ unmaps (3 ∷ []) willing
        ∷ closes willing none
        ∷ [])
      store)
calls-IsBooked_example =
    calls-IsBooked layout.profile 3
      (maps (2 ∷ 1 ∷ []) exhausted
        ∷ maps (3 ∷ 1 ∷ []) willing
        ∷ unmaps (3 ∷ []) willing
        ∷ closes willing none
        ∷ [])
      store store-IsBooked

rolled_back : try_map layout.profile exhausted (2 ∷ 1 ∷ []) store ≡ (ok false, store)
unfolding try_map map_absent map_missing acquire discard_all discard close_bundle try_reserve
    release lookup insert delete select elem add_sorted sorted_set
rolled_back = refl

try_map-eq-false_example : store ≡ store
try_map-eq-false_example =
    try_map-eq-false layout.profile exhausted (2 ∷ 1 ∷ []) 3 store store store-IsBooked rolled_back

abbrev grown : Store
grown = record {
  base = 64;
  bundles =
      (0, record { handle = 7; mapped = true })
      ∷ (1, record { handle = 8; mapped = true })
      ∷ (2, record { handle = 9; mapped = true })
      ∷ [];
  quota = record { limit_bytes = 20; charged_bytes = 15 };
}

granted : try_map layout.profile willing (2 ∷ 1 ∷ []) store ≡ (ok true, grown)
unfolding try_map map_absent map_missing acquire discard_all discard close_bundle try_reserve
    release lookup insert delete select elem add_sorted sorted_set
granted = refl

floor-IsMapped : (held : ℕ) → is_some (lookup held store.bundles) ≡ true → IsMapped held store
unfolding lookup
floor-IsMapped held e = ground arith

asked : elem 2 (2 ∷ 1 ∷ []) ≡ true
unfolding elem
asked = refl

try_map-eq-true_example : IsMapped 2 grown
try_map-eq-true_example =
    try_map-eq-true layout.profile willing (2 ∷ 1 ∷ []) store grown 2 floor-IsMapped granted asked

unmap-floor_example : Keeps 0 grown (unmap layout.profile willing (2 ∷ 0 ∷ []) grown).1
unmap-floor_example = unmap-floor layout.profile willing (2 ∷ 0 ∷ []) grown 0 (omega arith)

-- The program's test of a candidate of two tokens to a page, with a ceiling of 12 bytes.
abbrev fits_ceiling : ℕ → Bool
fits_ceiling pages = within_ceiling 12 (reference_bytes (layout ∷ []) (some (pages * 2) ∷ []))

fits_all : (fits_ceiling 1 ≡ true) × (fits_ceiling 2 ≡ true) × (fits_ceiling 3 ≡ false)
unfolding reference_bytes row_bytes align_up bytes_for
fits_all = (refl, refl, refl)

smaller_fits : (m n : ℕ) → 1 ≤ m → m ≤ n → n ≤ 3 → fits_ceiling n ≡ true → fits_ceiling m ≡ true
smaller_fits m n from le top e = elim (Bool-cases (m == 1)) [
  | inl one ↦ rw ((nat_eq.beq_iff m 1).0 one) fits_all.0
  | inr more ↦ elim (Bool-cases (m == 2)) [
    | inl two ↦ rw ((nat_eq.beq_iff m 2).0 two) fits_all.1
    | inr three ↦
        let at_three : n ≡ 3 = ground arith in
        absurd (true≢false (sym e ∙ ap fits_ceiling at_three ∙ fits_all.2))
  ]
]

search_pages-enough_example :
    (found : Option ℕ) × (search_pages fits_ceiling (3 + 2 - 1) 1 3 none ≡ some found)
    × IsFitting fits_ceiling 1 3 found
search_pages-enough_example = search_pages-enough fits_ceiling 1 3 (omega arith) (omega arith)

search_pages-IsLargest_example :
    (found : Option ℕ) × (search_pages fits_ceiling (3 + 2 - 1) 1 3 none ≡ some found)
    × IsLargest fits_ceiling 1 3 found
search_pages-IsLargest_example =
    search_pages-IsLargest fits_ceiling 1 3 (omega arith) (omega arith) smaller_fits

missing_bundle_count_iff_example :
    (missing_bundle_count geometry two_backed 2 ≡ 0) ↔ IsResident geometry two_backed 2
missing_bundle_count_iff_example =
    missing_bundle_count_iff geometry layout-IsLayout.sized two_backed 2

two_usable : 2 < past_page geometry
unfolding past_page
two_usable = omega arith

span_end-le_example : (span_end geometry 2 ≤ 4) × (span_end geometry 0 ≤ 1)
span_end-le_example = span_end-le layout 2 layout-IsLayout two_usable

new_backing-IsBooked_example :
    IsBooked 4 3
      (new_backing layout.profile
        (record willing { create = λ id. some out_of_memory })
        none
        64
        (record { limit_bytes = 20; charged_bytes = 3 })).1
new_backing-IsBooked_example =
    new_backing-IsBooked layout.profile (record willing { create = λ id. some out_of_memory }) none
      64 (record { limit_bytes = 20; charged_bytes = 3 }) (omega arith, omega arith)

grown-IsBooked : IsBooked 4 3 grown
unfolding HasDistinctKeys lookup
grown-IsBooked = record {
  distinct = (refl, (refl, (refl, tt)));
  charge = refl;
  within = (omega arith, omega arith);
}

abbrev emptied : Store
emptied = record { base = 0; bundles = []; quota = record { limit_bytes = 20; charged_bytes = 3 } }

closed : close layout.profile willing none grown ≡ (ok tt, emptied)
unfolding close discard_all discard close_bundle release lookup insert delete bytes_for
closed = refl

close-eq-ok_example :
    (emptied.bundles ≡ []) × (emptied.base ≡ 0) × (emptied.quota.charged_bytes ≡ 3)
close-eq-ok_example =
    close-eq-ok layout.profile willing none 3 grown emptied grown-IsBooked refl closed
