-- ===== src/Storage/Geometry/Checked.antt =====
-- What the checks of a new layout establish.
use cross_pool.Prelude.{
  ℕ, ◌+◌, ◌*◌, ◌≤◌, ◌<◌, ◌≡◌, false, List, [], ◌∷◌, any, arith, refl, ◌==◌, nat_eq, subst,
}
use cross_pool.Prelude.Result.{ok, ◌>>=◌, >>=-eq-ok, ok-injective}
use native.Mathlib.Nat.{mul-div_left, mul-pos, mul-le-mul_right}
use cross_pool.Quota.Profile.{PoolProfile, align_up, make_pool}
use cross_pool.Storage.Division.{up_div, up_div-le}
use cross_pool.Storage.Geometry.{
  Geometry, KvVmmLayout, rows, prod, row_shape, row_bytes, floor_rows, bundles_for, check_geometry,
  derive_profile, make_layout, span_end, past_row, past_page,
}
use cross_pool.Storage.Geometry.Span.{IsSized, past_row-le}

-- The bundles that hold the first `count` rows.
abbrev cover : Geometry → ℕ → ℕ
cover g count = up_div (count * row_bytes g) g.mapping_granularity_bytes

-- A layout that passed its checks, over a storage type that takes room.
pub record IsLayout (l : KvVmmLayout) : Type 0 where
  pub sized : IsSized l.geometry
  pub capacity : l.profile.bundle_capacity ≡ cover l.geometry (rows l.geometry)
  pub floor : l.profile.floor_bundles ≡ cover l.geometry (floor_rows l.geometry)
  pub floor_le : l.profile.floor_bundles ≤ l.profile.bundle_capacity
  pub bundle_pos : 0 < l.profile.bundle_bytes

any_zero : (ns : List ℕ) → any (λ n. n == 0) ns ≡ false → 0 < prod ns
any_zero [] h = omega arith
any_zero (n ∷ ns) h = mul-pos (ground arith) (any_zero ns (ground arith))

shape_pos : (ns : List ℕ) → any (λ n. n == 0) ns ≡ false → 0 < prod (row_shape ns)
shape_pos [] h = omega arith
shape_pos (n ∷ ns) h = any_zero ns (ground arith)

bundles_for-eq-ok :
    (g : Geometry) (count n : ℕ)
    → 0 < g.mapping_granularity_bytes
    → bundles_for g count ≡ ok n
    → n ≡ cover g count
unfolding align_up
bundles_for-eq-ok g count n pos e =
    ground (arith, mul-div_left (cover g count) {n = g.mapping_granularity_bytes} pos)

make_pool-eq-ok :
    (b c f : ℕ) (p : PoolProfile)
    → make_pool b c f ≡ ok p
    → (p ≡ record { bundle_bytes = b; bundle_capacity = c; floor_bundles = f }) × (f ≤ c) × (0 < b)
unfolding make_pool
make_pool-eq-ok b c f p e = ground arith

check_geometry-IsSized : (g : Geometry) → 0 < g.itemsize → check_geometry g ≡ ok tt → IsSized g
unfolding row_bytes
check_geometry-IsSized g item e = record {
  page_pos = ground arith;
  row_pos = ground arith;
  bytes_pos = mul-pos (shape_pos g.shape (ground arith)) item;
  granularity_pos = ground arith;
  usable = ground arith;
}

derive_profile-eq-ok :
    (g : Geometry) (p : PoolProfile)
    → 0 < g.mapping_granularity_bytes
    → derive_profile g ≡ ok p
    → (p.bundle_capacity ≡ cover g (rows g))
      × (p.floor_bundles ≡ cover g (floor_rows g))
      × (p.floor_bundles ≤ p.bundle_capacity)
      × (0 < p.bundle_bytes)
derive_profile-eq-ok g p pos e =
    let (c, ec, e1) =
      >>=-eq-ok (bundles_for g (rows g))
        (λ c. bundles_for g (floor_rows g) >>= λ f.
          make_pool (g.mapping_granularity_bytes * g.layer_count * g.buffers_per_layer) c f)
        e in
    let (f, ef, e2) =
      >>=-eq-ok (bundles_for g (floor_rows g))
        (λ f. make_pool (g.mapping_granularity_bytes * g.layer_count * g.buffers_per_layer) c f)
        e1 in
    let (same, le, bytes) =
      make_pool-eq-ok (g.mapping_granularity_bytes * g.layer_count * g.buffers_per_layer) c f p
        e2 in
    let capacity = bundles_for-eq-ok g (rows g) c pos ec in
    let floor = bundles_for-eq-ok g (floor_rows g) f pos ef in
    ground (arith, same, le, bytes, capacity, floor)

-- A layout that passes the checks, over a storage type that takes room, has a floor within its
-- capacity, and both are the bundles that hold its first rows: those of the dummy page and all.
pub make_layout-eq-ok :
    (g : Geometry) (l : KvVmmLayout)
    → 0 < g.itemsize
    → make_layout g ≡ ok l
    → IsLayout l × (l.geometry ≡ g)
unfolding make_layout
make_layout-eq-ok g l item e =
    let (_, checked, e1) =
      >>=-eq-ok (check_geometry g)
        (λ _. derive_profile g >>= λ p. ok (record { geometry = g; profile = p })) e in
    let (p, derived, e2) =
      >>=-eq-ok (derive_profile g) (λ p. ok (record { geometry = g; profile = p })) e1 in
    let sized = check_geometry-IsSized g item checked in
    let (capacity, floor, floor_le, bundle_pos) =
      derive_profile-eq-ok g p sized.granularity_pos derived in
    subst (λ x. IsLayout x × (x.geometry ≡ g)) (ok-injective e2)
      (
        record {
          sized = sized;
          capacity = capacity;
          floor = floor;
          floor_le = floor_le;
          bundle_pos = bundle_pos;
        },
        refl,
      )

up_rows : (g : Geometry) → past_row g 0 ≤ floor_rows g
up_rows g =
    let one : (0 + 1) * g.token_page_size ≡ g.token_page_size = omega arith in rw one (omega arith)

-- In a layout that has passed its checks, a page before the end of the usable ones has its bundles
-- within the capacity, and the dummy page 0 within the floor.
pub span_end-le :
    (l : KvVmmLayout) (page : ℕ)
    → IsLayout l
    → page < past_page l.geometry
    → (span_end l.geometry page ≤ l.profile.bundle_capacity)
      × (span_end l.geometry 0 ≤ l.profile.floor_bundles)
unfolding span_end
span_end-le l page h usable = (
  rw h.capacity (up_div_mono (mul-le-mul_right (row_bytes g) (past_row-le g h.sized page usable))),
  rw h.floor (up_div_mono (mul-le-mul_right (row_bytes g) (up_rows g))),
)
  where
    g : Geometry
    g = l.geometry

    up_div_mono :
        {a b : ℕ}
        → a ≤ b
        → up_div a g.mapping_granularity_bytes ≤ up_div b g.mapping_granularity_bytes
    up_div_mono {a = a} {b = b} le =
        (up_div-le (up_div b g.mapping_granularity_bytes) a g.mapping_granularity_bytes
            h.sized.granularity_pos).1
          (omega (
            arith,
            le,
            (up_div-le (up_div b g.mapping_granularity_bytes) b g.mapping_granularity_bytes
                  h.sized.granularity_pos).0
                (omega arith),
          ))
