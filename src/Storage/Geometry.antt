-- ===== src/Storage/Geometry.antt =====
-- `KvVmmLayout` and the intervals of `KvVmmBacking.bundle_spans` and `KvVmmBacking.empty_bundles` in
-- src/xpool/integrations/sglang/ecs/vmm.py. A tensor of page numbers is handled one number at a time.
pub mod Span
pub mod Checked
use cross_pool.Prelude.{
  ℕ, ◌+◌, ◌-◌, ◌*◌, ◌/◌, ◌≤◌, ◌<◌, ◌≡◌, ◌↔◌, Bool, not, ◌&&◌, ◌||◌, String, Option, is_some, List,
  [], ◌∷◌, ◌++◌, any, min, max, arith, ltb, ◌==◌, nat_eq, string_eq, ltb→lt,
}
use cross_pool.Prelude.Result.{Result, ok, value_error, ◌>>=◌, ◌>>◌, require}
use cross_pool.Quota.Profile.{PoolProfile, ensure_uint64, make_pool, align_up}
use cross_pool.Storage.Division.{up_div}

-- What the constructor of a layout is given.
pub record Geometry : Type 0 where
  pub device_type : String
  pub device_index : Option ℕ
  pub itemsize : ℕ
  pub shape : List ℕ
  pub tokens_per_row : ℕ
  pub token_page_size : ℕ
  pub layer_count : ℕ
  pub buffers_per_layer : ℕ
  pub mapping_granularity_bytes : ℕ

pub record KvVmmLayout : Type 0 where
  pub geometry : Geometry
  pub profile : PoolProfile

-- `shape[0]`
abbrev rows_of : List ℕ → ℕ
rows_of [] = 0
rows_of (rows ∷ rest) = rows

-- `shape[1:]`
abbrev row_shape : List ℕ → List ℕ
row_shape [] = []
row_shape (rows ∷ rest) = rest

-- `math.prod`
abbrev prod : List ℕ → ℕ
prod [] = 1
prod (n ∷ ns) = n * prod ns

abbrev pub rows : Geometry → ℕ
rows g = rows_of g.shape

unfoldable pub row_bytes : Geometry → ℕ
row_bytes g = prod (row_shape g.shape) * g.itemsize

abbrev pub token_capacity : Geometry → ℕ
token_capacity g = rows g * g.tokens_per_row - g.token_page_size

abbrev floor_rows : Geometry → ℕ
floor_rows g = up_div g.token_page_size g.tokens_per_row

abbrev sizes : Geometry → List ℕ
sizes g =
    g.tokens_per_row ∷ g.token_page_size ∷ g.layer_count ∷ g.buffers_per_layer
    ∷ g.mapping_granularity_bytes ∷ []

-- The number of bundles that hold the first rows.
abbrev bundles_for : Geometry → ℕ → Result ℕ
bundles_for g count = do
  aligned ← align_up (count * row_bytes g) g.mapping_granularity_bytes
  ok (aligned / g.mapping_granularity_bytes)

-- The checks of a new layout.
abbrev check_geometry : Geometry → Result (Unit {0})
check_geometry g = do
  ensure_uint64 (g.shape ++ sizes g)
  require (g.device_type == "cuda" && is_some g.device_index) value_error
  require (not (ltb (rows_of g.shape) 1 || any (λ n. n == 0) g.shape)) value_error
  require (not (any (λ n. n == 0) (sizes g))) value_error
  require (not (ltb (token_capacity g) g.token_page_size)) value_error

-- The profile that a layout derives.
abbrev derive_profile : Geometry → Result PoolProfile
derive_profile g = do
  bundle_capacity ← bundles_for g (rows g)
  floor_bundles ← bundles_for g (floor_rows g)
  make_pool (g.mapping_granularity_bytes * g.layer_count * g.buffers_per_layer) bundle_capacity
      floor_bundles

unfoldable pub make_layout : Geometry → Result KvVmmLayout
unfolding row_bytes make_pool align_up
make_layout g = do
  check_geometry g
  profile ← derive_profile g
  ok (record { geometry = g; profile = profile })

-- The rows of a page, and the bundles that it touches: from `span_start` to before `span_end`.
abbrev pub first_row : Geometry → ℕ → ℕ
first_row g page = page * g.token_page_size / g.tokens_per_row

abbrev pub past_row : Geometry → ℕ → ℕ
past_row g page = up_div ((page + 1) * g.token_page_size) g.tokens_per_row

unfoldable pub span_start : Geometry → ℕ → ℕ
span_start g page = first_row g page * row_bytes g / g.mapping_granularity_bytes

unfoldable pub span_end : Geometry → ℕ → ℕ
span_end g page = up_div (past_row g page * row_bytes g) g.mapping_granularity_bytes

-- `clamp(min=1, max=top)`
abbrev clamp : ℕ → ℕ → ℕ
clamp top n = min (max n 1) top

-- The end of the usable pages, which follow the dummy page 0.
unfoldable pub past_page : Geometry → ℕ
past_page g = token_capacity g / g.token_page_size + 1

-- The rows of a bundle, and the usable pages that touch it: from `first_page` to before `end_page`.
abbrev bundle_first_row : Geometry → ℕ → ℕ
bundle_first_row g bundle = bundle * g.mapping_granularity_bytes / row_bytes g

abbrev bundle_past_row : Geometry → ℕ → ℕ
bundle_past_row g bundle =
    min (up_div ((bundle + 1) * g.mapping_granularity_bytes) (row_bytes g)) (rows g)

unfoldable pub first_page : Geometry → ℕ → ℕ
unfolding past_page
first_page g bundle =
    clamp (past_page g) (bundle_first_row g bundle * g.tokens_per_row / g.token_page_size)

unfoldable pub end_page : Geometry → ℕ → ℕ
unfolding past_page
end_page g bundle =
    clamp (past_page g) (up_div (bundle_past_row g bundle * g.tokens_per_row) g.token_page_size)
