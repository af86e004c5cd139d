-- ===== src/Storage/Geometry/Span.antt =====
-- What the intervals of a layout are: the bundles that hold a page, and the pages that touch a bundle.
use cross_pool.Prelude.{ℕ, ◌+◌, ◌*◌, ◌/◌, ◌≤◌, ◌<◌, ◌≡◌, ◌↔◌, min, sym, arith}
use cross_pool.Storage.Division.{
  up_div, lt-up_div, up_div-le, div-lt, le-div, div-le, blocks_iff, div_unique,
}
use native.Mathlib.Nat.{add-mul, mul-lt-mul_of_pos_right}
use cross_pool.Storage.Geometry.{
  Geometry, rows, row_bytes, token_capacity, first_row, past_row, span_start, span_end, past_page,
  first_page, end_page,
}

-- The sizes that a checked layout has.
pub record IsSized (g : Geometry) : Type 0 where
  pub page_pos : 0 < g.token_page_size
  pub row_pos : 0 < g.tokens_per_row
  pub bytes_pos : 0 < row_bytes g
  pub granularity_pos : 0 < g.mapping_granularity_bytes
  pub usable : g.token_page_size ≤ token_capacity g

-- A page is stored in a bundle when the bundle is in its span.
abbrev pub Touches : Geometry → ℕ → ℕ → Type 0
Touches g page bundle = (span_start g page ≤ bundle) × (bundle < span_end g page)

-- The pages that the allocator may hand out.
abbrev pub IsUsable : Geometry → ℕ → Type 0
IsUsable g page = (1 ≤ page) × (page < past_page g)

-- The bundle holds a byte of a row that holds a token of the page.
abbrev pub Holds : Geometry → ℕ → ℕ → Type 0
Holds g page bundle =
    (byte token : ℕ) × (byte / g.mapping_granularity_bytes ≡ bundle)
    × (byte / row_bytes g ≡ token / g.tokens_per_row)
    × (token / g.token_page_size ≡ page)

module _ (g : Geometry) (s : IsSized g) where
  first_row-lt-past_row : (page : ℕ) → first_row g page < past_row g page
  first_row-lt-past_row page =
      (lt-up_div (first_row g page) ((page + 1) * g.token_page_size) g.tokens_per_row s.row_pos).1
        (omega (arith, first, add-mul page 1 g.token_page_size, s.page_pos))
    where
      first : first_row g page * g.tokens_per_row ≤ page * g.token_page_size
      first =
          (le-div (first_row g page) (page * g.token_page_size) g.tokens_per_row s.row_pos).0
            (omega arith)

  -- The rows of a page are those of its tokens.
  rows_iff :
      (page row : ℕ)
      → ((first_row g page ≤ row) × (row < past_row g page)) ↔ (
          (token : ℕ) × (page * g.token_page_size ≤ token)
          × (token < (page + 1) * g.token_page_size)
          × (token / g.tokens_per_row ≡ row))
  rows_iff page row =
      blocks_iff (page * g.token_page_size) ((page + 1) * g.token_page_size) row g.tokens_per_row
        s.row_pos (omega (arith, add-mul page 1 g.token_page_size, s.page_pos))

  -- The bundles of a page are those of the bytes of its rows.
  bytes_iff :
      (page bundle : ℕ)
      → Touches g page bundle ↔ (
          (byte : ℕ) × (first_row g page * row_bytes g ≤ byte)
          × (byte < past_row g page * row_bytes g)
          × (byte / g.mapping_granularity_bytes ≡ bundle))
  unfolding span_start span_end
  bytes_iff page bundle =
      blocks_iff (first_row g page * row_bytes g) (past_row g page * row_bytes g) bundle
        g.mapping_granularity_bytes s.granularity_pos
        (mul-lt-mul_of_pos_right (first_row-lt-past_row page) s.bytes_pos)

  -- For a geometry of positive sizes with a usable page, the interval that the layout computes for a
  -- page has exactly the bundles that hold a byte of a row that holds a token of the page.
  pub bundle_spans_iff : (page bundle : ℕ) → Touches g page bundle ↔ Holds g page bundle
  bundle_spans_iff page bundle = (there, back)
    where
      there : Touches g page bundle → Holds g page bundle
      there h =
          let (byte, low, high, block) = (bytes_iff page bundle).0 h in
          let (token, first, past, row) = (rows_iff page (byte / row_bytes g)).0 (
            (le-div (first_row g page) byte (row_bytes g) s.bytes_pos).1 low,
            (div-lt byte (past_row g page) (row_bytes g) s.bytes_pos).1 high,
          ) in
          (
            byte,
            token,
            block,
            sym row,
            div_unique token page g.token_page_size s.page_pos first past,
          )

      back : Holds g page bundle → Touches g page bundle
      back (byte, token, block, row, of_page) =
          let (first, past) = (rows_iff page (byte / row_bytes g)).1 (
            token,
            (le-div page token g.token_page_size s.page_pos).0 (omega (arith, of_page)),
            (div-le token page g.token_page_size s.page_pos).0 (omega (arith, of_page)),
            sym row,
          ) in
          (bytes_iff page bundle).1 (
            byte,
            (le-div (first_row g page) byte (row_bytes g) s.bytes_pos).0 first,
            (div-lt byte (past_row g page) (row_bytes g) s.bytes_pos).0 past,
            block,
          )

  pub span_start-lt-span_end : (page : ℕ) → span_start g page < span_end g page
  unfolding span_start span_end
  span_start-lt-span_end page =
      (lt-up_div (span_start g page) (past_row g page * row_bytes g) g.mapping_granularity_bytes
          s.granularity_pos).1
        (omega (
          arith,
          (le-div (span_start g page) (first_row g page * row_bytes g) g.mapping_granularity_bytes
                s.granularity_pos).0
              (omega arith),
          mul-lt-mul_of_pos_right (first_row-lt-past_row page) s.bytes_pos,
        ))

  -- A usable page ends within the rows.
  pub past_row-le : (page : ℕ) → page < past_page g → past_row g page ≤ rows g
  unfolding past_page
  past_row-le page h =
      (up_div-le (rows g) ((page + 1) * g.token_page_size) g.tokens_per_row s.row_pos).1 (
        omega (
          arith,
          (le-div page (token_capacity g) g.token_page_size s.page_pos).0 (omega arith),
          add-mul page 1 g.token_page_size,
          s.usable,
          s.page_pos,
        ))

  -- The rows of a bundle start before the end of a page when the page ends after the bundle's start.
  ends_iff :
      (page bundle : ℕ)
      → (bundle * g.mapping_granularity_bytes / row_bytes g * g.tokens_per_row / g.token_page_size
          ≤ page)
        ↔ (bundle < span_end g page)
  unfolding span_end
  ends_iff page bundle = ground (
    arith,
    div-le (start_row * g.tokens_per_row) page g.token_page_size s.page_pos,
    lt-up_div start_row ((page + 1) * g.token_page_size) g.tokens_per_row s.row_pos,
    div-lt (bundle * g.mapping_granularity_bytes) (past_row g page) (row_bytes g) s.bytes_pos,
    lt-up_div bundle (past_row g page * row_bytes g) g.mapping_granularity_bytes s.granularity_pos,
  )
    where
      start_row : ℕ
      start_row = bundle * g.mapping_granularity_bytes / row_bytes g

  -- The rows of a bundle end after the start of a page when the page starts before the bundle's end.
  starts_iff :
      (page bundle : ℕ)
      → page < past_page g
      → (page
          < up_div
              (min (up_div ((bundle + 1) * g.mapping_granularity_bytes) (row_bytes g)) (rows g)
                * g.tokens_per_row)
              g.token_page_size)
        ↔ (span_start g page ≤ bundle)
  unfolding span_start
  starts_iff page bundle usable = ground (
    arith,
    lt-up_div page (end_row * g.tokens_per_row) g.token_page_size s.page_pos,
    div-lt (page * g.token_page_size) end_row g.tokens_per_row s.row_pos,
    lt-up_div (first_row g page) ((bundle + 1) * g.mapping_granularity_bytes) (row_bytes g)
        s.bytes_pos,
    div-le (first_row g page * row_bytes g) bundle g.mapping_granularity_bytes s.granularity_pos,
    first_row-lt-past_row page,
    past_row-le page usable,
  )
    where
      end_row : ℕ
      end_row = min (up_div ((bundle + 1) * g.mapping_granularity_bytes) (row_bytes g)) (rows g)

  -- The interval of pages that the layout computes for a bundle has exactly the usable pages that touch
  -- the bundle.
  pub pages_iff :
      (page bundle : ℕ)
      → IsUsable g page
      → ((first_page g bundle ≤ page) × (page < end_page g bundle)) ↔ Touches g page bundle
  unfolding first_page end_page
  pages_iff page bundle (pos, usable) =
      let (a, b) = ends_iff page bundle in
      let (c, d) = starts_iff page bundle usable in
      (
        λ (low, high). (c (omega arith), a (omega arith)),
        λ (low, high). (let x = b high in omega arith, let x = d low in omega arith),
      )
