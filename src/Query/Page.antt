-- ===== src/Query/Page.antt =====
-- Paging (pkg/query/query.go).
use db2rest_bridge.Base.{ℕ, String, ◌<>◌, show_nat}
use db2rest_bridge.Base.Int.{ℤ, pos, show_int}

-- The offset is a `uint64`, the size an `int`.
pub record Page : Type 0 where
  pub offset : ℕ
  pub size : ℤ

-- The LIMIT clause: "offset, size".
unfoldable pub page_string : Page → String
unfolding show_nat show_int
page_string p = show_nat p.offset <> ", " <> show_int p.size

abbrev pub default_page_offset : ℤ
default_page_offset = pos 0

abbrev pub default_page_size : ℤ
default_page_size = pos 20

abbrev pub default_paging : Page
default_paging = record { offset = 0; size = default_page_size }
