-- ===== src/Pagination/Tests.antt =====
-- The theorems on the offset pagination, at concrete requests.
use mosona_manager.Decimal.{print}
use mosona_manager.Pagination.{default_page, default_page_size, parse_offset, parse_offset-print}
use mosona_manager.Prelude.{[], arith, some, ◌≡◌}

parse_offset-print_example :
    (parse_offset (print 3) (print 50) ≡ some (3, 50))
    × (parse_offset [] (print 50) ≡ some (default_page, 50))
    × (parse_offset (print 3) [] ≡ some (3, default_page_size))
parse_offset-print_example =
    parse_offset-print 3 50 (omega arith) (omega arith) (omega arith) (omega arith)
