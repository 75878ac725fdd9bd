-- ===== src/Examples/OnTransport.antt =====
-- Headers, delays and retries.
use dero_ghost_drop.Base.{◌≡◌, some, arith}
use dero_ghost_drop.Base.Int.{pos}
use dero_ghost_drop.Transport.ContentRange.{ContentRange, format_content_range, parse_content_range}
use dero_ghost_drop.Transport.ContentRange.RoundTrip.{parse-format_content_range}

parse-format_content_range_example :
    parse_content_range (format_content_range (pos 10) (pos 19) (pos 100))
    ≡ some (record { start = 10; end = 19; total = 100 })
parse-format_content_range_example =
    parse-format_content_range 10 19 100 (omega arith) (omega arith) (omega arith)

abbrev part : ContentRange
part = record { start = 10; end = 19; total = 100 }
