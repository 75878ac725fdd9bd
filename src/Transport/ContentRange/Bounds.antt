-- ===== src/Transport/ContentRange/Bounds.antt =====
-- What a parsed header is known to satisfy.
use dero_ghost_drop.Base.{ℕ, ◌≤◌, ◌<◌, ◌≡◌, some, arith, Bytes}
use dero_ghost_drop.Transport.ContentRange.{ContentRange, parse_content_range, parse_range}

pub record IsWithin (r : ContentRange) : Type 0 where
  pub ordered : r.start ≤ r.end
  pub inside : r.end < r.total

-- Whatever the header, a Content-Range that is accepted has first ≤ last < total.
pub parse_content_range-IsWithin :
    (v : Bytes) {r : ContentRange} → parse_content_range v ≡ some r → IsWithin r
unfolding parse_content_range
parse_content_range-IsWithin v h = ground arith

-- Whatever the header, a Range that is accepted lies inside the stored size, which it reports.
pub parse_range-IsWithin :
    (v : Bytes) (size : ℕ) {r : ContentRange}
    → parse_range v size ≡ some r
    → IsWithin r × (r.total ≡ size)
unfolding parse_range
parse_range-IsWithin v size h = ground arith
