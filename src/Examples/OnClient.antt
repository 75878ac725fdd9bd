-- ===== src/Examples/OnClient.antt =====
-- A relay in memory that loses the first answer to a range, and takes a number of requests before the
-- drop expires.
use dero_ghost_drop.Base.{
  ℕ, zero, suc, Bool, true, false, Option, none, some, [], ◌∷◌, ◌++◌, Bytes, codes, take,
}
use dero_ghost_drop.Base.Int.{pos}
use dero_ghost_drop.Storage.Types.{Reader}
use dero_ghost_drop.Storage.Wire.{
  Call, create_drop, get_meta, put_all, put_range, get_data, delete_drop, get_health, Response, Net,
}

abbrev good : Response
good = record { status = 200; body = [] }

-- What it holds, whether it loses the next answer, and how many ranges it takes before the expiry.
record World : Type 0 where
  bytes : Bytes
  flaky : Bool
  life : ℕ

answer : Bool → Option Response
answer true = none
answer false = some good

unfoldable served_range : ℕ → Bytes → Bool → Option Response × World
unfolding answer
served_range zero new flaky =
    (some (record { status = 404; body = [] }), record { bytes = []; flaky = false; life = 0 })
served_range (suc n) new flaky = (answer flaky, record { bytes = new; flaky = false; life = n })

unfoldable serve : Call → World → Option Response × World
unfolding served_range
serve (create_drop id size expiry) w = (some good, w)
serve (get_meta id) w = (some good, w)
serve (put_all body) w = (some good, w)
serve (put_range id chunk off last size) w = served_range w.life (take off w.bytes ++ chunk) w.flaky
serve (get_data id off) w = (some good, w)
serve (delete_drop id) w = (some good, w)
serve get_health w = (some good, w)

abbrev net : Net
net = record {
  World = World;
  send = λ token call w. serve call w;
  unmarshal = λ raw. some (record { number = λ k. some (pos 0); text = λ k. none });
  parse_time = λ s. none;
}

is_over : ℕ → Bool
is_over zero = true
is_over (suc n) = false

abbrev id : Bytes
id = codes "a1"

abbrev reader : Reader
reader = record { bytes = 7 ∷ 8 ∷ 9 ∷ []; fails = false }

abbrev start : World
start = record { bytes = []; flaky = true; life = 5 }
