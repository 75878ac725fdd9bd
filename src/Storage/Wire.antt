-- ===== src/Storage/Wire.antt =====
-- internal/storage/relay.go: the requests and answers of the relay's HTTP API. What is at the other
-- end, the network and net/http included, is the parameter `Net`.
use dero_ghost_drop.Base.{
  ℕ, Bool, true, false, ◌||◌, Option, none, some, List, [], ◌∷◌, Bytes, codes, ◌==◌, if◌then◌else◌,
}
use dero_ghost_drop.Base.Int.{ℤ, pos, negsuc}
use dero_ghost_drop.Storage.Types.{Error, quota, not_found, expired, io_error, Result, ok, err}

-- A request: method and path, with what the headers and the body say.
pub data Call : Type 0 where
  create_drop : Bytes → ℕ → Option ℕ → Call
  get_meta : Bytes → Call
  put_all : Bytes → Call
  put_range : Bytes → Bytes → ℕ → ℕ → ℕ → Call
  get_data : Bytes → ℕ → Call
  delete_drop : Bytes → Call
  get_health : Call

pub record Response : Type 0 where
  pub status : ℕ
  pub body : Bytes

-- The fields of a JSON object, and the times in them.
pub record Fields : Type 0 where
  pub number : Bytes → Option ℤ
  pub text : Bytes → Option Bytes

-- `send` takes the token; it has no response where the request or its answer is lost.
pub record Net : Type 1 where
  pub World : Type 0
  pub send : Bytes → Call → World → Option Response × World
  pub unmarshal : Bytes → Option Fields
  pub parse_time : Bytes → Option ℕ

-- statusErr
unfoldable pub status_err : ℕ → Error
status_err status =
    if status == 404
    then not_found
    else if status == 410
    then expired
    else if status == 507 || status == 403
    then quota
    else io_error

pub record RelayMeta : Type 0 where
  pub size : ℤ
  pub expiry : Option ℕ

-- num of parseMeta
unfoldable pub num : Fields → List Bytes → ℤ
num f [] = negsuc 0
num f (k ∷ ks) = elim (f.number k) [ none ↦ num f ks | some n ↦ n ]

-- str of parseMeta
unfoldable pub str : Fields → List Bytes → Bytes
str f [] = []
str f (k ∷ ks) = elim (f.text k) [ none ↦ str f ks | some s ↦ s ]

unfoldable pub is_negative : ℤ → Bool
is_negative (pos n) = false
is_negative (negsuc n) = true

unfoldable pub meta_size : Fields → ℤ
meta_size f =
    let n = num f (codes "uploaded_bytes" ∷ codes "uploaded" ∷ codes "offset" ∷ []) in
    if is_negative n
    then num f (codes "size_bytes" ∷ codes "size" ∷ codes "total" ∷ codes "length" ∷ [])
    else n

-- The status of an answer among those that are good.
unfoldable pub answered : (ℕ → Bool) → Option Response → Result Response
answered good none = err io_error
answered good (some r) = if good r.status then ok r else err (status_err r.status)

unfoldable pub is_created : ℕ → Bool
is_created status = status == 200 || status == 201 || status == 409

unfoldable pub is_stored : ℕ → Bool
is_stored status = status == 200 || status == 201 || status == 206

unfoldable pub is_fetched : ℕ → Bool
is_fetched status = status == 200 || status == 206

unfoldable pub is_put : ℕ → Bool
is_put status = status == 200 || status == 201

unfoldable pub is_deleted : ℕ → Bool
is_deleted status = status == 404 || status == 200 || status == 204

unfoldable pub is_ok : ℕ → Bool
is_ok status = status == 200

unfoldable pub told : Result Response → Result (Unit {0})
told (err e) = err e
told (ok r) = ok tt

unfoldable pub body_of : Result Response → Result Bytes
body_of (err e) = err e
body_of (ok r) = ok r.body

module _ (net : Net) where
  unfoldable pub meta_expiry : Bytes → Option ℕ
  meta_expiry [] = none
  meta_expiry (c ∷ cs) = net.parse_time (c ∷ cs)

  -- parseMeta
  unfoldable pub parse_meta : Bytes → Result RelayMeta
  parse_meta raw = elim (net.unmarshal raw) [
    | none ↦ err io_error
    | some f ↦ ok (record {
      size = meta_size f;
      expiry =
          meta_expiry (str f (codes "expiry_rfc3339" ∷ codes "expiry" ∷ codes "expires_at" ∷ []));
    })
  ]

  unfoldable pub meta_of : Result Response → Result RelayMeta
  meta_of (err e) = err e
  meta_of (ok r) = parse_meta r.body
