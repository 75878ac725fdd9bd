-- ===== src/Manifest/Types.antt =====
-- The data of internal/manifest/manifest.go, and New.
use dero_ghost_drop.Base.{ℕ, zero, suc, Bool, false, Option, some, List, [], ◌∷◌, Bytes, codes}
use dero_ghost_drop.Base.Int.{ℤ, pos}

pub record FileEntry : Type 0 where
  pub name_enc : Bytes
  pub nonce : Bytes
  pub size : ℤ
  pub hash : Bytes

pub record StorageRef : Type 0 where
  pub backend : Bytes
  pub ref : Bytes

pub record Access : Type 0 where
  pub wrapped_key : Bytes
  pub ephem_pub : Bytes
  pub passphrase_salt : Bytes
  pub kdf : Bytes

pub record Payment : Type 0 where
  pub amount : ℕ
  pub address : Bytes
  pub txid_required : Bool

pub record Signature : Type 0 where
  pub by : Bytes
  pub public : Bytes
  pub sig : Bytes

-- `none` is the zero time.
pub record Manifest : Type 0 where
  pub drop_id : Bytes
  pub version : ℕ
  pub created_at : Option ℕ
  pub expires_at : Option ℕ
  pub mode : Bytes
  pub sender_identity : Bytes
  pub recipient_commitment : Bytes
  pub cipher : Bytes
  pub payload_hash : Bytes
  pub payload_size : ℤ
  pub plaintext_hash : Bytes
  pub file_count : ℕ
  pub files : List FileEntry
  pub storage : StorageRef
  pub access : Access
  pub payment : Payment
  pub one_time : Bool
  pub signature : Signature
  pub chunk_size : ℕ

-- Version, ChunkSize, CipherSuite
abbrev pub version_1 : ℕ
version_1 = 1

unfoldable pub manifest_chunk_size : ℕ
manifest_chunk_size = 1048576

abbrev pub cipher_suite : Bytes
cipher_suite = codes "XChaCha20-Poly1305"

abbrev pub unsigned : Signature
unsigned = record { by = []; public = []; sig = [] }

-- New, at the time `now`
unfoldable pub new : Bytes → Bytes → ℕ → ℕ → Manifest
new id mode expiry now = record {
  drop_id = id;
  version = version_1;
  created_at = some now;
  expires_at = some expiry;
  mode = mode;
  sender_identity = [];
  recipient_commitment = [];
  cipher = cipher_suite;
  payload_hash = [];
  payload_size = pos 0;
  plaintext_hash = [];
  file_count = 0;
  files = [];
  storage = record { backend = []; ref = [] };
  access = record { wrapped_key = []; ephem_pub = []; passphrase_salt = []; kdf = [] };
  payment = record { amount = 0; address = []; txid_required = false };
  one_time = false;
  signature = unsigned;
  chunk_size = manifest_chunk_size;
}

-- Files[i].Size = size; Files[i].Hash = hash, where there is such an entry
unfoldable pub set_info : List FileEntry → ℕ → ℤ → Bytes → List FileEntry
set_info [] i size hash = []
set_info (f ∷ fs) zero size hash = record f { size = size; hash = hash } ∷ fs
set_info (f ∷ fs) (suc i) size hash = f ∷ set_info fs i size hash

-- SetFileInfo, for an index that is not negative
unfoldable pub set_file_info : ℕ → ℤ → Bytes → Manifest → Manifest
set_file_info i size hash m = record m { files = set_info m.files i size hash }
