-- ===== src/Storage/Types.antt =====
-- internal/storage/models.go, memory.go and writeop.go: users, sessions and API keys, and the part of
-- `MemoryStore` that holds them. A `time.Time` is a number of nanoseconds.
use vcdeploy.Prelude.{ℕ, String, Bool, Option, List, [], ◌∷◌, ◌++◌, Table}

pub record User : Type 0 where
  pub id : String
  pub username : String
  pub password_hash : String
  pub email : String
  pub role : String
  pub totp_secret : String
  pub totp_enabled : Bool
  pub must_change_password : Bool
  pub created_at : ℕ
  pub updated_at : ℕ

pub record Session : Type 0 where
  pub id : String
  pub user_id : String
  pub token : String
  pub ip_address : String
  pub user_agent : String
  pub created_at : ℕ
  pub expires_at : ℕ
  pub last_used : ℕ

pub record ApiKey : Type 0 where
  pub id : String
  pub user_id : String
  pub name : String
  pub key_hash : String
  pub key_prefix : String
  pub scopes : String
  pub expires_at : Option ℕ
  pub last_used_at : Option ℕ
  pub created_at : ℕ

pub data WriteOpType : Type 0 where
  write_insert write_update write_delete : WriteOpType

-- The `Data` of a `WriteOp`: a record, or a map with one entry.
pub data WriteData : Type 0 where
  a_user : User → WriteData
  a_session : Session → WriteData
  an_api_key : ApiKey → WriteData
  by_id : String → WriteData
  by_token : String → WriteData
  by_user_id : String → WriteData
  expired_before : ℕ → WriteData
  used_at : String → ℕ → WriteData

pub record WriteOp : Type 0 where
  pub kind : WriteOpType
  pub table : String
  pub data_of : WriteData
  pub timestamp : ℕ

-- `ErrNotFound`, `ErrDuplicate`, `ErrValidation`
pub data StoreError : Type 0 where
  not_found duplicate validation : StoreError

pub data Result (A : Type 0) : Type 0 where
  ok : A → Result A
  err : StoreError → Result A

-- `MemoryStore`; `core_writes` is what was sent to `coreWrites`, the latest last.
pub record MemoryStore : Type 0 where
  pub users : Table User
  pub users_by_name : Table User
  pub sessions : Table Session
  pub api_keys : Table ApiKey
  pub api_keys_by_user : Table (List ApiKey)
  pub core_writes : List WriteOp

-- `queueWrite`, which waits where the channel is full.
abbrev pub queue_write : WriteOp → MemoryStore → MemoryStore
queue_write op s = record s { core_writes = s.core_writes ++ op ∷ [] }

abbrev pub new_write_op : WriteOpType → String → WriteData → ℕ → WriteOp
new_write_op kind table data_of now = record {
  kind = kind;
  table = table;
  data_of = data_of;
  timestamp = now;
}
