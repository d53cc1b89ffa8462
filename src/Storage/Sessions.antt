-- ===== src/Storage/Sessions.antt =====
-- internal/storage/memory_users.go: the sessions and the API keys. A key object is shared by the two
-- maps of keys; it is the one that has the hash. Maps are visited in the order of the list.
pub mod Tokens
use vcdeploy.Prelude.{
  ℕ, ◌+◌, String, Bool, true, false, Option, none, some, List, [], ◌∷◌, ◌++◌, Table, lookup, insert,
  delete, delete_where, adjust, if◌then◌else◌, str_eq, map, length, ltb, ◌==◌,
}
use vcdeploy.Storage.Types.{
  Session, ApiKey, WriteOp, write_insert, write_update, write_delete, a_session, an_api_key, by_id,
  by_token, by_user_id, expired_before, used_at, StoreError, not_found, duplicate, validation,
  Result, ok, err, MemoryStore, queue_write, new_write_op,
}

-- The values of a map that pass a test.
unfoldable pub values_where : {V : Type 0} → (V → Bool) → Table V → List V
values_where p [] = []
values_where p ((k, v) ∷ m) = let rest = values_where p m in if p v then v ∷ rest else rest

-- The session as `CreateSession` completes it.
abbrev pub created_session : ℕ → Session → Session
created_session now session = record session {
  id = session.token;
  created_at = now;
  last_used = now;
}

-- `CreateSession`
unfoldable pub create_session : ℕ → Session → MemoryStore → Result Session × MemoryStore
unfolding insert
create_session now session s =
    let stored = created_session now session in
    if str_eq session.token "" then (err validation, s) else (
      ok stored,
      queue_write (new_write_op write_insert "sessions" (a_session stored) now)
          (record s { sessions = insert session.token stored s.sessions }),
    )

abbrev pub unless_expired : ℕ → Session → Result Session
unless_expired now session = if ltb session.expires_at now then err not_found else ok session

abbrev pub live_session : ℕ → Option Session → Result Session
live_session now none = err not_found
live_session now (some session) = unless_expired now session

-- `GetSessionByToken`
unfoldable pub get_session_by_token : ℕ → String → MemoryStore → Result Session
unfolding lookup
get_session_by_token now token s = live_session now (lookup token s.sessions)

-- `DeleteSession`
unfoldable pub delete_session : ℕ → String → MemoryStore → MemoryStore
unfolding delete
delete_session now token s =
    queue_write (new_write_op write_delete "sessions" (by_token token) now)
      (record s { sessions = delete token s.sessions })

abbrev pub has_expired_by : ℕ → Session → Bool
has_expired_by now session = ltb session.expires_at now

-- `DeleteExpiredSessions`
unfoldable pub delete_expired_sessions : ℕ → MemoryStore → ℕ × MemoryStore
unfolding delete_where values_where
delete_expired_sessions now s =
    let deleted = length (values_where (λ session. has_expired_by now session) s.sessions) in
    let s' = record s {
      sessions = delete_where (λ session. has_expired_by now session) s.sessions;
    } in
    (
      deleted,
      if ltb 0 deleted
          then queue_write (new_write_op write_delete "sessions" (expired_before now) now) s'
          else s',
    )

-- `DeleteUserSessions`
unfoldable pub delete_user_sessions : ℕ → String → MemoryStore → MemoryStore
unfolding delete_where
delete_user_sessions now user_id s =
    queue_write (new_write_op write_delete "sessions" (by_user_id user_id) now)
      (record s { sessions = delete_where (λ session. str_eq session.user_id user_id) s.sessions })

-- `ListUserSessions`
unfoldable pub list_user_sessions : String → MemoryStore → List Session
unfolding values_where
list_user_sessions user_id s = values_where (λ session. str_eq session.user_id user_id) s.sessions

-- `s.apiKeysByUser[userID]`, where a missing key gives no elements.
abbrev pub keys_of : Option (List ApiKey) → List ApiKey
keys_of none = []
keys_of (some keys) = keys

-- The key as `CreateAPIKey` completes it.
abbrev pub created_key : String → ℕ → ApiKey → ApiKey
created_key new_id now key = record key {
  id = if str_eq key.id "" then new_id else key.id;
  created_at = now;
}

abbrev pub store_key : ApiKey → MemoryStore → MemoryStore
store_key key s = record s {
  api_keys = insert key.key_hash key s.api_keys;
  api_keys_by_user =
      insert key.user_id (keys_of (lookup key.user_id s.api_keys_by_user) ++ key ∷ [])
        s.api_keys_by_user;
}

-- `CreateAPIKey`
unfoldable pub create_api_key : String → ℕ → ApiKey → MemoryStore → Result ApiKey × MemoryStore
unfolding insert lookup
create_api_key new_id now key s =
    let stored = created_key new_id now key in
    if str_eq key.key_hash "" then (err validation, s) else elim (lookup key.key_hash s.api_keys) [
      | some other ↦ (err duplicate, s)
      | none ↦ (
        ok stored,
        queue_write (new_write_op write_insert "api_keys" (an_api_key stored) now)
            (store_key stored s),
      )
    ]

abbrev pub key_has_expired : ℕ → Option ℕ → Bool
key_has_expired now none = false
key_has_expired now (some t) = ltb t now

abbrev pub unless_key_expired : ℕ → ApiKey → Result ApiKey
unless_key_expired now key = if key_has_expired now key.expires_at then err not_found else ok key

-- The first key with an identifier that a loop over the map meets, and its hash.
unfoldable pub find_key_by_id : String → Table ApiKey → Option (String × ApiKey)
find_key_by_id key_id [] = none
find_key_by_id key_id ((hash, key) ∷ m) =
    if str_eq key.id key_id then some (hash, key) else find_key_by_id key_id m

-- `GetAPIKeyByID`
unfoldable pub get_api_key_by_id : ℕ → String → MemoryStore → Result ApiKey
unfolding find_key_by_id
get_api_key_by_id now key_id s = elim (find_key_by_id key_id s.api_keys) [
  | none ↦ err not_found
  | some (hash, key) ↦ unless_key_expired now key
]

-- `GetAPIKeyByHash`
unfoldable pub get_api_key_by_hash : ℕ → String → MemoryStore → Result ApiKey
unfolding lookup
get_api_key_by_hash now key_hash s = elim (lookup key_hash s.api_keys) [
  | none ↦ err not_found
  | some key ↦ unless_key_expired now key
]

-- A write to the key object of a hash, in the list of a user.
unfoldable pub use_key : ℕ → String → List ApiKey → List ApiKey
use_key now hash [] = []
use_key now hash (key ∷ keys) =
    let rest = use_key now hash keys in
    if str_eq key.key_hash hash then record key { last_used_at = some now } ∷ rest else key ∷ rest

-- `UpdateAPIKeyUsage`
unfoldable pub update_api_key_usage : ℕ → String → MemoryStore → Result (Unit {0}) × MemoryStore
unfolding find_key_by_id adjust use_key
update_api_key_usage now key_id s = elim (find_key_by_id key_id s.api_keys) [
  | none ↦ (err not_found, s)
  | some (hash, key) ↦ (
    ok tt,
    queue_write (new_write_op write_update "api_keys" (used_at key_id now) now) (record s {
      api_keys = adjust hash (λ k. record k { last_used_at = some now }) s.api_keys;
      api_keys_by_user = adjust key.user_id (use_key now hash) s.api_keys_by_user;
    }),
  )
]

-- The list of a user without the first key that has the identifier.
unfoldable pub drop_key : String → List ApiKey → List ApiKey
drop_key key_id [] = []
drop_key key_id (key ∷ keys) = if str_eq key.id key_id then keys else key ∷ drop_key key_id keys

-- `DeleteAPIKey`
unfoldable pub delete_api_key : ℕ → String → MemoryStore → MemoryStore
unfolding find_key_by_id delete adjust drop_key
delete_api_key now key_id s = elim (find_key_by_id key_id s.api_keys) [
  | none ↦ s
  | some (hash, key) ↦
      queue_write (new_write_op write_delete "api_keys" (by_id key_id) now) (record s {
        api_keys = delete hash s.api_keys;
        api_keys_by_user = adjust key.user_id (drop_key key_id) s.api_keys_by_user;
      })
]

-- `ListAPIKeys`
unfoldable pub list_api_keys : String → MemoryStore → List ApiKey
unfolding lookup
list_api_keys user_id s = keys_of (lookup user_id s.api_keys_by_user)
