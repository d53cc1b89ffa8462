-- ===== src/Storage/Users.antt =====
-- internal/storage/memory_users.go: the users. The time of a call and the identifier that `xid.New`
-- would give are arguments. Stored users are copies, so that a value stands for each pointer.
pub mod Index
pub mod Directory
pub mod Revocation
mod Witnesses
use vcdeploy.Prelude.{
  ℕ, ◌+◌, String, Bool, true, false, not, Option, none, some, List, [], ◌∷◌, Table, lookup, insert,
  delete, delete_where, if◌then◌else◌, str_eq, map, length, ltb, leb, take, drop,
}
use vcdeploy.Storage.Types.{
  User, Session, ApiKey, WriteOp, write_insert, write_update, write_delete, a_user, by_id,
  StoreError, not_found, duplicate, Result, ok, err, MemoryStore, queue_write, new_write_op,
}

-- The user as `CreateUser` completes it.
abbrev pub created_user : String → ℕ → User → User
created_user new_id now user = record user {
  id = if str_eq user.id "" then new_id else user.id;
  created_at = now;
  updated_at = now;
}

-- The user under its identifier and its name.
unfoldable pub store_user : User → MemoryStore → MemoryStore
unfolding insert
store_user user s = record s {
  users = insert user.id user s.users;
  users_by_name = insert user.username user s.users_by_name;
}

-- `CreateUser`; the user that is returned is what the caller's pointer shows after the call.
unfoldable pub create_user : String → ℕ → User → MemoryStore → Result User × MemoryStore
unfolding lookup store_user
create_user new_id now user s = elim (lookup user.username s.users_by_name) [
  | some other ↦ (err duplicate, s)
  | none ↦
      let stored = created_user new_id now user in
      (
        ok stored,
        queue_write (new_write_op write_insert "users" (a_user stored) now) (store_user stored s),
      )
]

abbrev pub found : {A : Type 0} → Option A → Result A
found none = err not_found
found (some a) = ok a

-- `GetUserByUsername`
unfoldable pub get_user_by_username : String → MemoryStore → Result User
unfolding lookup
get_user_by_username username s = found (lookup username s.users_by_name)

-- `GetUserByID`
unfoldable pub get_user_by_id : String → MemoryStore → Result User
unfolding lookup
get_user_by_id id s = found (lookup id s.users)

-- The end of `UpdateUserByID`.
unfoldable pub write_user : ℕ → User → MemoryStore → Result User × MemoryStore
unfolding store_user
write_user now user s =
    let stored = record user { updated_at = now } in
    (
      ok stored,
      queue_write (new_write_op write_update "users" (a_user stored) now) (store_user stored s),
    )

-- A name that changes is taken out of the index, unless the new one is taken.
unfoldable pub rename_user : ℕ → User → User → MemoryStore → Result User × MemoryStore
unfolding lookup delete write_user
rename_user now existing user s = elim (lookup user.username s.users_by_name) [
  | some other ↦ (err duplicate, s)
  | none ↦
      write_user now user (record s { users_by_name = delete existing.username s.users_by_name })
]

-- `UpdateUserByID`
unfoldable pub update_user_by_id : ℕ → User → MemoryStore → Result User × MemoryStore
unfolding lookup rename_user write_user
update_user_by_id now user s = elim (lookup user.id s.users) [
  | none ↦ (err not_found, s)
  | some existing ↦
      if not (str_eq existing.username user.username)
      then rename_user now existing user s
      else write_user now user s
]

-- `DeleteUser`, with the sessions and the API keys of the user.
unfoldable pub remove_user : ℕ → String → User → MemoryStore → MemoryStore
unfolding delete delete_where
remove_user now id user s =
    queue_write (new_write_op write_delete "users" (by_id id) now) (record s {
      users = delete id s.users;
      users_by_name = delete user.username s.users_by_name;
      sessions = delete_where (λ session. str_eq session.user_id id) s.sessions;
      api_keys_by_user = delete id s.api_keys_by_user;
      api_keys = delete_where (λ key. str_eq key.user_id id) s.api_keys;
    })

unfoldable pub delete_user : ℕ → String → MemoryStore → MemoryStore
unfolding lookup remove_user
delete_user now id s = elim (lookup id s.users) [ none ↦ s | some user ↦ remove_user now id user s ]
