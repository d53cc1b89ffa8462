-- ===== src/Storage/Users/Revocation.antt =====
-- internal/storage/memory_users.go: what is left of a user after `DeleteUser`.
use vcdeploy.Prelude.{
  ℕ, String, ◌≡◌, ◌≢◌, refl, Bool, false, some, [], ◌∷◌, inl, inr, Bool-cases, Option-cases, arith,
  eq_iff, Table, lookup, delete_where, lookup-delete, str_eq,
}
use vcdeploy.Storage.Types.{User, Session, ApiKey, MemoryStore, ok, err, not_found}
use vcdeploy.Storage.Users.{remove_user, delete_user, get_user_by_id}
use vcdeploy.Storage.Sessions.{
  values_where, get_session_by_token, list_user_sessions, get_api_key_by_hash, get_api_key_by_id,
  find_key_by_id, list_api_keys,
}

-- What a lookup still finds does not pass the test of the deletion.
delete_where-fails :
    {V : Type 0} (p : V → Bool) (k : String) (v : V) (m : Table V)
    → lookup k (delete_where p m) ≡ some v
    → p v ≡ false
unfolding lookup delete_where
delete_where-fails p k v [] h = absurd (ground arith)
delete_where-fails p k v ((j, w) ∷ m) h = elim (Bool-cases (p w)) [
  | inl q ↦ delete_where-fails p k v m (ground arith)
  | inr q ↦ elim (Bool-cases (str_eq j k)) [
    | inl r ↦ ground arith
    | inr r ↦ delete_where-fails p k v m (ground arith)
  ]
]

find_key_by_id-fails :
    (p : ApiKey → Bool) (id hash : String) (key : ApiKey) (m : Table ApiKey)
    → find_key_by_id id (delete_where p m) ≡ some (hash, key)
    → p key ≡ false
unfolding find_key_by_id delete_where
find_key_by_id-fails p id hash key [] h = absurd (ground arith)
find_key_by_id-fails p id hash key ((j, w) ∷ m) h = elim (Bool-cases (p w)) [
  | inl q ↦ find_key_by_id-fails p id hash key m (ground arith)
  | inr q ↦ elim (Bool-cases (str_eq w.id id)) [
    | inl r ↦ ground arith
    | inr r ↦ find_key_by_id-fails p id hash key m (ground arith)
  ]
]

values_where-gone :
    {V : Type 0} (p : V → Bool) (m : Table V) → values_where p (delete_where p m) ≡ []
unfolding values_where delete_where
values_where-gone p [] = refl
values_where-gone p ((k, v) ∷ m) = ground (arith, values_where-gone p m)

-- Nothing that the store gives out belongs to the user.
pub record IsRevoked (id : String) (s : MemoryStore) : Type 0 where
  pub no_user : get_user_by_id id s ≡ err not_found
  pub no_session :
      (now : ℕ) (token : String) (session : Session)
      → get_session_by_token now token s ≡ ok session
      → session.user_id ≢ id
  pub no_sessions : list_user_sessions id s ≡ []
  pub no_key :
      (now : ℕ) (hash : String) (key : ApiKey)
      → get_api_key_by_hash now hash s ≡ ok key
      → key.user_id ≢ id
  pub no_key_by_id :
      (now : ℕ) (key_id : String) (key : ApiKey)
      → get_api_key_by_id now key_id s ≡ ok key
      → key.user_id ≢ id
  pub no_keys : list_api_keys id s ≡ []

module _ (now : ℕ) (id : String) (user : User) (s : MemoryStore) where
  no_session_left :
      (at : ℕ) (token : String) (session : Session)
      → get_session_by_token at token (remove_user now id user s) ≡ ok session
      → session.user_id ≢ id
  unfolding get_session_by_token remove_user
  no_session_left at token session h same =
      elim (Option-cases (lookup token (delete_where (λ x. str_eq x.user_id id) s.sessions))) [
        | inl e ↦ absurd (ground arith)
        | inr (x, e) ↦
            let fails = delete_where-fails (λ x. str_eq x.user_id id) token x s.sessions e in
            ground (arith, fails, eq_iff x.user_id id)
      ]

  no_key_left :
      (at : ℕ) (hash : String) (key : ApiKey)
      → get_api_key_by_hash at hash (remove_user now id user s) ≡ ok key
      → key.user_id ≢ id
  unfolding get_api_key_by_hash remove_user
  no_key_left at hash key h same =
      elim (Option-cases (lookup hash (delete_where (λ x. str_eq x.user_id id) s.api_keys))) [
        | inl e ↦ absurd (ground arith)
        | inr (x, e) ↦
            let fails = delete_where-fails (λ x. str_eq x.user_id id) hash x s.api_keys e in
            ground (arith, fails, eq_iff x.user_id id)
      ]

  no_key_left_by_id :
      (at : ℕ) (key_id : String) (key : ApiKey)
      → get_api_key_by_id at key_id (remove_user now id user s) ≡ ok key
      → key.user_id ≢ id
  unfolding get_api_key_by_id remove_user
  no_key_left_by_id at key_id key h same =
      elim (Option-cases
        (find_key_by_id key_id (delete_where (λ x. str_eq x.user_id id) s.api_keys))) [
          | inl e ↦ absurd (ground arith)
          | inr ((hash, x), e) ↦
              let fails =
                find_key_by_id-fails (λ x. str_eq x.user_id id) key_id hash x s.api_keys e in
              ground (arith, fails, eq_iff x.user_id id)
        ]

  remove_user-IsRevoked : IsRevoked id (remove_user now id user s)
  unfolding get_user_by_id list_user_sessions list_api_keys remove_user
  remove_user-IsRevoked = record {
    no_user = ground (arith, lookup-delete id id s.users, eq_iff id id);
    no_session = no_session_left;
    no_sessions = values_where-gone (λ x. str_eq x.user_id id) s.sessions;
    no_key = no_key_left;
    no_key_by_id = no_key_left_by_id;
    no_keys = ground (arith, lookup-delete id id s.api_keys_by_user, eq_iff id id);
  }

-- After `delete_user` of a stored user, at any later time: neither the user, nor a session or an API key
-- of it, is found by any token, hash or identifier, and its lists are empty.
pub delete_user-IsRevoked :
    (now : ℕ) (id : String) (user : User) (s : MemoryStore)
    → get_user_by_id id s ≡ ok user
    → IsRevoked id (delete_user now id s)
unfolding delete_user get_user_by_id
delete_user-IsRevoked now id user s h = elim (Option-cases (lookup id s.users)) [
  | inl e ↦ absurd (ground arith)
  | inr (w, e) ↦ rw (e, delete_user) (remove_user-IsRevoked now id w s)
]
