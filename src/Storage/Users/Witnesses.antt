-- ===== src/Storage/Users/Witnesses.antt =====
-- Runs of the store of users, and the theorems at concrete inputs.
use vcdeploy.Prelude.{
  String, ◌≡◌, ◌↔◌, refl, false, none, some, [], lookup, if◌then◌else◌, str_eq, arith, KeysDiffer,
  has_key, eq_iff, ltb,
}
use vcdeploy.Storage.Types.{User, Session, MemoryStore, ok, err, not_found}
use vcdeploy.Storage.Users.{
  create_user, delete_user, get_user_by_id, get_user_by_username, created_user,
}
use vcdeploy.Storage.Sessions.{create_session, get_session_by_token, created_session}
use vcdeploy.Storage.Sessions.Tokens.{get_session_by_token-create_session}
use vcdeploy.Storage.Users.Index.{IsIndexed, create_user-IsIndexed}
use vcdeploy.Storage.Users.Directory.{
  Contract, creating, directory, perform, perform-refines, get_user_by_username_iff, updating,
  Reach, without_users, performed,
}
use vcdeploy.Storage.Users.Revocation.{IsRevoked, delete_user-IsRevoked}

abbrev empty : MemoryStore
empty = record {
  users = [];
  users_by_name = [];
  sessions = [];
  api_keys = [];
  api_keys_by_user = [];
  core_writes = [];
}

abbrev a_user_named : String → User
a_user_named name = record {
  id = "";
  username = name;
  password_hash = "";
  email = "";
  role = "admin";
  totp_secret = "";
  totp_enabled = false;
  must_change_password = false;
  created_at = 0;
  updated_at = 0;
}

abbrev ann : User
ann = created_user "u1" 10 (a_user_named "ann")

abbrev login : Session
login = record {
  id = "";
  user_id = "u1";
  token = "t1";
  ip_address = "::1";
  user_agent = "";
  created_at = 0;
  expires_at = 100;
  last_used = 0;
}

abbrev one_user : MemoryStore
one_user = (create_session 11 login (create_user "u1" 10 (a_user_named "ann") empty).1).1

empty-IsIndexed : IsIndexed empty
unfolding lookup
empty-IsIndexed = record {
  ids = λ k u e. ground arith;
  names = λ n u e. ground arith;
  named = λ k u e. ground arith;
  identified = λ n u e. ground arith;
}

u1_fresh : lookup "u1" empty.users ≡ none
unfolding lookup
u1_fresh = refl

u2_fresh : lookup "u2" one_user.users ≡ none
unfolding lookup create_session create_user
u2_fresh = refl

one_user-IsIndexed : IsIndexed one_user
unfolding create_session
one_user-IsIndexed =
    create_user-IsIndexed "u1" 10 (a_user_named "ann") empty u1_fresh empty-IsIndexed

login_works : get_session_by_token 50 "t1" one_user ≡ ok (created_session 11 login)
unfolding get_session_by_token create_session create_user
login_works = refl

one_token : KeysDiffer one_user.sessions
unfolding create_session create_user has_key
one_token = (refl, tt)

login_expires : get_session_by_token 101 "t1" one_user ≡ err not_found
unfolding get_session_by_token create_session create_user
login_expires = refl

ann_there : get_user_by_id "u1" one_user ≡ ok ann
unfolding get_user_by_id create_session create_user
ann_there = refl

-- A user that is created with the identifier of another leaves the other under its name.
stale_name :
    get_user_by_username "ann"
      (create_user "u2" 20 (record (a_user_named "bob") { id = "u1" }) one_user).1
    ≡ ok ann
unfolding get_user_by_username create_session create_user
stale_name = refl

perform-refines_example :
    Contract
      (directory one_user)
      (creating "u2" 20 (a_user_named "ann"))
      (perform (creating "u2" 20 (a_user_named "ann")) one_user).0
      (directory (perform (creating "u2" 20 (a_user_named "ann")) one_user).1)
    × IsIndexed (perform (creating "u2" 20 (a_user_named "ann")) one_user).1
perform-refines_example =
    perform-refines (creating "u2" 20 (a_user_named "ann")) one_user one_user-IsIndexed u2_fresh

abbrev second_ann : User
second_ann = created_user "u2" 30 (a_user_named "ann")

-- Ann is created, becomes Eve, and a second user takes the name that she had.
abbrev renamed_store : MemoryStore
renamed_store =
    (perform (creating "u2" 30 (a_user_named "ann"))
      (perform (updating 20 (record ann { username = "eve" }))
        (perform (creating "u1" 10 (a_user_named "ann")) empty).1).1).1

renamed_store-Reach : Reach renamed_store
unfolding perform lookup
renamed_store-Reach =
    performed (creating "u2" 30 (a_user_named "ann"))
      (performed (updating 20 (record ann { username = "eve" }))
        (performed (creating "u1" 10 (a_user_named "ann")) (without_users empty) refl) tt)
      refl

get_user_by_username_iff_example :
    (get_user_by_username "ann" renamed_store ≡ ok second_ann)
    ↔ ((lookup "u2" renamed_store.users ≡ some second_ann) × (second_ann.username ≡ "ann"))
get_user_by_username_iff_example =
    get_user_by_username_iff renamed_store "ann" second_ann renamed_store-Reach

delete_user-IsRevoked_example : IsRevoked "u1" (delete_user 30 "u1" one_user)
delete_user-IsRevoked_example = delete_user-IsRevoked 30 "u1" ann one_user ann_there

get_session_by_token-create_session_example :
    get_session_by_token 50 "t1" (create_session 11 login empty).1 ≡ (
      if str_eq "t1" "t1"
      then (if ltb 100 50
          then err not_found
          else ok (record login { id = "t1"; created_at = 11; last_used = 11 }))
      else get_session_by_token 50 "t1" empty)
get_session_by_token-create_session_example =
    get_session_by_token-create_session 11 login empty 50 "t1"
      (λ e. absurd (ground (arith, eq_iff "t1" "")))
