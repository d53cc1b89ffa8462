-- ===== src/Storage/Users/Directory.antt =====
-- internal/storage/memory_users.go: the users as a directory, which is what the callers see: who has
-- an identifier, with every name given once.
use vcdeploy.Prelude.{
  ℕ, String, ◌≡◌, refl, false, Option, none, some, [], inl, inr, Bool-cases, Option-cases, arith,
  eq_iff, lookup, lookup-insert, lookup-delete, ◌↔◌, str_eq,
}
use mathlib.Core.Path.{subst}
use vcdeploy.Storage.Types.{User, MemoryStore, Result, ok, err, not_found}
use vcdeploy.Storage.Users.{
  created_user, store_user, create_user, write_user, rename_user, update_user_by_id, remove_user,
  delete_user, get_user_by_username, found,
}
use vcdeploy.Storage.Users.Index.{
  IsIndexed, Puts, Takes, create_user-IsIndexed, update_user_by_id-IsIndexed, delete_user-IsIndexed,
}

abbrev pub Directory : Type 0
Directory = String → Option User

-- The operations of the contract, with their times, and what they answer.
pub data UserOp : Type 0 where
  creating : String → ℕ → User → UserOp
  updating : ℕ → User → UserOp
  deleting : ℕ → String → UserOp

pub data Answer : Type 0 where
  stored : User → Answer
  refused_unknown : Answer
  refused_taken : Answer
  gone : Answer

abbrev pub HasName : Directory → String → User → Type 0
HasName d n u = (d u.id ≡ some u) × (u.username ≡ n)

-- The contract.
pub data Contract : Directory → UserOp → Answer → Directory → Type 0 where
  is_created :
      {d d' : Directory} (new_id : String) (now : ℕ) (user : User)
      → ((w : User) → ¬ HasName d user.username w)
      → Puts (created_user new_id now user).id (created_user new_id now user) d d'
      → Contract d (creating new_id now user) (stored (created_user new_id now user)) d'
  is_not_created :
      {d : Directory} (new_id : String) (now : ℕ) (user w : User)
      → HasName d user.username w
      → Contract d (creating new_id now user) refused_taken d
  is_updated :
      {d d' : Directory} (now : ℕ) (user w : User)
      → d user.id ≡ some w
      → ((v : User) → HasName d user.username v → v.id ≡ user.id)
      → Puts user.id (record user { updated_at = now }) d d'
      → Contract d (updating now user) (stored (record user { updated_at = now })) d'
  is_not_found :
      {d : Directory} (now : ℕ) (user : User)
      → d user.id ≡ none
      → Contract d (updating now user) refused_unknown d
  is_not_renamed :
      {d : Directory} (now : ℕ) (user v : User)
      → HasName d user.username v
      → (v.id ≡ user.id → ⊥)
      → Contract d (updating now user) refused_taken d
  is_deleted :
      {d d' : Directory} (now : ℕ) (id : String)
      → Takes id d d'
      → Contract d (deleting now id) gone d'

abbrev pub answer_of : Result User → Answer
answer_of (ok u) = stored u
answer_of (err not_found) = refused_unknown
answer_of (err e) = refused_taken

-- The code of an operation.
unfoldable pub perform : UserOp → MemoryStore → Answer × MemoryStore
unfolding create_user update_user_by_id delete_user
perform (creating new_id now user) s =
    let (r, s') = create_user new_id now user s in (answer_of r, s')
perform (updating now user) s = let (r, s') = update_user_by_id now user s in (answer_of r, s')
perform (deleting now id) s = (gone, delete_user now id s)

-- A created user gets an identifier that is not in use.
abbrev pub IsFresh : UserOp → MemoryStore → Type 0
IsFresh (creating new_id now user) s = lookup (created_user new_id now user).id s.users ≡ none
IsFresh op s = Unit {0}

abbrev pub directory : MemoryStore → Directory
directory s id = lookup id s.users

no_name :
    (s : MemoryStore) (n : String)
    → IsIndexed s
    → lookup n s.users_by_name ≡ none
    → (w : User) → ¬ HasName (directory s) n w
no_name s n a e w (held, name) = ground (arith, a.named w.id w held)

the_name :
    (s : MemoryStore) (n : String) (w : User)
    → IsIndexed s
    → lookup n s.users_by_name ≡ some w
    → HasName (directory s) n w
the_name s n w a e = (a.identified n w e, a.names n w e)

create_user_lem :
    (new_id : String) (now : ℕ) (user : User) (s : MemoryStore)
    → IsIndexed s
    → Contract
        (directory s)
        (creating new_id now user)
        (perform (creating new_id now user) s).0
        (directory (perform (creating new_id now user) s).1)
unfolding perform create_user store_user
create_user_lem new_id now user s a = elim (Option-cases (lookup user.username s.users_by_name)) [
  | inl e ↦
      rw (e, create_user)
        (is_created new_id now user (no_name s user.username a e) (λ j.
          lookup-insert (created_user new_id now user).id j (created_user new_id now user) s.users))
  | inr (w, e) ↦
      rw (e, create_user) (is_not_created new_id now user w (the_name s user.username w a e))
]

rename_user_lem :
    (now : ℕ) (existing user : User) (s : MemoryStore)
    → IsIndexed s
    → lookup user.id s.users ≡ some existing
    → (str_eq existing.username user.username ≡ false)
    → Contract
        (directory s)
        (updating now user)
        (answer_of (rename_user now existing user s).0)
        (directory (rename_user now existing user s).1)
unfolding rename_user write_user store_user
rename_user_lem now existing user s a held differ =
    elim (Option-cases (lookup user.username s.users_by_name)) [
      | inl e ↦
          rw (e, rename_user)
            (is_updated now user existing held (λ v n. absurd (no_name s user.username a e v n))
              (λ j. lookup-insert user.id j (record user { updated_at = now }) s.users))
      | inr (w, e) ↦
          rw (e, rename_user)
            (is_not_renamed now user w (the_name s user.username w a e) (λ same. other w e same))
    ]
  where
    other : (w : User) → lookup user.username s.users_by_name ≡ some w → w.id ≡ user.id → ⊥
    other w e same =
        let there : lookup user.id s.users ≡ some w =
          subst (λ k. lookup k s.users ≡ some w) same (a.identified user.username w e) in
        ground (arith, there, a.names user.username w e, eq_iff existing.username user.username)

update_user_lem :
    (now : ℕ) (user : User) (s : MemoryStore)
    → IsIndexed s
    → Contract
        (directory s)
        (updating now user)
        (answer_of (update_user_by_id now user s).0)
        (directory (update_user_by_id now user s).1)
unfolding update_user_by_id write_user store_user
update_user_lem now user s a = elim (Option-cases (lookup user.id s.users)) [
  | inl e ↦ rw (e, update_user_by_id) (is_not_found now user e)
  | inr (w, e) ↦ elim (Bool-cases (str_eq w.username user.username)) [
    | inl q ↦
        rw (e, update_user_by_id)
          (rw q (
            is_updated now user w e
              (λ v (held, name). one_name w e ((eq_iff w.username user.username).0 q) v held name)
              (λ j. lookup-insert user.id j (record user { updated_at = now }) s.users)))
    | inr q ↦ rw (e, update_user_by_id) (rw q (rename_user_lem now w user s a e q))
  ]
]
  where
    one_name :
        (w : User)
        → lookup user.id s.users ≡ some w
        → w.username ≡ user.username
        → (v : User) → lookup v.id s.users ≡ some v
        → v.username ≡ user.username
        → v.id ≡ user.id
    one_name w e named v held name =
        let by_w : lookup user.username s.users_by_name ≡ some w =
          subst (λ n. lookup n s.users_by_name ≡ some w) named (a.named user.id w e) in
        let by_v : lookup user.username s.users_by_name ≡ some v =
          subst (λ n. lookup n s.users_by_name ≡ some v) name (a.named v.id v held) in
        ground (arith, by_w, by_v, a.ids user.id w e)

delete_user_lem :
    (now : ℕ) (id : String) (s : MemoryStore)
    → Contract (directory s) (deleting now id) gone (directory (delete_user now id s))
unfolding delete_user remove_user
delete_user_lem now id s = elim (Option-cases (lookup id s.users)) [
  | inl e ↦ rw (e, delete_user) (is_deleted now id (λ j. ground (arith, eq_iff id j)))
  | inr (w, e) ↦ rw (e, delete_user) (is_deleted now id (λ j. lookup-delete id j s.users))
]

-- From a store whose index is right, and for a new identifier that no user has: each operation on the
-- users does what the contract allows with the directory of users by identifier, and answers so, and
-- the index stays right. In the contract, a user is created exactly if no user has the name; it is
-- updated exactly if its identifier is known and no other user has its new name; and nothing else
-- changes.
pub perform-refines :
    (op : UserOp) (s : MemoryStore)
    → IsIndexed s
    → IsFresh op s
    → Contract (directory s) op (perform op s).0 (directory (perform op s).1)
      × IsIndexed (perform op s).1
unfolding perform
perform-refines (creating new_id now user) s a fresh =
    (create_user_lem new_id now user s a, create_user-IsIndexed new_id now user s fresh a)
perform-refines (updating now user) s a fresh =
    (update_user_lem now user s a, update_user_by_id-IsIndexed now user s a)
perform-refines (deleting now id) s a fresh =
    (delete_user_lem now id s, delete_user-IsIndexed now id s a)

-- The stores that the operations on the users lead to from a store without users, where each user is
-- created with an identifier that no user has.
pub data Reach : MemoryStore → Type 0 where
  without_users : (s : MemoryStore) → Reach (record s { users = []; users_by_name = [] })
  performed : {s : MemoryStore} (op : UserOp) → Reach s → IsFresh op s → Reach (perform op s).1

Reach-IsIndexed : (s : MemoryStore) → Reach s → IsIndexed s
unfolding lookup
Reach-IsIndexed s (without_users t) = record {
  ids = λ k u e. ground arith;
  names = λ n u e. ground arith;
  named = λ k u e. ground arith;
  identified = λ n u e. ground arith;
}
Reach-IsIndexed s (performed {s = t} op r fresh) =
    (perform-refines op t (Reach-IsIndexed t r) fresh).1

-- From a store without users, after any creations, updates, renames and deletions of users, each
-- creation with an identifier that no user has, the lookup of a name answers with a user exactly if
-- that user is stored under its identifier and has the name.
pub get_user_by_username_iff :
    (s : MemoryStore) (n : String) (u : User)
    → Reach s
    → (get_user_by_username n s ≡ ok u) ↔ ((lookup u.id s.users ≡ some u) × (u.username ≡ n))
unfolding get_user_by_username
get_user_by_username_iff s n u r =
    let a = Reach-IsIndexed s r in
    (
      λ h. the_name s n u a (found_iff _ u h),
      λ (held, name).
          rw (found, subst (λ m. lookup m s.users_by_name ≡ some u) name (a.named u.id u held))
            refl,
    )
  where
    found_iff : (o : Option User) (u : User) → found o ≡ ok u → o ≡ some u
    found_iff none u h = absurd (ground arith)
    found_iff (some v) u h = ground arith
