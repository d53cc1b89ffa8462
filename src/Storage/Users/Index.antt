-- ===== src/Storage/Users/Index.antt =====
-- internal/storage/memory_users.go: usersByName is the index of users.
use vcdeploy.Prelude.{
  ℕ, String, ◌≡◌, refl, sym, Option, none, some, inl, inr, Bool-cases, Option-cases, arith, eq_iff,
  lookup, delete, lookup-insert, lookup-delete, if◌then◌else◌, str_eq,
}
use mathlib.Core.Path.{subst}
use vcdeploy.Storage.Types.{User, MemoryStore}
use vcdeploy.Storage.Users.{
  created_user, store_user, create_user, write_user, rename_user, update_user_by_id, remove_user,
  delete_user,
}

-- Two views of the users, by identifier and by name, hold the same users, each under its own.
pub record Agree (by_id by_name : String → Option User) : Type 0 where
  pub ids : (k : String) (u : User) → by_id k ≡ some u → u.id ≡ k
  pub names : (n : String) (u : User) → by_name n ≡ some u → u.username ≡ n
  pub named : (k : String) (u : User) → by_id k ≡ some u → by_name u.username ≡ some u
  pub identified : (n : String) (u : User) → by_name n ≡ some u → by_id u.id ≡ some u

-- A view with a user put in, and with one taken out.
abbrev pub Puts : String → User → (String → Option User) → (String → Option User) → Type 0
Puts k u f g = (j : String) → g j ≡ (if str_eq k j then some u else f j)

abbrev pub Takes : String → (String → Option User) → (String → Option User) → Type 0
Takes k f g = (j : String) → g j ≡ (if str_eq k j then none else f j)

module _ (f g f' g' : String → Option User) where
  -- A user whose name nobody else has, and whose identifier has no other name.
  pub put-Agree :
      (u : User)
      → Agree f g
      → Puts u.id u f f'
      → Puts u.username u g g'
      → ((w : User) → f u.id ≡ some w → w.username ≡ u.username)
      → ((w : User) → g u.username ≡ some w → w.id ≡ u.id)
      → Agree f' g'
  put-Agree u a pf pg same_name same_id = record {
    ids = λ k v e. ground (arith, pf k, a.ids k v, eq_iff u.id k);
    names = λ n v e. ground (arith, pg n, a.names n v, eq_iff u.username n);
    named = λ k v e. elim (Bool-cases (str_eq u.id k)) [
      | inl q ↦ ground (arith, pf k, pg v.username, eq_iff u.username v.username)
      | inr q ↦
          let held : f k ≡ some v = ground (arith, pf k) in
          elim (Bool-cases (str_eq u.username v.username)) [
            | inl r ↦
                let same : u.username ≡ v.username = (eq_iff u.username v.username).0 r in
                let id = same_id v (rw same (a.named k v held)) in
                absurd (ground (arith, a.ids k v held, id, eq_iff u.id k))
            | inr r ↦ ground (arith, pg v.username, a.named k v held)
          ]
    ];
    identified = λ n v e. elim (Bool-cases (str_eq u.username n)) [
      | inl q ↦ ground (arith, pg n, pf v.id, eq_iff u.id v.id)
      | inr q ↦
          let held : g n ≡ some v = ground (arith, pg n) in
          elim (Bool-cases (str_eq u.id v.id)) [
            | inl r ↦
                let same : u.id ≡ v.id = (eq_iff u.id v.id).0 r in
                let name = same_name v (rw same (a.identified n v held)) in
                absurd (ground (arith, a.names n v held, name, eq_iff u.username n))
            | inr r ↦ ground (arith, pf v.id, a.identified n v held)
          ]
    ];
  }

  pub take-Agree :
      (w : User)
      → Agree f g
      → f w.id ≡ some w
      → Takes w.id f f'
      → Takes w.username g g'
      → Agree f' g'
  take-Agree w a at tf tg = record {
    ids = λ k v e. ground (arith, tf k, a.ids k v);
    names = λ n v e. ground (arith, tg n, a.names n v);
    named = λ k v e.
        let held : f k ≡ some v = ground (arith, tf k) in
        elim (Bool-cases (str_eq w.username v.username)) [
          | inl r ↦
              let same : w.username ≡ v.username = (eq_iff w.username v.username).0 r in
              let there : g v.username ≡ some w = rw (sym same) (a.named w.id w at) in
              absurd (ground (arith, there, a.named k v held, a.ids k v held, tf k, eq_iff w.id k))
          | inr r ↦ ground (arith, tg v.username, a.named k v held)
        ];
    identified = λ n v e.
        let held : g n ≡ some v = ground (arith, tg n) in
        elim (Bool-cases (str_eq w.id v.id)) [
          | inl r ↦
              let same : w.id ≡ v.id = (eq_iff w.id v.id).0 r in
              let there : f v.id ≡ some w = rw (sym same) at in
              absurd (
                ground (
                  arith,
                  there,
                  a.identified n v held,
                  a.names n v held,
                  tg n,
                  eq_iff w.username n,
                ))
          | inr r ↦ ground (arith, tf v.id, a.identified n v held)
        ];
  }

-- `users` and `usersByName` agree.
abbrev pub IsIndexed : MemoryStore → Type 0
IsIndexed s = Agree (λ k. lookup k s.users) (λ n. lookup n s.users_by_name)

-- A user that is stored keeps the index, where no other user has its name, and no other name its
-- identifier.
store_user-IsIndexed :
    (u : User) (s : MemoryStore)
    → IsIndexed s
    → ((w : User) → lookup u.id s.users ≡ some w → w.username ≡ u.username)
    → ((w : User) → lookup u.username s.users_by_name ≡ some w → w.id ≡ u.id)
    → IsIndexed (store_user u s)
unfolding store_user
store_user-IsIndexed u s a same_name same_id =
    put-Agree _ _ _ _ u a (λ j. lookup-insert u.id j u s.users)
      (λ j. lookup-insert u.username j u s.users_by_name) same_name same_id

absurd_some : {A B : Type 0} {o : Option A} {a : A} → o ≡ none → o ≡ some a → B
absurd_some n e = absurd (ground arith)

-- `create_user` keeps the index, where the identifier is of no stored user.
pub create_user-IsIndexed :
    (new_id : String) (now : ℕ) (user : User) (s : MemoryStore)
    → lookup (created_user new_id now user).id s.users ≡ none
    → IsIndexed s
    → IsIndexed (create_user new_id now user s).1
unfolding create_user
create_user-IsIndexed new_id now user s fresh a =
    elim (Option-cases (lookup user.username s.users_by_name)) [
      | inl e ↦
          rw (e, create_user)
            (store_user-IsIndexed (created_user new_id now user) s a (λ w q. absurd_some fresh q)
              (λ w q. absurd_some e q))
      | inr (w, e) ↦ rw (e, create_user) a
    ]

write_user-IsIndexed :
    (now : ℕ) (user : User) (s : MemoryStore)
    → IsIndexed s
    → ((w : User) → lookup user.id s.users ≡ some w → w.username ≡ user.username)
    → ((w : User) → lookup user.username s.users_by_name ≡ some w → w.id ≡ user.id)
    → IsIndexed (write_user now user s).1
unfolding write_user
write_user-IsIndexed now user s a same_name same_id =
    store_user-IsIndexed (record user { updated_at = now }) s a same_name same_id

remove_user-IsIndexed :
    (now : ℕ) (user : User) (s : MemoryStore)
    → lookup user.id s.users ≡ some user
    → IsIndexed s
    → IsIndexed (remove_user now user.id user s)
unfolding remove_user
remove_user-IsIndexed now user s held a =
    take-Agree _ _ _ _ user a held (λ j. lookup-delete user.id j s.users)
      (λ j. lookup-delete user.username j s.users_by_name)

pub delete_user-IsIndexed :
    (now : ℕ) (id : String) (s : MemoryStore) → IsIndexed s → IsIndexed (delete_user now id s)
unfolding delete_user
delete_user-IsIndexed now id s a = elim (Option-cases (lookup id s.users)) [
  | inl e ↦ rw (e, delete_user) a
  | inr (w, e) ↦
      let same : w.id ≡ id = a.ids id w e in
      rw (e, delete_user)
        (subst (λ k. IsIndexed (remove_user now k w s)) same
          (remove_user-IsIndexed now w s (subst (λ k. lookup k s.users ≡ some w) (sym same) e) a))
]

-- `update_user_by_id` keeps the index.
rename_user-IsIndexed :
    (now : ℕ) (existing user : User) (s : MemoryStore)
    → lookup user.id s.users ≡ some existing
    → IsIndexed s
    → IsIndexed (rename_user now existing user s).1
unfolding rename_user write_user store_user
rename_user-IsIndexed now existing user s held a =
    elim (Option-cases (lookup user.username s.users_by_name)) [
      | inl e ↦ rw (e, rename_user) (moved e)
      | inr (w, e) ↦ rw (e, rename_user) a
    ]
  where
    without : String → Option User
    without j = if str_eq existing.id j then none else lookup j s.users

    moved :
        lookup user.username s.users_by_name ≡ none
        → IsIndexed
            (write_user now user
              (record s { users_by_name = delete existing.username s.users_by_name })).1
    moved e =
        let same : existing.id ≡ user.id = a.ids user.id existing held in
        let taken =
          take-Agree (λ k. lookup k s.users) (λ n. lookup n s.users_by_name) without
            (λ n. lookup n (delete existing.username s.users_by_name)) existing a
            (subst (λ k. lookup k s.users ≡ some existing) (sym same) held) (λ j. refl)
            (λ j. lookup-delete existing.username j s.users_by_name) in
        put-Agree without (λ n. lookup n (delete existing.username s.users_by_name)) _ _
          (record user { updated_at = now }) taken
          (λ j.
            ground
              (arith, lookup-insert user.id j (record user { updated_at = now }) s.users, same))
          (λ j.
            lookup-insert user.username j (record user { updated_at = now })
              (delete existing.username s.users_by_name))
          (λ w q. absurd (ground (arith, same, eq_iff existing.id user.id)))
          (λ w q.
            absurd (ground (arith, lookup-delete existing.username user.username s.users_by_name)))

pub update_user_by_id-IsIndexed :
    (now : ℕ) (user : User) (s : MemoryStore)
    → IsIndexed s
    → IsIndexed (update_user_by_id now user s).1
unfolding update_user_by_id
update_user_by_id-IsIndexed now user s a = elim (Option-cases (lookup user.id s.users)) [
  | inl e ↦ rw (e, update_user_by_id) a
  | inr (w, e) ↦ elim (Bool-cases (str_eq w.username user.username)) [
    | inl q ↦
        rw (e, update_user_by_id)
          (rw q (
            write_user-IsIndexed now user s a
              (λ v r. ground (arith, eq_iff w.username user.username))
              (λ v r.
                ground (
                  arith,
                  a.named user.id w e,
                  a.ids user.id w e,
                  eq_iff w.username user.username,
                ))))
    | inr q ↦ rw (e, update_user_by_id) (rw q (rename_user-IsIndexed now w user s e a))
  ]
]
