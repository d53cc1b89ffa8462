-- ===== src/Prelude/Maps.antt =====
-- Go's `map[string]V` as an association list. The code never relies on the order in which Go
-- iterates over a map; a list stands for one such order.
use Prim.Native.String.{String}
use mathlib.Core.Path.{◌≡◌, refl, subst₂, ◌∙◌}
use mathlib.Core.Logic.{inl, inr}
use mathlib.Core.Bool.{Bool, true, false}
use mathlib.Core.Option.{Option, none, some}
use mathlib.Core.List.{List, [], ◌∷◌}
use native.Mathlib.Omega.{arith}
use text.Mathlib.Text.{◌==◌ as str_eq}
use text.Mathlib.TextEquality.{eq_iff}
use vcdeploy.Prelude.Tests.{Bool-cases, Option-cases, if◌then◌else◌}

abbrev pub Table {ℓ} : Type ℓ → Type ℓ
Table V = List (String × V)

module _ {ℓ} {V : Type ℓ} where
  -- `v, ok := m[k]`
  unfoldable pub lookup : String → Table V → Option V
  lookup k [] = none
  lookup k ((j, v) ∷ m) = if str_eq j k then some v else lookup k m

  -- `m[k] = v`
  unfoldable pub insert : String → V → Table V → Table V
  insert k v [] = (k, v) ∷ []
  insert k v ((j, w) ∷ m) = if str_eq j k then (k, v) ∷ m else (j, w) ∷ insert k v m

  -- `delete(m, k)`
  unfoldable pub delete : String → Table V → Table V
  delete k [] = []
  delete k ((j, w) ∷ m) = let rest = delete k m in if str_eq j k then rest else (j, w) ∷ rest

  -- A write through a stored pointer: the value under `k`, if there is one, is replaced.
  unfoldable pub adjust : String → (V → V) → Table V → Table V
  adjust k f [] = []
  adjust k f ((j, w) ∷ m) = if str_eq j k then (j, f w) ∷ m else (j, w) ∷ adjust k f m

  pub lookup-insert :
      (k j : String) (v : V) (m : Table V)
      → lookup j (insert k v m) ≡ (if str_eq k j then some v else lookup j m)
  unfolding lookup insert
  lookup-insert k j v [] = refl
  lookup-insert k j v ((i, w) ∷ m) =
      ground (arith, lookup-insert k j v m, eq_iff i j, eq_iff i k, eq_iff k j)

  pub lookup-delete :
      (k j : String) (m : Table V)
      → lookup j (delete k m) ≡ (if str_eq k j then none else lookup j m)
  unfolding lookup delete
  lookup-delete k j [] = ground arith
  lookup-delete k j ((i, w) ∷ m) =
      ground (arith, eq_iff k j, eq_iff i k, eq_iff i j, lookup-delete k j m)

abbrev pub map_some {ℓ} : {V : Type ℓ} → (V → V) → Option V → Option V
map_some f none = none
map_some f (some v) = some (f v)

module _ {ℓ} {V : Type ℓ} where
  pub lookup-adjust :
      (k j : String) (f : V → V) (m : Table V)
      → lookup j (adjust k f m) ≡ (if str_eq k j then map_some f (lookup j m) else lookup j m)
  unfolding lookup adjust
  lookup-adjust k j f [] = ground arith
  lookup-adjust k j f ((i, w) ∷ m) =
      ground (arith, eq_iff k j, eq_iff i k, eq_iff i j, lookup-adjust k j f m)

pub ruleset table_laws = (lookup-insert, lookup-delete, lookup-adjust)

-- A property of every key and value that a lookup finds.
module _ {ℓ} {V : Type ℓ} where
  abbrev pub AllAt : (String → V → Type 0) → Table V → Type ℓ
  AllAt P m = (k : String) (v : V) → lookup k m ≡ some v → P k v

module _ {ℓ} {V : Type ℓ} (P : String → V → Type 0) where
  pub AllAt-insert : (k : String) (v : V) (m : Table V) → AllAt P m → P k v → AllAt P (insert k v m)
  AllAt-insert k v m all p j w h = elim (Bool-cases (str_eq k j)) [
    | inl e ↦
        let same : v ≡ w = ground (arith, lookup-insert k j v m) in
        subst₂ P ((eq_iff k j).0 e) same p
    | inr e ↦ all j w (ground (arith, lookup-insert k j v m))
  ]

  pub AllAt-delete : (k : String) (m : Table V) → AllAt P m → AllAt P (delete k m)
  AllAt-delete k m all j w h = elim (Bool-cases (str_eq k j)) [
    | inl e ↦ absurd (ground (arith, lookup-delete k j m))
    | inr e ↦ all j w (ground (arith, lookup-delete k j m))
  ]

  pub AllAt-adjust :
      (k : String) (f : V → V) (m : Table V)
      → AllAt P m
      → ((v : V) → lookup k m ≡ some v → P k v → P k (f v))
      → AllAt P (adjust k f m)
  AllAt-adjust k f m all keep j w h = elim (Bool-cases (str_eq k j)) [
    | inl e ↦ elim (Option-cases (lookup j m)) [
      | inl gone ↦ absurd (ground (arith, lookup-adjust k j f m))
      | inr (v, found) ↦
          let same : f v ≡ w = ground (arith, lookup-adjust k j f m) in
          let at_k : lookup k m ≡ some v = rw ((eq_iff k j).0 e) found in
          subst₂ P ((eq_iff k j).0 e) same (keep v at_k (all k v at_k))
    ]
    | inr e ↦ all j w (ground (arith, lookup-adjust k j f m))
  ]

-- A Go map holds a key once.
module _ {ℓ} {V : Type ℓ} where
  unfoldable pub has_key : String → Table V → Bool
  has_key k [] = false
  has_key k ((j, v) ∷ m) = if str_eq j k then true else has_key k m

  abbrev pub KeysDiffer : Table V → Type 0
  KeysDiffer [] = Unit {0}
  KeysDiffer ((k, v) ∷ m) = (has_key k m ≡ false) × KeysDiffer m

  pub has_key-insert :
      (k j : String) (v : V) (m : Table V)
      → has_key j (insert k v m) ≡ (if str_eq k j then true else has_key j m)
  unfolding has_key insert
  has_key-insert k j v [] = refl
  has_key-insert k j v ((i, w) ∷ m) = ground (arith, eq_iff i k, has_key-insert k j v m)

  has_key-adjust : (k j : String) (f : V → V) (m : Table V) → has_key j (adjust k f m) ≡ has_key j m
  unfolding has_key adjust
  has_key-adjust k j f [] = refl
  has_key-adjust k j f ((i, w) ∷ m) = ground (arith, has_key-adjust k j f m)

  has_key-delete :
      (k j : String) (m : Table V) → has_key j m ≡ false → has_key j (delete k m) ≡ false
  unfolding has_key delete
  has_key-delete k j [] h = refl
  has_key-delete k j ((i, w) ∷ m) h = ground (arith, has_key-delete k j m)

  pub has_key-delete_other :
      (k j : String) (m : Table V)
      → has_key j (delete k m) ≡ (if str_eq k j then false else has_key j m)
  unfolding has_key delete
  has_key-delete_other k j [] = ground arith
  has_key-delete_other k j ((i, w) ∷ m) =
      ground (arith, has_key-delete_other k j m, eq_iff i k, eq_iff k j, eq_iff i j)

  pub insert-KeysDiffer :
      (k : String) (v : V) (m : Table V) → KeysDiffer m → KeysDiffer (insert k v m)
  unfolding has_key insert
  insert-KeysDiffer k v [] h = (refl, tt)
  insert-KeysDiffer k v ((i, w) ∷ m) h = elim (Bool-cases (str_eq i k)) [
    | inl e ↦ rw e ((rw ((eq_iff i k).0 e) at h).0, h.1)
    | inr e ↦ rw e (
      ground (arith, has_key-insert k i v m, eq_iff i k, eq_iff k i),
      insert-KeysDiffer k v m h.1,
    )
  ]

  pub adjust-KeysDiffer :
      (k : String) (f : V → V) (m : Table V) → KeysDiffer m → KeysDiffer (adjust k f m)
  unfolding has_key adjust
  adjust-KeysDiffer k f [] h = tt
  adjust-KeysDiffer k f ((i, w) ∷ m) h = elim (Bool-cases (str_eq i k)) [
    | inl e ↦ rw e h
    | inr e ↦ rw e (has_key-adjust k i f m ∙ h.0, adjust-KeysDiffer k f m h.1)
  ]

  pub delete-KeysDiffer : (k : String) (m : Table V) → KeysDiffer m → KeysDiffer (delete k m)
  unfolding has_key delete
  delete-KeysDiffer k [] h = tt
  delete-KeysDiffer k ((i, w) ∷ m) h = elim (Bool-cases (str_eq i k)) [
    | inl e ↦ rw e (delete-KeysDiffer k m h.1)
    | inr e ↦ rw e (has_key-delete k i m h.0, delete-KeysDiffer k m h.1)
  ]

  pub delete-absent : (k : String) (m : Table V) → has_key k m ≡ false → delete k m ≡ m
  unfolding has_key delete
  delete-absent k [] h = refl
  delete-absent k ((i, w) ∷ m) h = ground (arith, delete-absent k m)

-- A loop over a map that collects the keys whose values pass a test.
module _ {ℓ} {V : Type ℓ} where
  unfoldable pub keys_where : (V → Bool) → Table V → List String
  keys_where p [] = []
  keys_where p ((k, v) ∷ m) = let rest = keys_where p m in if p v then k ∷ rest else rest

unfoldable pub listed : String → List String → Bool
listed k [] = false
listed k (j ∷ js) = if str_eq j k then true else listed k js

abbrev pub passes {ℓ} : {V : Type ℓ} → (V → Bool) → Option V → Bool
passes p none = false
passes p (some v) = p v

module _ {ℓ} {V : Type ℓ} where
  pub keys_where-absent :
      (p : V → Bool) (k : String) (m : Table V)
      → has_key k m ≡ false
      → listed k (keys_where p m) ≡ false
  unfolding has_key listed keys_where
  keys_where-absent p k [] h = refl
  keys_where-absent p k ((j, v) ∷ m) h = ground (arith, keys_where-absent p k m)

  -- A key is collected exactly if its value passes.
  pub listed-keys_where :
      (p : V → Bool) (k : String) (m : Table V)
      → KeysDiffer m
      → listed k (keys_where p m) ≡ passes p (lookup k m)
  unfolding has_key listed keys_where lookup
  listed-keys_where p k [] h = refl
  listed-keys_where p k ((j, v) ∷ m) h =
      ground (arith, listed-keys_where p k m h.1, keys_where-absent p k m, eq_iff j k)

  -- No value passes, so no key is collected.
  pub keys_where-none :
      (p : V → Bool) (m : Table V)
      → KeysDiffer m
      → ((k : String) (v : V) → lookup k m ≡ some v → p v ≡ false)
      → keys_where p m ≡ []
  unfolding keys_where lookup has_key
  keys_where-none p [] h fail = refl
  keys_where-none p ((j, v) ∷ m) h fail =
      let here : p v ≡ false = fail j v (ground (arith, eq_iff j j)) in
      let rest : keys_where p m ≡ [] =
        keys_where-none p m h.1
          (λ k w found. fail k w (ground (arith, eq_iff j k, absent k m w found))) in
      ground arith
    where
      absent : (k : String) (m : Table V) (w : V) → lookup k m ≡ some w → has_key k m ≡ true
      absent k [] w found = absurd (ground arith)
      absent k ((i, x) ∷ m) w found = ground (arith, absent k m w)

-- A loop over a map that deletes the entries whose values pass a test.
module _ {ℓ} {V : Type ℓ} where
  unfoldable pub delete_where : (V → Bool) → Table V → Table V
  delete_where p [] = []
  delete_where p ((k, v) ∷ m) = let rest = delete_where p m in if p v then rest else (k, v) ∷ rest

abbrev pub unless_passes {ℓ} : {V : Type ℓ} → (V → Bool) → Option V → Option V
unless_passes p none = none
unless_passes p (some v) = if p v then none else some v

module _ {ℓ} {V : Type ℓ} where
  delete_where-absent :
      (p : V → Bool) (k : String) (m : Table V)
      → has_key k m ≡ false
      → lookup k (delete_where p m) ≡ none
  unfolding has_key lookup delete_where
  delete_where-absent p k [] h = refl
  delete_where-absent p k ((j, v) ∷ m) h = ground (arith, delete_where-absent p k m)

  pub lookup-delete_where :
      (p : V → Bool) (k : String) (m : Table V)
      → KeysDiffer m
      → lookup k (delete_where p m) ≡ unless_passes p (lookup k m)
  unfolding has_key lookup delete_where
  lookup-delete_where p k [] h = refl
  lookup-delete_where p k ((j, v) ∷ m) h =
      ground (arith, lookup-delete_where p k m h.1, delete_where-absent p k m, eq_iff j k)

  -- An entry that fails the test stays.
  pub delete_where-keeps :
      (p : V → Bool) (k : String) (v : V) (m : Table V)
      → lookup k m ≡ some v
      → p v ≡ false
      → lookup k (delete_where p m) ≡ some v
  unfolding lookup delete_where
  delete_where-keeps p k v [] h q = absurd (ground arith)
  delete_where-keeps p k v ((j, w) ∷ m) h q = ground (arith, delete_where-keeps p k v m, eq_iff j k)

  has_key-delete_where :
      (p : V → Bool) (k : String) (m : Table V)
      → has_key k m ≡ false
      → has_key k (delete_where p m) ≡ false
  unfolding has_key delete_where
  has_key-delete_where p k [] h = refl
  has_key-delete_where p k ((j, v) ∷ m) h = ground (arith, has_key-delete_where p k m)

  pub delete_where-KeysDiffer :
      (p : V → Bool) (m : Table V) → KeysDiffer m → KeysDiffer (delete_where p m)
  unfolding has_key delete_where
  delete_where-KeysDiffer p [] h = tt
  delete_where-KeysDiffer p ((k, v) ∷ m) h = elim (Bool-cases (p v)) [
    | inl e ↦ rw e (delete_where-KeysDiffer p m h.1)
    | inr e ↦ rw e (has_key-delete_where p k m h.0, delete_where-KeysDiffer p m h.1)
  ]

  pub AllAt-delete_where :
      (P : String → V → Type 0) (p : V → Bool) (m : Table V)
      → KeysDiffer m
      → AllAt P m
      → AllAt P (delete_where p m)
  AllAt-delete_where P p m h all k v found =
      let kept = lookup-delete_where p k m h in all k v (ground arith)
