-- ===== src/Security/HostKeys/Trust.antt =====
-- internal/security/hostkeys.go: which keys are accepted, and what the first use of a host stores.
use vcdeploy.Prelude.{
  ℕ, String, ◌≡◌, ◌≢◌, refl, sym, ◌↔◌, ap, true, false, Option, none, some, List, [], ◌∷◌, arith,
  inl, inr, Bool-cases, Option-cases, length, Text, ℤ,
}
use vcdeploy.Security.HostKeys.{
  PublicKey, HostKeyInfo, StoredHostKey, key_unknown, store_failed, HostKeyStore, HostKeyVerifier,
  untrusted_stored, host_key_mismatch, host_key_untrusted, same_bytes, keys_equal, host_and_port,
  handle_key_mismatch, store_untrusted, handle_unknown_host, verify_at, verify_host_key,
}

same_bytes-eq : (a b : List ℕ) → length a ≡ length b → same_bytes a b ≡ true → a ≡ b
unfolding same_bytes
same_bytes-eq [] [] e h = refl
same_bytes-eq [] (y ∷ b) e h = absurd (omega (arith, e))
same_bytes-eq (x ∷ a) [] e h = absurd (omega (arith, e))
same_bytes-eq (x ∷ a) (y ∷ b) e h = ground (arith, same_bytes-eq a b)

same_bytes_refl : (a : List ℕ) → same_bytes a a ≡ true
unfolding same_bytes
same_bytes_refl [] = refl
same_bytes_refl (x ∷ a) = ground (arith, same_bytes_refl a)

-- The comparison of two keys says whether they are the same bytes.
pub keys_equal_iff : (a b : List ℕ) → (keys_equal a b ≡ true) ↔ (a ≡ b)
unfolding keys_equal
keys_equal_iff a b = (
  λ h. same_bytes-eq a b (ground arith) (ground arith),
  λ e. rw e (ground (arith, same_bytes_refl b)),
)

differing : (a b : List ℕ) → a ≢ b → keys_equal a b ≡ false
differing a b ne = elim (Bool-cases (keys_equal a b)) [
  | inl e ↦ absurd (ne ((keys_equal_iff a b).0 e))
  | inr e ↦ e
]

module _ (fingerprint_of : List ℕ → Text) (store : HostKeyStore) where
  -- The store has this very key for the host, port and type, as a trusted one, and does not fail.
  pub record IsTrusted (host : Text) (port : ℤ) (key : PublicKey) (s : store.State) : Type 0 where
    pub stored : StoredHostKey
    pub found : (store.get_host_key host port key.key_type s).0 ≡ some stored
    pub answered :
        (e : String) → ¬ ((store.get_host_key host port key.key_type s).1 ≡ some (store_failed e))
    pub same : stored.public_key ≡ key.marshal
    pub trusted : stored.trusted ≡ true

  abbrev info_of : Text → ℤ → PublicKey → HostKeyInfo
  info_of host port key = record {
    hostname = host;
    port = port;
    key_type = key.key_type;
    public_key = key.marshal;
    fingerprint = fingerprint_of key.marshal;
  }

  unknown-rejected :
      (v : HostKeyVerifier) (info : HostKeyInfo) (s : store.State)
      → v.require_trust ≡ true
      → ¬ ((handle_unknown_host fingerprint_of store v info s).1 ≡ none)
  unfolding handle_unknown_host store_untrusted
  unknown-rejected v info s trust h = ground arith

  verify_at_iff :
      (v : HostKeyVerifier) (host : Text) (port : ℤ) (key : PublicKey) (s : store.State)
      → v.require_trust ≡ true
      → v.on_key_mismatch ≡ none
      → ((verify_at fingerprint_of store v host port key s).1 ≡ none) ↔ IsTrusted host port key s
  unfolding verify_at handle_key_mismatch
  verify_at_iff v host port key s trust plain = (
    λ h. elim (Option-cases (store.get_host_key host port key.key_type s).0) [
      | inl gone ↦ absurd (unknown-rejected v (info_of host port key) s trust (ground arith))
      | inr (stored, there) ↦ record {
        stored = stored;
        found = there;
        answered = λ e bad. ground arith;
        same = (keys_equal_iff stored.public_key key.marshal).0 (ground arith);
        trusted = ground arith;
      }
    ],
    λ h.
        let equal : keys_equal h.stored.public_key key.marshal ≡ true =
          (keys_equal_iff h.stored.public_key key.marshal).1 h.same in
        elim (Option-cases (store.get_host_key host port key.key_type s).1) [
          | inl quiet ↦ ground (arith, h.found, h.trusted)
          | inr (key_unknown, there) ↦ ground (arith, h.found, h.trusted)
          | inr (store_failed e, there) ↦ absurd (h.answered e there)
        ],
  )

-- A key that a store has taken is what it then answers for the host, port and type of the key.
pub record IsStore (store : HostKeyStore) : Type 0 where
  pub get-store :
      (k : StoredHostKey) (s : store.State)
      → (store.store_host_key k s).1 ≡ none
      → store.get_host_key k.hostname k.port k.key_type (store.store_host_key k s).0
        ≡ (some k, none)

module _ (fingerprint_of : List ℕ → Text) (store : HostKeyStore)
    (split_host_port : Text → Option (Text × Text)) where
  -- Where trust is required and no callback is asked about mismatches, a key is accepted exactly
  -- when the store, without failing, has the same bytes for the host, port and type as a trusted
  -- key.
  pub verify_host_key_iff :
      (v : HostKeyVerifier) (hostname : Text) (key : PublicKey) (s : store.State)
      → v.require_trust ≡ true
      → v.on_key_mismatch ≡ none
      → let (host, port) = host_and_port split_host_port hostname in
        ((verify_host_key fingerprint_of store split_host_port v hostname key s).1 ≡ none)
        ↔ IsTrusted fingerprint_of store host port key s
  unfolding verify_host_key
  verify_host_key_iff v hostname key s trust plain =
      let (host, port) = host_and_port split_host_port hostname in
      verify_at_iff fingerprint_of store v host port key s trust plain

  -- What `handleUnknownHost` stores.
  abbrev pub untrusted_key : Text → ℤ → PublicKey → StoredHostKey
  untrusted_key host port key = record {
    hostname = host;
    port = port;
    key_type = key.key_type;
    public_key = key.marshal;
    fingerprint = fingerprint_of key.marshal;
    trusted = false;
    added_by = "auto";
  }

  stored_at :
      (v : HostKeyVerifier) (host : Text) (port : ℤ) (key : PublicKey) (s : store.State)
      → IsStore store
      → v.on_key_mismatch ≡ none
      → (verify_at fingerprint_of store v host port key s).1 ≡ some untrusted_stored
      → store.get_host_key host port key.key_type
          (verify_at fingerprint_of store v host port key s).0
        ≡ (some (untrusted_key host port key), none)
  unfolding verify_at handle_unknown_host store_untrusted handle_key_mismatch
  stored_at v host port key s laws plain h =
      let k = untrusted_key host port key in
      let taken : (store.store_host_key k s).1 ≡ none = ground arith in
      let after : (verify_at fingerprint_of store v host port key s).0
          ≡ (store.store_host_key k s).0 =
        ground arith in
      rw after (laws.get-store k s taken)

  again_untrusted :
      (v : HostKeyVerifier) (host : Text) (port : ℤ) (key other : PublicKey) (s : store.State)
      → v.require_trust ≡ true
      → store.get_host_key host port other.key_type s ≡ (some (untrusted_key host port key), none)
      → keys_equal key.marshal other.marshal ≡ true
      → verify_at fingerprint_of store v host port other s ≡ (s, some host_key_untrusted)
  unfolding verify_at
  again_untrusted v host port key other s trust known equal =
      ground (arith, ap (λ x. x.0) known, ap (λ x. x.1) known)

  again_mismatch :
      (v : HostKeyVerifier) (host : Text) (port : ℤ) (key other : PublicKey) (s : store.State)
      → v.on_key_mismatch ≡ none
      → store.get_host_key host port other.key_type s ≡ (some (untrusted_key host port key), none)
      → keys_equal key.marshal other.marshal ≡ false
      → verify_at fingerprint_of store v host port other s ≡ (s, some host_key_mismatch)
  unfolding verify_at handle_key_mismatch
  again_mismatch v host port key other s plain known differ =
      ground (arith, ap (λ x. x.0) known, ap (λ x. x.1) known)

  -- After a verification that stored the key of an unknown host, the same key is refused as
  -- untrusted, and another key of its type is refused as a mismatch, until the store changes; the
  -- verification changes nothing more. Trust is required, no callback is asked about mismatches,
  -- and the store answers with what it has taken.
  pub first_use :
      (v : HostKeyVerifier) (hostname : Text) (key other : PublicKey) (s : store.State)
      → IsStore store
      → v.require_trust ≡ true
      → v.on_key_mismatch ≡ none
      → other.key_type ≡ key.key_type
      → (verify_host_key fingerprint_of store split_host_port v hostname key s).1
        ≡ some untrusted_stored
      → let s' = (verify_host_key fingerprint_of store split_host_port v hostname key s).0 in
        (other.marshal ≡ key.marshal
          → verify_host_key fingerprint_of store split_host_port v hostname other s'
            ≡ (s', some host_key_untrusted))
        × (other.marshal ≢ key.marshal
            → verify_host_key fingerprint_of store split_host_port v hostname other s'
              ≡ (s', some host_key_mismatch))
  unfolding verify_host_key
  first_use v hostname key other s laws trust plain types h =
      let (host, port) = host_and_port split_host_port hostname in
      let s' = (verify_at fingerprint_of store v host port key s).0 in
      let known : store.get_host_key host port other.key_type s'
          ≡ (some (untrusted_key host port key), none) =
        rw types (stored_at v host port key s laws plain h) in
      (
        λ same.
            again_untrusted v host port key other s' trust known
              ((keys_equal_iff key.marshal other.marshal).1 (sym same)),
        λ ne.
            again_mismatch v host port key other s' plain known
              (differing key.marshal other.marshal (λ e. ne (sym e))),
      )
