-- ===== src/Security/HostKeys.antt =====
-- internal/security/hostkeys.go: the verification of the keys of SSH hosts against the stored ones.
-- `net.SplitHostPort`, the fingerprint of a key and the store are arguments.
pub mod Trust
mod Witnesses
use vcdeploy.Prelude.{
  ℕ, String, Bool, true, false, not, ◌&&◌, Option, none, some, List, [], ◌∷◌, if◌then◌else◌, ◌==◌,
  length, Text, codes, ℤ, pos, eq_int, atoi_value,
}

-- `ssh.PublicKey`: what `Type` and `Marshal` answer.
pub record PublicKey : Type 0 where
  pub key_type : String
  pub marshal : List ℕ

-- `HostKeyInfo`
pub record HostKeyInfo : Type 0 where
  pub hostname : Text
  pub port : ℤ
  pub key_type : String
  pub public_key : List ℕ
  pub fingerprint : Text

-- `StoredHostKey`
pub record StoredHostKey : Type 0 where
  pub hostname : Text
  pub port : ℤ
  pub key_type : String
  pub public_key : List ℕ
  pub fingerprint : Text
  pub trusted : Bool
  pub added_by : String

-- The errors of the store: one that is `ErrHostKeyUnknown`, or another.
pub data StoreError : Type 0 where
  key_unknown : StoreError
  store_failed : String → StoreError

-- `HostKeyStore`: the two methods that the verification calls, over the state of the store.
pub record HostKeyStore : Type 1 where
  pub State : Type 0
  pub get_host_key : Text → ℤ → String → State → Option StoredHostKey × Option StoreError
  pub store_host_key : StoredHostKey → State → State × Option StoreError

-- `HostKeyVerifier`, without its store.
pub record HostKeyVerifier : Type 0 where
  pub strict_mode : Bool
  pub require_trust : Bool
  pub on_unknown_host : Option (HostKeyInfo → Option String)
  pub on_key_mismatch : Option (StoredHostKey → HostKeyInfo → Option String)

-- `NewHostKeyVerifier`
unfoldable pub new_host_key_verifier : HostKeyVerifier
new_host_key_verifier = record {
  strict_mode = false;
  require_trust = true;
  on_unknown_host = none;
  on_key_mismatch = none;
}

-- The errors of `VerifyHostKey`: `untrusted_stored` is the one of a key that has just been stored.
pub data VerifyError : Type 0 where
  checking : StoreError → VerifyError
  host_key_unknown : VerifyError
  callback_error : String → VerifyError
  storing : StoreError → VerifyError
  untrusted_stored : VerifyError
  host_key_mismatch : VerifyError
  host_key_untrusted : VerifyError

-- The loop of `keysEqual`, for keys of one length.
unfoldable pub same_bytes : List ℕ → List ℕ → Bool
same_bytes [] b = true
same_bytes (x ∷ a) [] = false
same_bytes (x ∷ a) (y ∷ b) = x == y && same_bytes a b

-- `keysEqual`
unfoldable pub keys_equal : List ℕ → List ℕ → Bool
unfolding same_bytes
keys_equal a b = if not (length a == length b) then false else same_bytes a b

-- The host and the port of `VerifyHostKey`.
unfoldable pub host_and_port : (Text → Option (Text × Text)) → Text → Text × ℤ
unfolding atoi_value
host_and_port split_host_port hostname =
    let parts : Text × Text = elim (split_host_port hostname) [
      | none ↦ (hostname, codes "22")
      | some found ↦ found
    ] in
    let (host, port_str) = parts in
    let port = atoi_value port_str in (host, if eq_int port (pos 0) then pos 22 else port)

-- `handleKeyMismatch`
unfoldable pub handle_key_mismatch :
    HostKeyVerifier → StoredHostKey → HostKeyInfo → Option VerifyError
handle_key_mismatch v stored received = elim v.on_key_mismatch [
  | none ↦ some host_key_mismatch
  | some callback ↦ elim (callback stored received) [
    | none ↦ none
    | some e ↦ some (callback_error e)
  ]
]

module _ (fingerprint_of : List ℕ → Text) (store : HostKeyStore) where
  -- `handleUnknownHost` from the store's call on.
  unfoldable pub store_untrusted :
      HostKeyVerifier → HostKeyInfo → store.State → store.State × Option VerifyError
  store_untrusted v info s =
      let (s', err) =
        store.store_host_key
          (record {
            hostname = info.hostname;
            port = info.port;
            key_type = info.key_type;
            public_key = info.public_key;
            fingerprint = info.fingerprint;
            trusted = false;
            added_by = "auto";
          })
          s in
      elim err [
        | some e ↦ (s', some (storing e))
        | none ↦ (s', if v.require_trust then some untrusted_stored else none)
      ]

  -- `handleUnknownHost`
  unfoldable pub handle_unknown_host :
      HostKeyVerifier → HostKeyInfo → store.State → store.State × Option VerifyError
  unfolding store_untrusted
  handle_unknown_host v info s =
      let go_on = store_untrusted v info s in
      if v.strict_mode then (s, some host_key_unknown) else elim v.on_unknown_host [
        | none ↦ go_on
        | some callback ↦ elim (callback info) [
          | some e ↦ (s, some (callback_error e))
          | none ↦ go_on
        ]
      ]

  -- `VerifyHostKey` with the host and the port found.
  unfoldable pub verify_at :
      HostKeyVerifier → Text → ℤ → PublicKey → store.State → store.State × Option VerifyError
  unfolding handle_unknown_host handle_key_mismatch keys_equal
  verify_at v host port key s =
      let info : HostKeyInfo = record {
        hostname = host;
        port = port;
        key_type = key.key_type;
        public_key = key.marshal;
        fingerprint = fingerprint_of key.marshal;
      } in
      let (found, err) = store.get_host_key host port key.key_type s in
      let unknown = handle_unknown_host v info s in
      elim err [
        | some (store_failed e) ↦ (s, some (checking (store_failed e)))
        | _ ↦ elim found [
          | none ↦ unknown
          | some stored ↦
              if not (keys_equal stored.public_key key.marshal)
              then (s, handle_key_mismatch v stored info)
              else if v.require_trust && not stored.trusted
              then (s, some host_key_untrusted)
              else (s, none)
        ]
      ]

  -- `VerifyHostKey`
  unfoldable pub verify_host_key :
      (Text → Option (Text × Text))
      → HostKeyVerifier
      → Text
      → PublicKey
      → store.State
      → store.State × Option VerifyError
  unfolding host_and_port verify_at
  verify_host_key split_host_port v hostname key s =
      let (host, port) = host_and_port split_host_port hostname in verify_at v host port key s
