-- ===== src/Security/HostKeys/Witnesses.antt =====
-- Verifications against a store in memory, and the theorems at concrete inputs.
use vcdeploy.Prelude.{
  ℕ, String, ◌≡◌, ◌≢◌, refl, ◌↔◌, Bool, true, ◌&&◌, Option, none, some, List, [], ◌∷◌, arith,
  if◌then◌else◌, str_eq, eq_iff, Text, codes, text_eq, text_eq_refl, ℤ, pos, negsuc, eq_int,
}
use vcdeploy.Security.HostKeys.{
  PublicKey, StoredHostKey, HostKeyStore, new_host_key_verifier, untrusted_stored,
  host_key_mismatch, host_key_untrusted, host_and_port, verify_host_key,
}
use vcdeploy.Security.HostKeys.Trust.{IsTrusted, IsStore, verify_host_key_iff, first_use}

-- A list of keys, the last stored first.
abbrev is_for : Text → ℤ → String → StoredHostKey → Bool
is_for host port key_type k =
    text_eq k.hostname host && eq_int k.port port && str_eq k.key_type key_type

abbrev find_key : Text → ℤ → String → List StoredHostKey → Option StoredHostKey
find_key host port key_type [] = none
find_key host port key_type (k ∷ ks) =
    let rest = find_key host port key_type ks in
    if is_for host port key_type k then some k else rest

abbrev memory : HostKeyStore
memory = record {
  State = List StoredHostKey;
  get_host_key = λ host port key_type s. (find_key host port key_type s, none);
  store_host_key = λ k s. (k ∷ s, none);
}

is_for_refl : (k : StoredHostKey) → is_for k.hostname k.port k.key_type k ≡ true
is_for_refl k =
    ground
      (arith, text_eq_refl k.hostname, eq_int_refl k.port, (eq_iff k.key_type k.key_type).1 refl)
  where
    eq_int_refl : (n : ℤ) → eq_int n n ≡ true
    eq_int_refl (pos n) = ground arith
    eq_int_refl (negsuc n) = ground arith

IsStore-memory : IsStore memory
IsStore-memory = record { get-store = λ k s taken. rw (is_for_refl k) refl }

abbrev no_port : Text → Option (Text × Text)
no_port hostname = none

abbrev plain_print : List ℕ → Text
plain_print key = key

abbrev key : PublicKey
key = record { key_type = "ssh-ed25519"; marshal = 1 ∷ 2 ∷ [] }

abbrev other : PublicKey
other = record { key_type = "ssh-ed25519"; marshal = 1 ∷ 3 ∷ [] }

abbrev host : Text
host = codes "db.example"

first_time :
    (verify_host_key plain_print memory no_port new_host_key_verifier host key []).1
    ≡ some untrusted_stored
unfolding verify_host_key new_host_key_verifier
first_time = refl

verify_host_key_iff_example :
    let (host', port) = host_and_port no_port host in
    ((verify_host_key plain_print memory no_port new_host_key_verifier host key []).1 ≡ none)
    ↔ IsTrusted plain_print memory host' port key []
unfolding new_host_key_verifier
verify_host_key_iff_example =
    verify_host_key_iff plain_print memory no_port new_host_key_verifier host key [] refl refl

first_use_example :
    let s' = (verify_host_key plain_print memory no_port new_host_key_verifier host key []).0 in
    (other.marshal ≡ key.marshal
      → verify_host_key plain_print memory no_port new_host_key_verifier host other s'
        ≡ (s', some host_key_untrusted))
    × (other.marshal ≢ key.marshal
        → verify_host_key plain_print memory no_port new_host_key_verifier host other s'
          ≡ (s', some host_key_mismatch))
unfolding new_host_key_verifier
first_use_example =
    first_use plain_print memory no_port new_host_key_verifier host key other [] IsStore-memory refl
      refl refl first_time
