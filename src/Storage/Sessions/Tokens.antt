-- ===== src/Storage/Sessions/Tokens.antt =====
-- internal/storage/memory_users.go: sessions are found by their tokens until they expire or are deleted.
use vcdeploy.Prelude.{
  ℕ, ◌≤◌, String, ◌≡◌, ◌≢◌, refl, Option, none, some, inl, inr, Bool-cases, arith, eq_iff, lookup,
  delete_where, lookup-insert, if◌then◌else◌, str_eq, ltb, KeysDiffer, lookup-delete_where,
  unless_passes, length, ap, ◌∙◌,
}
use vcdeploy.Storage.Types.{Session, MemoryStore, ok, err, not_found}
use vcdeploy.Storage.Sessions.{
  create_session, created_session, get_session_by_token, live_session, values_where, has_expired_by,
  delete_expired_sessions,
}

-- A session that is created with a token comes back by this token up to and at its expiry, with the
-- token as its identifier and the time of the creation as its first and last use, and is not found
-- after its expiry; other tokens give what they gave.
pub get_session_by_token-create_session :
    (now : ℕ) (session : Session) (s : MemoryStore) (at : ℕ) (token : String)
    → session.token ≢ ""
    → get_session_by_token at token (create_session now session s).1 ≡ (
        if str_eq session.token token
        then (if ltb session.expires_at at
            then err not_found
            else ok (record session { id = session.token; created_at = now; last_used = now }))
        else get_session_by_token at token s)
unfolding get_session_by_token create_session
get_session_by_token-create_session now session s at token named = ground (
  arith,
  lookup-insert session.token token (created_session now session) s.sessions,
  eq_iff session.token "",
)

sessions-delete_expired_sessions :
    (now : ℕ) (s : MemoryStore)
    → (delete_expired_sessions now s).1.sessions
      ≡ delete_where (λ session. has_expired_by now session) s.sessions
unfolding delete_expired_sessions
sessions-delete_expired_sessions now s =
    elim (Bool-cases
      (ltb 0 (length (values_where (λ session. has_expired_by now session) s.sessions)))) [
        | inl e ↦ rw e refl
        | inr e ↦ rw e refl
      ]

live_session-unless_passes :
    (now at : ℕ) (o : Option Session)
    → now ≤ at
    → live_session at (unless_passes (λ session. has_expired_by now session) o) ≡ live_session at o
live_session-unless_passes now at none later = refl
live_session-unless_passes now at (some session) later = ground arith

-- The removal of the sessions that have expired by a time changes no answer at that time or later,
-- for a map that holds no token twice.
pub get_session_by_token-delete_expired_sessions :
    (now at : ℕ) (token : String) (s : MemoryStore)
    → KeysDiffer s.sessions
    → now ≤ at
    → get_session_by_token at token (delete_expired_sessions now s).1
      ≡ get_session_by_token at token s
unfolding get_session_by_token delete_expired_sessions
get_session_by_token-delete_expired_sessions now at token s once later =
    ap (λ m. live_session at (lookup token m)) (sessions-delete_expired_sessions now s)
    ∙ ap (λ o. live_session at o)
        (lookup-delete_where (λ session. has_expired_by now session) token s.sessions once)
    ∙ live_session-unless_passes now at (lookup token s.sessions) later
