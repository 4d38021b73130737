-- ===== src/Hub/Auth/Race.antt =====
-- hub/auth.go, handleRefresh: two requests whose statements interleave.
use sakura_assistant.Base.{
  ℕ, ◌+◌, ◌≤◌, String, ◌≡◌, refl, some, true, false, not, ◌&&◌, List, [], ◌∷◌, ◌==◌, arith, inl,
  inr, Bool-cases, eq_refl,
}
use sakura_assistant.Hub.Auth.Sessions.{
  AuthEnv, SessionRow, Auth, AuthReply, issued, invalid_request, internal, invalid_credentials,
  invalid_refresh, no_content, rate_limited, find_refresh, answer_of, ticked,
}
use sakura_assistant.Hub.Auth.Refresh.{
  read_refresh, rotate, has_live, rotate_session, expired, refresh_row,
}

-- The answer has new tokens.
abbrev pub IsIssued : AuthReply → Type 0
IsIssued (issued i) = Unit
IsIssued invalid_request = ⊥
IsIssued internal = ⊥
IsIssued invalid_credentials = ⊥
IsIssued invalid_refresh = ⊥
IsIssued no_content = ⊥
IsIssued (rate_limited n) = ⊥

-- Two requests with one token: both read the session, then one updates it, then the other.
abbrev pub read_twice : Auth → Auth
read_twice a = ticked (ticked a)

abbrev pub first_of_two : AuthEnv → String → Auth → AuthReply × Auth
first_of_two env token a = refresh_row env (read_refresh env a token) (read_twice a)

abbrev pub second_of_two : AuthEnv → String → Auth → AuthReply × Auth
second_of_two env token a =
    refresh_row env (read_refresh env (ticked a) token) (first_of_two env token a).1

found-has_live :
    (hash : String) (rows : List SessionRow) (r : SessionRow)
    → find_refresh hash rows ≡ some r
    → r.revoked ≡ false
    → has_live r.id rows ≡ true
unfolding find_refresh has_live
found-has_live hash [] r e alive = ground (arith, e)
found-has_live hash (x ∷ rest) r e alive = elim (Bool-cases (x.refresh_hash == hash)) [
  | inl same ↦ ground (arith, e, same, alive, eq_refl r.id)
  | inr other ↦ ground (arith, found-has_live hash rest r (ground (arith, e, other)) alive)
]

rotate-has_live :
    (env : AuthEnv) (tick now : ℕ) (id : String) (rows : List SessionRow)
    → has_live id (rotate env tick now id rows) ≡ has_live id rows
unfolding rotate has_live
rotate-has_live env tick now id [] = refl
rotate-has_live env tick now id (r ∷ rest) = elim (Bool-cases (r.id == id && not r.revoked)) [
  | inl hit ↦ rw (rotate, has_live, hit) (ground (arith, rotate-has_live env tick now id rest, hit))
  | inr other ↦ rw (rotate, has_live, other) (ground (arith, rotate-has_live env tick now id rest))
]

module _ (env : AuthEnv) (token label : String) (r : SessionRow)
    (up : (n : ℕ) → env.fails n ≡ false) (named : r.device_label ≡ some label)
    (alive : r.revoked ≡ false) where
  reads :
      (a : Auth)
      → find_refresh (env.hash token) a.sessions ≡ some r
      → read_refresh env a token ≡ some r
  unfolding read_refresh
  reads a found = simp (up a.tick, found, named)

  refreshes :
      (a : Auth)
      → has_live r.id a.sessions ≡ true
      → expired env (env.now a.tick) r ≡ false
      → IsIssued (refresh_row env (some r) a).0
        × (has_live r.id (refresh_row env (some r) a).1.sessions ≡ true)
        × ((refresh_row env (some r) a).1.tick ≡ a.tick + 1)
  unfolding refresh_row rotate_session answer_of
  refreshes a live fresh =
      rw (alive, fresh, up a.tick, live)
        (tt, rw (rotate-has_live env a.tick (env.now a.tick) r.id a.sessions) live, refl)

  -- When the database does not fail, and a session with a device label holds a refresh token that is not
  -- revoked and not expired at the moments of the four statements, two requests with that token which both
  -- read the session before either updates it are both answered with new tokens.
  pub read_refresh-twice :
      (a : Auth)
      → find_refresh (env.hash token) a.sessions ≡ some r
      → ((n : ℕ) → n ≤ a.tick + 3 → expired env (env.now n) r ≡ false)
      → IsIssued (first_of_two env token a).0 × IsIssued (second_of_two env token a).0
  read_refresh-twice a found fresh =
      let live = found-has_live (env.hash token) a.sessions r found alive in
      let first = refreshes (read_twice a) live (fresh (a.tick + 1 + 1) (omega arith)) in
      let after = (refresh_row env (some r) (read_twice a)).1 in
      let second = refreshes after first.1 (fresh after.tick (omega (arith, first.2))) in
      rw (reads a found, reads (ticked a) found) (first.0, second.0)
