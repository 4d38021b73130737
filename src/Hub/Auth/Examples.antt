-- ===== src/Hub/Auth/Examples.antt =====
-- Logins at concrete inputs.
use sakura_assistant.Base.{
  ℕ, ◌≡◌, refl, some, true, false, List, [], ◌∷◌, ◌==◌, ltb, arith, eq_iff, if◌then◌else◌,
}
use Prim.Native.String.{◌++◌ as text_append}
use sakura_assistant.Hub.Auth.Limiter.{attempt, allow}
use sakura_assistant.Hub.Auth.Sessions.{
  AuthEnv, AuthConfig, SessionRow, Auth, Session, invalid_refresh, find_refresh, client_session,
  new_session, answer_of, issue_session, LoginReq, log_in, handle_login, check_password,
}
use sakura_assistant.Hub.Auth.Refresh.{
  read_refresh, rotate, has_live, rotate_session, refresh_row, handle_refresh, handle_logout,
}
use sakura_assistant.Hub.Auth.Race.{IsIssued, first_of_two, second_of_two, read_refresh-twice}
use sakura_assistant.Hub.Auth.Rotation.{handle_refresh-handle_refresh}
use sakura_assistant.Hub.Auth.Login.{
  handle_login-handle_refresh, IsNot, handle_logout-client_session,
}
use sakura_assistant.Hub.Auth.Window.{run, attempt-retry}

abbrev ten_attempts : List ℕ
ten_attempts = 9 ∷ 8 ∷ 7 ∷ 6 ∷ 5 ∷ 4 ∷ 3 ∷ 2 ∷ 1 ∷ 0 ∷ []

attempt-retry_example :
    (attempt 400000000000 (attempt 10 (run ten_attempts).times).1).0.allowed ≡ true
unfolding attempt
attempt-retry_example = attempt-retry ten_attempts 10 400000000000 (omega arith) refl (omega arith)

-- The hash of a token is the token, and each token is its kind and a digit.
abbrev desk : AuthEnv
desk = record {
  now = λ n. n;
  rand = λ kind n. text_append kind (if ltb 0 n then "1" else "0");
  fresh = λ kind n. text_append kind (if ltb 0 n then "1" else "0");
  fails = λ n. false;
  hash = λ s. s;
  compare_password = λ hash given. hash == given;
  trim = λ s. s;
  fmt_ts = λ n. "2026";
  parse_ts = λ s. some 5000;
}

abbrev admin : AuthConfig
admin = record { admin_user = "admin"; admin_hash = "sesame" }

abbrev phone : SessionRow
phone = record {
  id = "ses_a";
  token_hash = "tok_a";
  refresh_hash = "old";
  username = "admin";
  device_label = some "phone";
  created_at = "2026";
  expires_at = "2026";
  refresh_expires_at = "2026";
  revoked = false;
}

abbrev at_desk : Auth
at_desk = record { sessions = phone ∷ []; hits = []; tick = 0 }

handle_refresh-handle_refresh_example :
    (handle_refresh desk "old" (handle_refresh desk "old" at_desk).1).0 ≡ invalid_refresh
unfolding handle_refresh read_refresh find_refresh refresh_row rotate_session has_live rotate
    answer_of
handle_refresh-handle_refresh_example =
    handle_refresh-handle_refresh desk "old" "ses_a" at_desk (handle_refresh desk "old" at_desk).1
      (record {
        token = "tok_1";
        expires_at = "2026";
        refresh_token = "rtok_1";
        username = "admin";
        server_time = "2026";
      })
      refl (λ e. let same : false ≡ true = (eq_iff "rtok_1" "old").1 e in ground (arith, same))
      (λ e. refl, tt) refl

read_refresh-twice_example :
    IsIssued (first_of_two desk "old" at_desk).0 × IsIssued (second_of_two desk "old" at_desk).0
unfolding find_refresh
read_refresh-twice_example =
    read_refresh-twice desk "old" "phone" phone (λ n. refl) refl refl at_desk refl
      (λ n h. ground (arith, h))

abbrev no_label : LoginReq
no_label = record { username = "admin"; password = "sesame"; device_label = "" }

handle_login-handle_refresh_example :
    (handle_refresh desk "rtok_1" (handle_login desk admin "::1" no_label at_desk).1).0
    ≡ invalid_refresh
unfolding handle_login log_in check_password sakura_assistant.Hub.Auth.Limiter.hits_of issue_session
    new_session answer_of allow attempt find_refresh
handle_login-handle_refresh_example =
    handle_login-handle_refresh desk admin "::1" no_label at_desk
      (handle_login desk admin "::1" no_label at_desk).1
      (record {
        token = "tok_1";
        expires_at = "2026";
        refresh_token = "rtok_1";
        username = "admin";
        server_time = "2026";
      })
      refl refl refl refl

abbrev phone_session : Session
phone_session = record {
  id = "ses_a";
  username = "admin";
  device_label = some "phone";
  expires_at = 5000;
}

handle_logout-client_session_example :
    IsNot "ses_a"
      (client_session desk (handle_logout desk phone_session at_desk).1 7 "Bearer tok_a")
handle_logout-client_session_example =
    handle_logout-client_session desk phone_session at_desk 7 "Bearer tok_a" refl
