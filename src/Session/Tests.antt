-- ===== src/Session/Tests.antt =====
-- Runs of the session manager, and instances of the theorems.
use opensomeip.Base.{
  ℕ, zero, suc, ◌+◌, ◌*◌, ◌≤◌, ◌<◌, ◌≡◌, ◌≢◌, refl, List, [], ◌∷◌, none, some, arith, length, All,
}
use mathlib.Core.Logic.{◌↔◌}
use opensomeip.Base.Map.{find, insert}
use opensomeip.Session.{
  Session, SessionManager, expired, new_session, create_session, get_next_session_id, search_free,
  bump, get_session, cleanup_expired_sessions,
}
use opensomeip.Session.Lifecycle.{IsWellFormed}
use opensomeip.Session.Calls.{
  Created, creates, history, call, create_session-Created, create_session_full,
  cleanup_expired_sessions_lem, history-IsWellFormed,
}

abbrev one_session : SessionManager
one_session = record { sessions = (1, new_session 1 7 100) ∷ []; next_session_id = 2 }

one_session-IsWellFormed : IsWellFormed one_session
unfolding find
one_session-IsWellFormed = record { entries = (omega arith, refl, refl, tt); next_id = omega arith }

-- The id after the last one is 1 again, and an id that is in use is skipped.
wraps_past_used :
    create_session 3 8 5 (record one_session { next_session_id = 65535 })
    ≡ some (
      65535,
      record {
        sessions = (1, new_session 1 7 100) ∷ (65535, new_session 65535 8 5) ∷ [];
        next_session_id = 1;
      },
    )
unfolding create_session get_next_session_id search_free bump find insert
wraps_past_used = refl

create_session-Created_example :
    (id : ℕ) × (m' : SessionManager) × (create_session 65535 8 5 one_session ≡ some (id, m'))
    × Created 8 5 one_session id m'
create_session-Created_example =
    create_session-Created 8 5 one_session one_session-IsWellFormed (omega arith)

-- A session under each of the ids up to `n`.
crowd : ℕ → List (ℕ × Session)
crowd zero = []
crowd (suc n) = (suc n, new_session (suc n) 7 100) ∷ crowd n

find-crowd : (n k : ℕ) → 0 < k → k < suc n → find k (crowd n) ≢ none
unfolding crowd find
find-crowd zero k pos h = absurd (omega arith)
find-crowd (suc n) k pos h = ground (arith, find-crowd n k)

find-crowd_above : (n k : ℕ) → n < k → find k (crowd n) ≡ none
unfolding crowd find
find-crowd_above zero k h = refl
find-crowd_above (suc n) k h = ground (arith, find-crowd_above n k)

crowd-Entries :
    (n : ℕ) → n < 65536 → IsWellFormed (record { sessions = crowd n; next_session_id = 1 })
unfolding crowd
crowd-Entries zero h = record { entries = tt; next_id = omega arith }
crowd-Entries (suc n) h = record {
  entries = (
    (omega arith, h),
    refl,
    find-crowd_above n (suc n) (omega arith),
    (crowd-Entries n (omega arith)).entries,
  );
  next_id = omega arith;
}

full_manager : SessionManager
full_manager = record { sessions = crowd 65535; next_session_id = 1 }

create_session_full_example : create_session 100 8 5 full_manager ≡ none
create_session_full_example =
    create_session_full 100 8 5 full_manager
      (unfold full_manager in crowd-Entries 65535 (omega arith))
      (unfold full_manager get_session in λ k h. find-crowd 65535 k h.0 h.1)

cleanup_expired_sessions_lem_example :
    let (m', count, gone) = cleanup_expired_sessions 1 (5 + 2000000000) one_session in
    ((j : ℕ) (s : Session)
      → (get_session j m' ≡ some s) ↔ (
          (get_session j one_session ≡ some s)
          × (5 + 2000000000 ≤ s.last_activity + 1 * 1000000000)))
    × (count ≡ length gone)
    × (length m'.sessions + count ≡ length one_session.sessions)
    × All (λ s. s.state ≡ expired) gone
cleanup_expired_sessions_lem_example =
    cleanup_expired_sessions_lem 1 (5 + 2000000000) one_session one_session-IsWellFormed

history-IsWellFormed_example : IsWellFormed one_session
history-IsWellFormed_example =
    history-IsWellFormed 9 ((100, creates 7) ∷ []) one_session
      (unfold history call create_session get_next_session_id search_free bump find insert in refl)
