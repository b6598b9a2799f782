-- ===== src/Session.antt =====
-- include/core/session_manager.h and src/core/session_manager.cpp. Each method holds the mutex from
-- its first line to its return, so that a call is one step. Times are in nanoseconds of the steady
-- clock, which does not run back, so that `now - last_activity` is no less than 0.
pub mod Allocation
pub mod Lifecycle
pub mod Calls
mod Tests
use opensomeip.Base.{
  ℕ, zero, suc, ◌+◌, ◌-◌, ◌*◌, ◌%◌, ◌^◌, ◌≤◌, ◌<◌, ◌≡◌, Bool, true, false, ltb, ◌==◌, if◌then◌else◌,
  List, [], ◌∷◌, Option, none, some,
}
use opensomeip.Base.Map.{find, insert, erase}

pub data SessionState : Type 0 where
  active inactive expired error : SessionState

pub record Session : Type 0 where
  pub session_id : ℕ
  pub client_id : ℕ
  pub last_activity : ℕ
  pub state : SessionState

pub record SessionManager : Type 0 where
  pub sessions : List (ℕ × Session)
  pub next_session_id : ℕ

abbrev pub new_manager : SessionManager
new_manager = record { sessions = []; next_session_id = 1 }

abbrev pub is_active : SessionState → Bool
is_active active = true
is_active inactive = false
is_active expired = false
is_active error = false

unfoldable pub update_activity : ℕ → Session → Session
update_activity now s = record s { last_activity = now }

-- The timeout is in seconds.
unfoldable pub is_expired : ℕ → ℕ → Session → Bool
is_expired timeout now s = ltb (timeout * 10 ^ 9) (now - s.last_activity)

-- `candidate++`, which skips 0 at the wrap.
unfoldable pub bump : ℕ → ℕ
bump candidate = let next = (candidate + 1) % 2 ^ 16 in if next == 0 then 1 else next

-- `while (sessions_.find(candidate) != sessions_.end())`; `none` is a loop that is still running
-- when the fuel is used up.
unfoldable pub search_free : ℕ → List (ℕ × Session) → ℕ → Option ℕ
search_free zero sessions candidate = none
search_free (suc fuel) sessions candidate = elim (find candidate sessions) [
  | none ↦ some candidate
  | some s ↦ search_free fuel sessions (bump candidate)
]

abbrev taken : SessionManager → Option ℕ → Option (ℕ × SessionManager)
taken m none = none
taken m (some candidate) = some (candidate, record m { next_session_id = bump candidate })

-- There are 65535 candidates, so that many rounds see them all.
unfoldable pub get_next_session_id : ℕ → SessionManager → Option (ℕ × SessionManager)
get_next_session_id fuel m = taken m (search_free fuel m.sessions m.next_session_id)

abbrev pub new_session : ℕ → ℕ → ℕ → Session
new_session session_id client_id now = record {
  session_id = session_id;
  client_id = client_id;
  last_activity = now;
  state = active;
}

abbrev stored : ℕ → ℕ → Option (ℕ × SessionManager) → Option (ℕ × SessionManager)
stored client_id now none = none
stored client_id now (some (id, m)) =
    some (id, record m { sessions = insert id (new_session id client_id now) m.sessions })

unfoldable pub create_session : ℕ → ℕ → ℕ → SessionManager → Option (ℕ × SessionManager)
create_session fuel client_id now m = stored client_id now (get_next_session_id fuel m)

unfoldable pub get_session : ℕ → SessionManager → Option Session
get_session session_id m = find session_id m.sessions

unfoldable pub remove_session : ℕ → SessionManager → SessionManager
remove_session session_id m = record m { sessions = erase session_id m.sessions }

unfoldable pub validate_session : ℕ → SessionManager → Bool
validate_session session_id m = elim (find session_id m.sessions) [
  | none ↦ false
  | some s ↦ is_active s.state
]

unfoldable pub update_session_activity : ℕ → ℕ → SessionManager → SessionManager
update_session_activity session_id now m = elim (find session_id m.sessions) [
  | none ↦ m
  | some s ↦ record m { sessions = insert session_id (update_activity now s) m.sessions }
]

-- The sessions that stay, the count of those erased, and the erased objects, which a caller of
-- `get_session` may still hold, with the state that the loop stores in them.
unfoldable pub sweep : ℕ → ℕ → List (ℕ × Session) → List (ℕ × Session) × ℕ × List Session
sweep timeout now [] = ([], 0, [])
sweep timeout now ((id, s) ∷ rest) =
    let (kept, count, gone) = sweep timeout now rest in
    if is_expired timeout now s
    then (kept, count + 1, record s { state = expired } ∷ gone)
    else ((id, s) ∷ kept, count, gone)

unfoldable pub cleanup_expired_sessions : ℕ → ℕ → SessionManager → SessionManager × ℕ × List Session
cleanup_expired_sessions timeout now m =
    let (kept, count, gone) = sweep timeout now m.sessions in
    (record m { sessions = kept }, count, gone)

unfoldable pub count_active : List (ℕ × Session) → ℕ
count_active [] = 0
count_active ((id, s) ∷ rest) =
    let count = count_active rest in if is_active s.state then count + 1 else count

unfoldable pub get_active_session_count : SessionManager → ℕ
get_active_session_count m = count_active m.sessions
