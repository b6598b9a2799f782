-- ===== src/Rpc/Sessions.antt =====
-- The session table of a client that has taken `n` sessions and gave none back.
use opensomeip.Base.{
  ℕ, suc, ◌+◌, ◌%◌, ◌≤◌, ◌<◌, ◌≡◌, ◌≢◌, ◌⊎◌, refl, ap, ◌∙◌, arith, List, none, some,
}
use opensomeip.Base.Map.{find, insert, find-insert}
use opensomeip.Session.{
  Session, SessionManager, new_session, bump, search_free, get_next_session_id, create_session,
}
use opensomeip.Session.Allocation.{bump_ring, search_free_full}

-- The sessions after `n` calls are those from 1 to `n`.
pub record IsFilled (n : ℕ) (m : SessionManager) : Type 0 where
  pub next_id : m.next_session_id ≡ n % 65535 + 1
  pub few : n ≤ 65535
  pub taken : (k : ℕ) → 1 ≤ k → k ≤ n → find k m.sessions ≢ none
  pub untaken : (k : ℕ) → n < k → find k m.sessions ≡ none

-- With 65535 sessions the search does not end.
pub create_session_filled :
    (rounds client now : ℕ) (m : SessionManager)
    → IsFilled 65535 m
    → create_session rounds client now m ≡ none
unfolding create_session get_next_session_id
create_session_filled rounds client now m f =
    rw
      (search_free_full rounds m.next_session_id m.sessions
        (omega (arith, f.next_id), omega (arith, f.next_id))
        (λ k fits. f.taken k fits.0 (omega (arith, fits.1))))
      refl

abbrev pub extended : ℕ → ℕ → ℕ → SessionManager → SessionManager
extended n client now m = record {
  sessions = insert (n + 1) (new_session (n + 1) client now) m.sessions;
  next_session_id = bump (n + 1);
}

search_free-here :
    (rounds k : ℕ) (sessions : List (ℕ × Session))
    → find k sessions ≡ none
    → search_free (suc rounds) sessions k ≡ some k
unfolding search_free
search_free-here rounds k sessions free = rw (search_free, free) refl

-- With fewer, one round is enough, and the session after the last one is taken.
pub create_session_next :
    (rounds n client now : ℕ) (m : SessionManager)
    → IsFilled n m
    → n < 65535
    → create_session (suc rounds) client now m ≡ some (n + 1, extended n client now m)
unfolding create_session get_next_session_id
create_session_next rounds n client now m f room =
    let start : m.next_session_id ≡ n + 1 = omega (arith, f.next_id, room) in
    let found : search_free (suc rounds) m.sessions m.next_session_id ≡ some (n + 1) =
      ap (search_free (suc rounds) m.sessions) start
      ∙ search_free-here rounds (n + 1) m.sessions (f.untaken (n + 1) (omega arith)) in
    rw (create_session, get_next_session_id, found) refl

pub extended-IsFilled :
    (n client now : ℕ) (m : SessionManager)
    → IsFilled n m
    → n < 65535
    → IsFilled (n + 1) (extended n client now m)
extended-IsFilled n client now m f room = record {
  next_id = bump_ring (n + 1) (omega arith, omega (arith, room));
  few = omega (arith, room);
  taken = λ k low high. rw find-insert (ground (arith, f.taken k low));
  untaken = λ k above. rw find-insert (ground (arith, f.untaken k));
}

pub room_or_full : (n : ℕ) → n ≤ 65535 → (n < 65535) ⊎ (n ≡ 65535)
room_or_full n h = ground arith

pub create_session_zero :
    (client now : ℕ) (m : SessionManager) → create_session 0 client now m ≡ none
unfolding create_session get_next_session_id search_free
create_session_zero client now m = refl
