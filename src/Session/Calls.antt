-- ===== src/Session/Calls.antt =====
-- What each method of the session manager does, and what any history of calls keeps.
use opensomeip.Base.{
  ℕ, ◌+◌, ◌*◌, ◌≤◌, ◌<◌, ◌≡◌, ◌≢◌, refl, true, false, if◌then◌else◌, List, [], ◌∷◌, Option, none,
  some, arith, Option-cases, Bool-cases, inl, inr, length, All, ap, ◌∙◌, ==_refl, ne→==, sym,
  some_inj,
}
use opensomeip.Base.Map.{find, insert, erase, find-insert, find-erase, none-ne-some}
use opensomeip.Session.{
  Session, SessionManager, active, expired, new_manager, new_session, bump, search_free,
  get_next_session_id, create_session, get_session, remove_session, validate_session,
  update_session_activity, update_activity, cleanup_expired_sessions, sweep, is_expired,
  count_active, get_active_session_count,
}
use opensomeip.Session.Allocation.{
  IsSessionId, bump-IsSessionId, search_free-free, search_free_enough, search_free_full,
}
use native.Mathlib.Nat.{le_refl}
use mathlib.Core.Path.{subst}
use mathlib.Core.Logic.{◌↔◌}
use opensomeip.Session.Lifecycle.{
  IsWellFormed, Entries, insert-Entries, erase-Entries, sweep-Entries, find-session_id,
}

count_active-insert :
    (id : ℕ) (s : Session) (m : List (ℕ × Session))
    → find id m ≡ none
    → s.state ≡ active
    → count_active (insert id s m) ≡ count_active m + 1
unfolding count_active insert find
count_active-insert id s [] e a = ground arith
count_active-insert id s ((j, t) ∷ m) e a = ground (arith, count_active-insert id s m)

find-insert_self : (k : ℕ) (s : Session) (m : List (ℕ × Session)) → find k (insert k s m) ≡ some s
find-insert_self k s m = rw (find-insert, ==_refl)

-- What a successful `create_session` has done.
pub record Created (client now : ℕ) (m : SessionManager) (id : ℕ) (m' : SessionManager)
    : Type 0 where
  pub id_fits : IsSessionId id
  pub was_free : get_session id m ≡ none
  pub is_stored : get_session id m' ≡ some (new_session id client now)
  pub is_validated : validate_session id m' ≡ true
  pub others_kept : (j : ℕ) → j ≢ id → get_session j m' ≡ get_session j m
  pub one_more : get_active_session_count m' ≡ get_active_session_count m + 1
  pub well_formed : IsWellFormed m'

module _ (client now : ℕ) (m : SessionManager) (w : IsWellFormed m) (id : ℕ)
    (free : find id m.sessions ≡ none) (fits : IsSessionId id) where
  abbrev after : SessionManager
  after = record {
    sessions = insert id (new_session id client now) m.sessions;
    next_session_id = bump id;
  }

  after-Created : Created client now m id after
  unfolding get_session validate_session get_active_session_count
  after-Created = record {
    id_fits = fits;
    was_free = free;
    is_stored = find-insert_self id (new_session id client now) m.sessions;
    is_validated =
        rw (find-insert_self id (new_session id client now) m.sessions, validate_session);
    others_kept = λ j n. rw (find-insert, ne→== id j (λ e. n (sym e)));
    one_more = count_active-insert id (new_session id client now) m.sessions free refl;
    well_formed = record {
      entries = insert-Entries id (new_session id client now) m.sessions fits refl w.entries;
      next_id = bump-IsSessionId id;
    };
  }

create_session-result :
    (fuel client now : ℕ) (m : SessionManager) (id : ℕ)
    → search_free fuel m.sessions m.next_session_id ≡ some id
    → create_session fuel client now m
      ≡ some (
        id,
        record {
          sessions = insert id (new_session id client now) m.sessions;
          next_session_id = bump id;
        },
      )
unfolding create_session get_next_session_id
create_session-result fuel client now m id e = rw e

-- With fewer than 65535 sessions, 65535 rounds of the search are enough: a session is created under
-- an id from 1 to 65535 that was free, it is active, no other session changes, and there is one
-- active session more.
pub create_session-Created :
    (client now : ℕ) (m : SessionManager)
    → IsWellFormed m
    → length m.sessions < 65535
    → (id : ℕ) × (m' : SessionManager) × (create_session 65535 client now m ≡ some (id, m'))
      × Created client now m id m'
create_session-Created client now m w room =
    let (id, e) =
      search_free_enough 65535 m.next_session_id m.sessions w.next_id room (le_refl 65535) in
    let (free, fits) = search_free-free 65535 m.next_session_id id m.sessions w.next_id e in
    (
      id,
      _,
      create_session-result 65535 client now m id e,
      after-Created client now m w id free fits,
    )

-- With a session under each of the 65535 ids no number of rounds is enough.
pub create_session_full :
    (rounds client now : ℕ) (m : SessionManager)
    → IsWellFormed m
    → ((k : ℕ) → IsSessionId k → get_session k m ≢ none)
    → create_session rounds client now m ≡ none
unfolding create_session get_next_session_id get_session
create_session_full rounds client now m w full =
    rw (search_free_full rounds m.next_session_id m.sessions w.next_id full)

-- A removed session is gone, is no longer valid, and no other changes.
pub remove_session_lem :
    (id : ℕ) (m : SessionManager)
    → (get_session id (remove_session id m) ≡ none)
      × (validate_session id (remove_session id m) ≡ false)
      × ((j : ℕ) → j ≢ id → get_session j (remove_session id m) ≡ get_session j m)
unfolding get_session remove_session validate_session
remove_session_lem id m =
    (gone, rw (gone, validate_session), λ j n. rw (find-erase, ne→== id j (λ e. n (sym e))))
  where
    gone : find id (erase id m.sessions) ≡ none
    gone = rw (find-erase, ==_refl)

-- What is left of a session found by its id, after a sweep.
abbrev kept_unexpired : ℕ → ℕ → Option Session → Option Session
kept_unexpired timeout now none = none
kept_unexpired timeout now (some s) = if is_expired timeout now s then none else some s

find-sweep :
    (timeout now j : ℕ) (m : List (ℕ × Session))
    → Entries m
    → find j (sweep timeout now m).0 ≡ kept_unexpired timeout now (find j m)
unfolding find sweep
find-sweep timeout now j [] w = refl
find-sweep timeout now j ((i, s) ∷ m) w =
    ground (arith, find-sweep timeout now j m w.3, ap (kept_unexpired timeout now) w.2)

kept_unexpired_iff :
    (timeout now : ℕ) (found : Option Session) (s : Session)
    → (kept_unexpired timeout now found ≡ some s)
      ↔ ((found ≡ some s) × (now ≤ s.last_activity + timeout * 1000000000))
unfolding is_expired
kept_unexpired_iff timeout now none s =
    (λ e. absurd (none-ne-some e), λ h. absurd (none-ne-some h.0))
kept_unexpired_iff timeout now (some old) s = elim (Bool-cases (is_expired timeout now old)) [
  | inl stale ↦ rw stale (
    λ e. absurd (none-ne-some e),
    λ h. absurd (ground (arith, stale, h.1, ap (λ (x : Session). x.last_activity) (some_inj h.0))),
  )
  | inr fresh ↦ rw fresh (
    λ e. (e, ground (arith, fresh, ap (λ (x : Session). x.last_activity) (some_inj e))),
    λ h. h.0,
  )
]

sweep_count :
    (timeout now : ℕ) (m : List (ℕ × Session))
    → ((sweep timeout now m).1 ≡ length (sweep timeout now m).2)
      × (length (sweep timeout now m).0 + (sweep timeout now m).1 ≡ length m)
      × All (λ s. s.state ≡ expired) (sweep timeout now m).2
unfolding sweep
sweep_count timeout now [] = (refl, refl, tt)
sweep_count timeout now ((i, s) ∷ m) = ground (arith, sweep_count timeout now m)

-- The cleanup keeps, unchanged and under their ids, exactly the sessions whose last activity is no
-- further back than the timeout, in seconds; it counts those that it erases, marks each of them as
-- expired, and loses none.
pub cleanup_expired_sessions_lem :
    (timeout now : ℕ) (m : SessionManager)
    → IsWellFormed m
    → let (m', count, gone) = cleanup_expired_sessions timeout now m in
      ((j : ℕ) (s : Session)
        → (get_session j m' ≡ some s)
          ↔ ((get_session j m ≡ some s) × (now ≤ s.last_activity + timeout * 1000000000)))
      × (count ≡ length gone)
      × (length m'.sessions + count ≡ length m.sessions)
      × All (λ s. s.state ≡ expired) gone
unfolding cleanup_expired_sessions get_session
cleanup_expired_sessions_lem timeout now m w =
    let (counted, total, marked) = sweep_count timeout now m.sessions in
    (
      λ j s.
          subst
            (λ (o : Option Session).
              (o ≡ some s)
              ↔ ((find j m.sessions ≡ some s) × (now ≤ s.last_activity + timeout * 1000000000)))
            (sym (find-sweep timeout now j m.sessions w.entries))
            (kept_unexpired_iff timeout now (find j m.sessions) s),
      counted,
      total,
      marked,
    )

pub data Call : Type 0 where
  creates removes touches cleans : ℕ → Call

abbrev manager_of : Option (ℕ × SessionManager) → Option SessionManager
manager_of none = none
manager_of (some (id, m)) = some m

-- One call at a time `now`; `none` is a `create_session` that does not return within `fuel` rounds.
unfoldable pub call : ℕ → ℕ → Call → SessionManager → Option SessionManager
call fuel now (creates client) m = manager_of (create_session fuel client now m)
call fuel now (removes id) m = some (remove_session id m)
call fuel now (touches id) m = some (update_session_activity id now m)
call fuel now (cleans timeout) m = some (cleanup_expired_sessions timeout now m).0

unfoldable pub history : ℕ → List (ℕ × Call) → SessionManager → Option SessionManager
history fuel [] m = some m
history fuel ((now, c) ∷ cs) m = elim (call fuel now c m) [
  | none ↦ none
  | some m' ↦ history fuel cs m'
]

create_session-IsWellFormed :
    (fuel client now : ℕ) (m m' : SessionManager)
    → IsWellFormed m
    → manager_of (create_session fuel client now m) ≡ some m'
    → IsWellFormed m'
create_session-IsWellFormed fuel client now m m' w e =
    elim (Option-cases (search_free fuel m.sessions m.next_session_id)) [
      | inl stuck ↦ absurd (unfold create_session get_next_session_id in ground (arith, e, stuck))
      | inr (id, found) ↦
          let (free, fits) =
            search_free-free fuel m.next_session_id id m.sessions w.next_id found in
          subst IsWellFormed
            (some_inj (sym (ap manager_of (create_session-result fuel client now m id found)) ∙ e))
            (after-Created client now m w id free fits).well_formed
    ]

update_session_activity-IsWellFormed :
    (id now : ℕ) (m : SessionManager)
    → IsWellFormed m
    → IsWellFormed (update_session_activity id now m)
unfolding update_session_activity
update_session_activity-IsWellFormed id now m w = elim (Option-cases (find id m.sessions)) [
  | inl missing ↦ rw (missing, update_session_activity) w
  | inr (s, held) ↦
      let (fits, own) = find-session_id id s m.sessions w.entries held in
      rw (held, update_session_activity)
        (record {
          entries =
              insert-Entries id (update_activity now s) m.sessions fits
                (unfold update_activity in own) w.entries;
          next_id = w.next_id;
        })
]

call-IsWellFormed :
    (fuel now : ℕ) (c : Call) (m m' : SessionManager)
    → IsWellFormed m
    → call fuel now c m ≡ some m'
    → IsWellFormed m'
unfolding call
call-IsWellFormed fuel now (creates client) m m' w e =
    create_session-IsWellFormed fuel client now m m' w e
call-IsWellFormed fuel now (removes id) m m' w e = subst IsWellFormed (some_inj e) (
    unfold remove_session in
    record { entries = erase-Entries id m.sessions w.entries; next_id = w.next_id })
call-IsWellFormed fuel now (touches id) m m' w e =
    subst IsWellFormed (some_inj e) (update_session_activity-IsWellFormed id now m w)
call-IsWellFormed fuel now (cleans timeout) m m' w e = subst IsWellFormed (some_inj e) (
    unfold cleanup_expired_sessions in
    record { entries = sweep-Entries timeout now m.sessions w.entries; next_id = w.next_id })

history-keeps :
    (fuel : ℕ) (cs : List (ℕ × Call)) (m m' : SessionManager)
    → IsWellFormed m
    → history fuel cs m ≡ some m'
    → IsWellFormed m'
unfolding history
history-keeps fuel [] m m' w e = subst IsWellFormed (some_inj e) w
history-keeps fuel ((now, c) ∷ cs) m m' w e = elim (Option-cases (call fuel now c m)) [
  | inl stuck ↦ absurd (ground (arith, e, stuck))
  | inr (next, done) ↦
      history-keeps fuel cs next m' (call-IsWellFormed fuel now c m next w done)
        (rw (done, history) at e)
]

new_manager-IsWellFormed : IsWellFormed new_manager
new_manager-IsWellFormed = omega arith

-- After any history of calls that return, each session stands under its own id, once, the ids are
-- those from 1 to 65535, and so is the one that is tried next.
pub history-IsWellFormed :
    (fuel : ℕ) (cs : List (ℕ × Call)) (m : SessionManager)
    → history fuel cs new_manager ≡ some m
    → IsWellFormed m
history-IsWellFormed fuel cs m e = history-keeps fuel cs new_manager m new_manager-IsWellFormed e
