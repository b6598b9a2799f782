-- ===== src/Session/Lifecycle.antt =====
-- Sessions from their creation to their end.
use opensomeip.Base.{ℕ, ◌≡◌, ◌≢◌, refl, List, [], ◌∷◌, none, some, arith}
use opensomeip.Base.Map.{find, insert, erase, find-insert, find-erase}
use opensomeip.Session.{Session, SessionManager, sweep}
use opensomeip.Session.Allocation.{IsSessionId}

-- Every entry stands under an id from 1 to 65535, which its session carries, once.
abbrev pub Entries : List (ℕ × Session) → Type 0
Entries [] = Unit
Entries ((id, s) ∷ rest) =
    IsSessionId id × (s.session_id ≡ id) × (find id rest ≡ none) × Entries rest

pub record IsWellFormed (m : SessionManager) : Type 0 where
  pub entries : Entries m.sessions
  pub next_id : IsSessionId m.next_session_id

find-insert_other :
    (k j : ℕ) (v : Session) (m : List (ℕ × Session))
    → find j m ≡ none
    → k ≢ j
    → find j (insert k v m) ≡ none
find-insert_other k j v m e n = rw find-insert (ground arith)

pub insert-Entries :
    (id : ℕ) (s : Session) (m : List (ℕ × Session))
    → IsSessionId id
    → s.session_id ≡ id
    → Entries m
    → Entries (insert id s m)
unfolding insert find
insert-Entries id s [] h e w = (h, e, refl, tt)
insert-Entries id s ((j, t) ∷ m) h e w =
    ground (arith, insert-Entries id s m h e w.3, find-insert_other id j s m w.2)

pub erase-Entries : (id : ℕ) (m : List (ℕ × Session)) → Entries m → Entries (erase id m)
unfolding erase
erase-Entries id [] w = tt
erase-Entries id ((j, t) ∷ m) w = ground (arith, erase-Entries id m w.3, find-erase id j m)

find-sweep-none :
    (timeout now j : ℕ) (m : List (ℕ × Session))
    → find j m ≡ none
    → find j (sweep timeout now m).0 ≡ none
unfolding sweep find
find-sweep-none timeout now j [] e = refl
find-sweep-none timeout now j ((i, t) ∷ m) e = ground (arith, find-sweep-none timeout now j m)

pub sweep-Entries :
    (timeout now : ℕ) (m : List (ℕ × Session)) → Entries m → Entries (sweep timeout now m).0
unfolding sweep
sweep-Entries timeout now [] w = tt
sweep-Entries timeout now ((j, t) ∷ m) w =
    ground (arith, sweep-Entries timeout now m w.3, find-sweep-none timeout now j m w.2)

pub find-session_id :
    (id : ℕ) (s : Session) (m : List (ℕ × Session))
    → Entries m
    → find id m ≡ some s
    → IsSessionId id × (s.session_id ≡ id)
unfolding find
find-session_id id s [] w e = cc
find-session_id id s ((j, t) ∷ m) w e = ground (arith, find-session_id id s m w.3)
