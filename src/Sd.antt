-- ===== src/Sd.antt =====
-- src/sd and include/sd: service discovery. An address is a number whose highest byte comes first on
-- the wire; the host is little-endian, so that `htons` swaps the bytes of a port.
pub mod Entries
pub mod Options
pub mod Messages
pub mod Frame
pub mod Misread
pub mod Accepted
pub mod Refused
pub mod Service
pub mod Server
pub mod Requests
pub mod Client
pub mod Arrivals
pub mod Discovery
pub mod OfferedList
pub mod Offered
pub mod Unseen
pub mod Sends
mod Tests
use opensomeip.Base.{ℕ, ◌+◌, ◌*◌, ◌/◌, ◌%◌, List, [], ◌∷◌, zero, suc}

-- `data[i] = v`
abbrev pub set : List ℕ → ℕ → ℕ → List ℕ
set [] i v = []
set (x ∷ xs) zero v = v ∷ xs
set (x ∷ xs) (suc i) v = x ∷ set xs i v

-- `htons` and `ntohs`
abbrev pub swap16 : ℕ → ℕ
swap16 v = v % 256 * 256 + v / 256 % 256

-- What a `deserialize` comes to: a value and the offset behind it, a return of `false`, or a read past
-- the end of the buffer, which the language leaves undefined.
pub data Parse {ℓ} (A : Type ℓ) : Type ℓ where
  parsed : A → ℕ → Parse A
  refused : Parse A
  fault : Parse A
