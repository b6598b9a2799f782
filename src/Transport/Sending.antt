-- ===== src/Transport/Sending.antt =====
-- What `TcpTransport::send_data` puts on the wire.
use opensomeip.Base.{
  ℕ, zero, suc, ◌≡◌, refl, ap, ◌∙◌, List, [], ◌∷◌, ◌++◌, take, drop, take-append-drop, some,
  some_inj,
}
use opensomeip.Base.Map.{none-ne-some}
use opensomeip.Result.{success, network_error}
use opensomeip.Transport.Tcp.{SendOutcome, wrote, blocked, broken, send_data}

failed_differs : network_error ≡ success → ⊥
failed_differs e = cc

-- A success means that exactly the data has gone out, however many calls of `send` it took.
pub send_data-success :
    (outcomes : List SendOutcome) (d : List ℕ)
    → (send_data outcomes d).0 ≡ some success
    → (send_data outcomes d).1 ≡ d
unfolding send_data
send_data-success outcomes [] e = refl
send_data-success [] (x ∷ xs) e = absurd (none-ne-some e)
send_data-success (blocked ∷ outcomes) (x ∷ xs) e = send_data-success outcomes (x ∷ xs) e
send_data-success (broken ∷ outcomes) (x ∷ xs) e = absurd (failed_differs (some_inj e))
send_data-success (wrote zero ∷ outcomes) (x ∷ xs) e = absurd (failed_differs (some_inj e))
send_data-success (wrote (suc n) ∷ outcomes) (x ∷ xs) e =
    ap (λ (rest : List ℕ). x ∷ take n xs ++ rest) (send_data-success outcomes (drop n xs) e)
    ∙ ap (◌∷◌ x) (take-append-drop n xs)
