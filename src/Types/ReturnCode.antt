-- ===== src/Types/ReturnCode.antt =====
-- `enum class ReturnCode`: the sixteen codes are the bytes 0x00 to 0x0F.
use opensomeip.Base.{ℕ, Bool, ◌==◌, List, [], ◌∷◌, none, some}
use opensomeip.Base.Map.{find}
use Prim.Native.String.{String}

abbrev pub e_ok : ℕ
e_ok = 0x00

abbrev pub code_strings : List (ℕ × String)
code_strings =
    (e_ok, "E_OK")
    ∷ (0x01, "E_NOT_OK")
    ∷ (0x02, "E_UNKNOWN_SERVICE")
    ∷ (0x03, "E_UNKNOWN_METHOD")
    ∷ (0x04, "E_NOT_READY")
    ∷ (0x05, "E_NOT_REACHABLE")
    ∷ (0x06, "E_TIMEOUT")
    ∷ (0x07, "E_WRONG_PROTOCOL_VERSION")
    ∷ (0x08, "E_WRONG_INTERFACE_VERSION")
    ∷ (0x09, "E_MALFORMED_MESSAGE")
    ∷ (0x0a, "E_WRONG_MESSAGE_TYPE")
    ∷ (0x0b, "E_E2E_REPEATED")
    ∷ (0x0c, "E_E2E_WRONG_SEQUENCE")
    ∷ (0x0d, "E_E2E")
    ∷ (0x0e, "E_E2E_NOT_AVAILABLE")
    ∷ (0x0f, "E_E2E_NO_NEW_DATA")
    ∷ []

unfoldable pub to_string : ℕ → String
unfolding find
to_string code = elim (find code code_strings) [ none ↦ "UNKNOWN_RETURN_CODE" | some s ↦ s ]

unfoldable pub is_success : ℕ → Bool
is_success code = code == e_ok
