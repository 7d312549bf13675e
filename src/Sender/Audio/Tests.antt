-- ===== src/Sender/Audio/Tests.antt =====
-- A sender with packets of two bytes and a cache of nine.
use sik_telnet_radio.Prelude.{ℕ, List, [], ◌∷◌}

abbrev pieces : List (List ℕ)
pieces = (1 ∷ []) ∷ (2 ∷ []) ∷ (3 ∷ 4 ∷ []) ∷ (5 ∷ []) ∷ []
