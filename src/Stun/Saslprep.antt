-- ===== src/Stun/Saslprep.antt =====
-- SASLprep of coturn/src/client/ns_turn_msg.c: user names and passwords before they are hashed.
pub mod Laws
use p2p_cluster.Common.{
  ℕ, ltb, leb, ◌==◌, ◌&&◌, ◌||◌, if◌then◌else◌, Option, none, some, List, [], ◌∷◌,
}

unfoldable pub before : ℕ → Option (List ℕ) → Option (List ℕ)
before c none = none
before c (some cs) = some (c ∷ cs)

-- The bytes of the string before its 0, and those that stand there after a call that returns 0;
-- `none` is -1, which leaves the string rewritten up to the refused byte. `strout` never passes
-- `strin`, so each byte is read before it is overwritten.
unfoldable pub saslprep : List ℕ → Option (List ℕ)
saslprep [] = some []
saslprep (c ∷ cs) =
    let rest = saslprep cs in
    if c == 0xAD
    then rest
    else if c == 0xA0 || c == 0x20
    then before 0x20 rest
    else if c == 0x7F
    then none
    else if ltb c 0x1F
    then none
    else if leb 0x80 c && leb c 0x9F
    then none
    else before c rest
