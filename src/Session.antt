-- ===== src/Session.antt =====
-- SessionState of internal/agent/orchestrator.go. A missing key reads as "", as in Go.
pub mod Template
use agent_stop_and_go.Prelude.{String, Option, none, some, List, [], ◌∷◌, Assoc, lookup, insert}

abbrev pub SessionState : Type 0
SessionState = Assoc String

abbrev pub new_session_state : SessionState
new_session_state = []

unfoldable pub get : SessionState → String → String
unfolding lookup
get s key = elim (lookup key s) [ none ↦ "" | some value ↦ value ]

unfoldable pub set : SessionState → String → String → SessionState
unfolding insert
set s key value = insert key value s

-- Snapshot copies the map entry by entry.
unfoldable pub snapshot : SessionState → Assoc String
snapshot [] = []
snapshot ((k, v) ∷ rest) = (k, v) ∷ snapshot rest

-- Load
unfoldable pub load : SessionState → Assoc String → SessionState
unfolding set
load s [] = s
load s ((k, v) ∷ rest) = load (set s k v) rest
