-- ===== src/Filesystem/Tools/Grep/Matches.antt =====
-- What the loop over the lines of a file finds, against a plain list of the lines that match.
use agent_stop_and_go.Prelude.{ℕ, ◌+◌, String, List, [], ◌∷◌, if◌then◌else◌}
use agent_stop_and_go.Filesystem.Tools.Grep.{GrepMatch, Query, match_at}

-- Every line that the expression matches, with its context.
unfoldable pub hits : Query → String → List String → ℕ → List String → List GrepMatch
hits q file lines i [] = []
hits q file lines i (line ∷ rest) =
    let others = hits q file lines (i + 1) rest in
    if q.regexp line then match_at q file lines i line ∷ others else others
