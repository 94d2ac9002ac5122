-- ===== src/Config/Loading.antt =====
-- What a configuration that loads without an error is like.
use agent_stop_and_go.Prelude.{
  ℕ, suc, ◌≡◌, String, Bool, true, false, none, List, [], ◌∷◌, Assoc, lookup, insert, lookup-insert,
  ◌==◌, arith, All, is_some,
}
use agent_stop_and_go.Config.{McpServerConfig, Config, validate_from, validate_mcp_servers, load}

-- Each server has a name, and none has the name of another one.
abbrev pub AreNamed : List McpServerConfig → Type 0
AreNamed [] = Unit
AreNamed (s ∷ rest) =
    ((s.name == "") ≡ false)
    × All (λ (t : McpServerConfig). (s.name == t.name) ≡ false) rest
    × AreNamed rest

abbrev Unseen : Assoc Bool → List McpServerConfig → Type 0
Unseen seen l = All (λ (t : McpServerConfig). lookup t.name seen ≡ none) l

-- What is not seen with a new name has another name, and was not seen before.
Unseen-apart :
    (name : String) (seen : Assoc Bool) (l : List McpServerConfig)
    → Unseen (insert name true seen) l
    → All (λ (t : McpServerConfig). (name == t.name) ≡ false) l × Unseen seen l
Unseen-apart name seen [] h = (tt, tt)
Unseen-apart name seen (t ∷ l) (h, hs) =
    let (apart, unseen) = Unseen-apart name seen l hs in
    (
      (ground (arith, lookup-insert name t.name true seen), apart),
      (ground (arith, lookup-insert name t.name true seen), unseen),
    )

valid-AreNamed :
    (show : ℕ → String) (i : ℕ) (seen : Assoc Bool) (l : List McpServerConfig)
    → validate_from show i seen l ≡ none
    → AreNamed l × Unseen seen l
unfolding validate_from
valid-AreNamed show i seen [] h = (tt, tt)
valid-AreNamed show i seen (s ∷ l) h =
    let (named, unseen) = valid-AreNamed show (suc i) (insert s.name true seen) l (ground arith) in
    let (apart, before) = Unseen-apart s.name seen l unseen in
    ((ground arith, apart, named), (ground arith, before))

load_validates :
    (show : ℕ → String) (parsed : Config)
    → (load show parsed).0 ≡ none
    → (validate_from show 0 [] (load show parsed).1.mcp_servers ≡ none)
      × (is_some (load show parsed).1.agent ≡ true)
unfolding load validate_mcp_servers
load_validates show parsed h = ground arith

-- In a configuration that loads without an error, the agent tree is there, each MCP server has a
-- name, and no two servers have the same one.
pub loaded_names :
    (show : ℕ → String) (parsed : Config)
    → (load show parsed).0 ≡ none
    → (is_some (load show parsed).1.agent ≡ true) × AreNamed (load show parsed).1.mcp_servers
loaded_names show parsed h =
    let (valid, rooted) = load_validates show parsed h in
    (rooted, (valid-AreNamed show 0 [] _ valid).0)
