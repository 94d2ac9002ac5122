-- ===== src/Mcp/Composite/Routing/Merging.antt =====
-- What the loop over one client's tools adds to the merged tools, and what it does not lose.
use agent_stop_and_go.Prelude.{
  ℕ, zero, suc, ◌≡◌, refl, subst, String, true, none, some, List, [], ◌∷◌, ◌++◌, ◌==◌, eq_iff,
  lookup, insert, lookup-insert, get_elem?, is_some, if◌then◌else◌, arith, Option-cases, inl, inr,
}
use agent_stop_and_go.Mcp.{Tool}
use agent_stop_and_go.Mcp.Composite.{Merged, merge_tools, find_tool}

-- A name that the merged tools hold: it has an owner, finds a tool, and leads to a client.
pub record IsHeld (m : Merged) (name : String) (t : Tool) (i : ℕ) : Type 0 where
  pub owned : is_some (lookup name m.owner) ≡ true
  pub found : find_tool name m.tools ≡ some t
  pub routed : lookup name m.tool_map ≡ some i

-- A name with no owner has no tool.
abbrev pub Agrees : Merged → Type 0
Agrees m = (name : String) → lookup name m.owner ≡ none → find_tool name m.tools ≡ none

-- The merged tools with one more, as the loop adds it.
abbrev added : ℕ → String → Tool → Merged → Merged
added i server tool m = record m {
  tools = m.tools ++ record tool { server = server } ∷ [];
  owner = insert tool.name server m.owner;
  tool_map = insert tool.name i m.tool_map;
}

find_tool-append :
    (name : String) (l : List Tool) (t : Tool)
    → find_tool name (l ++ t ∷ [])
      ≡ elim (find_tool name l) [ some x ↦ some x | none ↦ if t.name == name then some t else none ]
unfolding find_tool
find_tool-append name [] t = refl
find_tool-append name (u ∷ l) t = ground (arith, find_tool-append name l t)

module _ (i : ℕ) (server : String) (tool : Tool) (m : Merged)
    (free : lookup tool.name m.owner ≡ none) where
  added-IsHeld :
      (name : String) (t : Tool) (j : ℕ)
      → IsHeld m name t j
      → IsHeld (added i server tool m) name t j
  added-IsHeld name t j h = record {
    owned =
        ground (arith, h.owned, eq_iff tool.name name, lookup-insert tool.name name server m.owner);
    found =
        ground (arith, h.found, find_tool-append name m.tools (record tool { server = server }));
    routed = ground (
      arith,
      h.owned,
      h.routed,
      eq_iff tool.name name,
      lookup-insert tool.name name i m.tool_map,
    );
  }

  added-Agrees : Agrees m → Agrees (added i server tool m)
  added-Agrees h name none_left = ground (
    arith,
    h name,
    eq_iff tool.name name,
    lookup-insert tool.name name server m.owner,
    find_tool-append name m.tools (record tool { server = server }),
  )

  added_itself :
      Agrees m → IsHeld (added i server tool m) tool.name (record tool { server = server }) i
  added_itself h = record {
    owned =
        ground
          (arith, eq_iff tool.name tool.name, lookup-insert tool.name tool.name server m.owner);
    found = ground (
      arith,
      h tool.name free,
      eq_iff tool.name tool.name,
      find_tool-append tool.name m.tools (record tool { server = server }),
    );
    routed =
        ground (arith, eq_iff tool.name tool.name, lookup-insert tool.name tool.name i m.tool_map);
  }

-- What the loop over the tools does not lose.
pub record IsGrown (m n : Merged) : Type 0 where
  pub keeps : (name : String) (t : Tool) (j : ℕ) → IsHeld m name t j → IsHeld n name t j
  pub agrees : Agrees m → Agrees n

pub merge_tools-IsGrown :
    (i : ℕ) (server : String) (l : List Tool) (m : Merged)
    → (merge_tools i server l m).0 ≡ none
    → IsGrown m (merge_tools i server l m).1
unfolding merge_tools
merge_tools-IsGrown i server [] m ok = record { keeps = λ name t j h. h; agrees = λ h. h }
merge_tools-IsGrown i server (tool ∷ l) m ok = elim (Option-cases (lookup tool.name m.owner)) [
  | inl free ↦
      let rest = merge_tools-IsGrown i server l (added i server tool m) (ground arith) in
      rw (free, merge_tools)
        (record {
          keeps = λ name t j h. rest.keeps name t j (added-IsHeld i server tool m free name t j h);
          agrees = λ h. rest.agrees (added-Agrees i server tool m free h);
        })
  | inr (owner, taken) ↦ absurd (ground arith)
]

pub merge_tools_holds :
    (i : ℕ) (server : String) (l : List Tool) (m : Merged) (k : ℕ) (t : Tool)
    → (merge_tools i server l m).0 ≡ none
    → Agrees m
    → get_elem? l k ≡ some t
    → IsHeld (merge_tools i server l m).1 t.name (record t { server = server }) i
unfolding merge_tools
merge_tools_holds i server [] m k t ok h e = absurd (ground arith)
merge_tools_holds i server (tool ∷ l) m zero t ok h e =
    elim (Option-cases (lookup tool.name m.owner)) [
      | inl free ↦
          let same : tool ≡ t = ground arith in
          rw (free, merge_tools)
            (subst
              (λ u.
                IsHeld (merge_tools i server l (added i server tool m)).1 u.name
                  (record u { server = server }) i)
              same
              ((merge_tools-IsGrown i server l (added i server tool m) (ground arith)).keeps _ _ _
                (added_itself i server tool m free h)))
      | inr (owner, taken) ↦ absurd (ground arith)
    ]
merge_tools_holds i server (tool ∷ l) m (suc k) t ok h e =
    elim (Option-cases (lookup tool.name m.owner)) [
      | inl free ↦
          rw (free, merge_tools)
            (merge_tools_holds i server l (added i server tool m) k t (ground arith)
              (added-Agrees i server tool m free h) e)
      | inr (owner, taken) ↦ absurd (ground arith)
    ]
