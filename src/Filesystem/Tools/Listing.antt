-- ===== src/Filesystem/Tools/Listing.antt =====
-- ListRoots of internal/filesystem/tools.go. The maps of Go are walked in any order; the sort makes
-- the result the same.
use Prim.Native.Nat.{Ordering}
use Prim.Native.String.{compare}
use agent_stop_and_go.Prelude.{String, Bool, List, [], ◌∷◌, Assoc}
use agent_stop_and_go.Filesystem.Roots.{ResolvedRoot}
use agent_stop_and_go.Filesystem.Tools.{Server}

pub record RootInfo : Type 0 where
  pub name : String
  pub allowed_tools : List String

-- sort.Strings
unfoldable pub insert_sorted : String → List String → List String
insert_sorted s [] = s ∷ []
insert_sorted s (t ∷ ts) =
    let later = insert_sorted s ts in
    elim (compare t s) [ Ordering.gt ↦ s ∷ t ∷ ts | _ ↦ t ∷ later ]

-- The keys of a map, sorted.
unfoldable pub sorted_keys : Assoc Bool → List String
unfolding insert_sorted
sorted_keys [] = []
sorted_keys ((key, value) ∷ rest) = insert_sorted key (sorted_keys rest)

-- sort.Slice by the name
unfoldable pub insert_root : RootInfo → List RootInfo → List RootInfo
insert_root r [] = r ∷ []
insert_root r (s ∷ ss) =
    let later = insert_root r ss in
    elim (compare s.name r.name) [ Ordering.gt ↦ r ∷ s ∷ ss | _ ↦ s ∷ later ]

unfoldable pub root_infos : Assoc ResolvedRoot → List RootInfo
unfolding insert_root sorted_keys
root_infos [] = []
root_infos ((key, r) ∷ rest) =
    insert_root (record { name = r.name; allowed_tools = sorted_keys r.allowed_tools })
      (root_infos rest)

-- ListRoots
unfoldable pub list_roots : Server → List RootInfo
unfolding root_infos
list_roots server = root_infos server.roots
