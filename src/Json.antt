-- ===== src/Json.antt =====
-- The values that encoding/json decodes into `any`, and the `map[string]any` of tool arguments.
use agent_stop_and_go.Prelude.{String, Bool, none, some, Assoc, lookup}

mutual
  pub data Value : Type 0 where
    str : String → Value
    -- a float64, by its shortest decimal spelling
    number : String → Value
    bool : Bool → Value
    null : Value
    object : Members → Value
    array : Elements → Value

  pub data Members : Type 0 where
    no_members : Members
    member : String → Value → Members → Members

  pub data Elements : Type 0 where
    no_elements : Elements
    element : Value → Elements → Elements

abbrev pub Args : Type 0
Args = Assoc Value

-- s, _ := args[key].(string)
unfoldable pub string_arg : Args → String → String
unfolding lookup
string_arg args key = elim (lookup key args) [ none ↦ "" | some v ↦ elim v [ str s ↦ s | _ ↦ "" ] ]
