-- ===== src/Filesystem/Tools/Readers.antt =====
-- The tools that only read: they call nothing but reads, on paths within a root that allows them.
use agent_stop_and_go.Prelude.{List}
use agent_stop_and_go.Filesystem.Tools.{Call, Action}
use agent_stop_and_go.Filesystem.Tools.Guards.{Grows, Guards}

-- The calls that a handler adds to a history.
abbrev pub CallsOf : {A : Type 0} → (Call → Type 0) → Action A → List Call → Type 0
CallsOf P m s = Grows P s (m s).1
