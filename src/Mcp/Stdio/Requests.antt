-- ===== src/Mcp/Stdio/Requests.antt =====
-- The identifiers of the requests that a client writes.
use agent_stop_and_go.Prelude.{
  ℕ, ◌≤◌, ◌<◌, ◌≡◌, ◌⊎◌, inl, inr, refl, Bool, true, false, Option, none, some, List, [], ◌∷◌,
  if◌then◌else◌, arith,
}
use agent_stop_and_go.Mcp.{Error, wrap}
use agent_stop_and_go.Filesystem.{ok, err}
use agent_stop_and_go.Mcp.Stdio.{
  StdioClient, Process, Method, Outcome, returned, panicked, blocked, Request, Use, stdin_pipe,
  stdout_pipe, launch, read_bytes, close_stdin, kill, wait, write, pure, throw, unlocked, locking,
  go_on, try, ◌>>=◌, does, write_line, unless_error, send, receive,
}

-- The identifier of a request, 0 for a notification and for all else.
abbrev pub id_of : Use → ℕ
id_of (write r) = r.id
id_of stdin_pipe = 0
id_of stdout_pipe = 0
id_of launch = 0
id_of read_bytes = 0
id_of close_stdin = 0
id_of kill = 0
id_of wait = 0

-- From the last use to the first, the identifiers other than 0 fall strictly, from below a bound.
abbrev pub Ascending : ℕ → List Use → Type 0
Ascending n [] = Unit
Ascending n (u ∷ us) =
    ((id_of u ≡ 0) × Ascending n us) ⊎ ((0 < id_of u) × (id_of u < n) × Ascending (id_of u) us)

pub record IsNumbered (c : StdioClient) : Type 0 where
  pub positive : 0 < c.next_id
  pub ascending : Ascending c.next_id c.uses

pub Ascending-weaken : (m n : ℕ) (us : List Use) → m ≤ n → Ascending m us → Ascending n us
Ascending-weaken m n [] h k = tt
Ascending-weaken m n (u ∷ us) h (inl (z, k)) = inl (z, Ascending-weaken m n us h k)
Ascending-weaken m n (u ∷ us) h (inr (p, l, k)) = inr (p, omega arith, k)

abbrev pub Numbers : {A : Type 0} → Method A → Type 0
Numbers m = (c : StdioClient) → IsNumbered c → IsNumbered (m c).1

quiet : (u : Use) (n : ℕ) (us : List Use) → id_of u ≡ 0 → Ascending n us → Ascending n (u ∷ us)
quiet u n us h k = inl (h, k)

module _ {A : Type 0} where
  pub pure-Numbers : (a : A) → Numbers (pure a)
  unfolding pure
  pure-Numbers a c h = h

  unlocked-IsNumbered : (r : Outcome A × StdioClient) → IsNumbered r.1 → IsNumbered (unlocked r).1
  unfolding unlocked
  unlocked-IsNumbered (returned x, c) h = record { positive = h.positive; ascending = h.ascending }
  unlocked-IsNumbered (panicked, c) h = record { positive = h.positive; ascending = h.ascending }
  unlocked-IsNumbered (blocked, c) h = h

  pub if-IsNumbered :
      (b : Bool) (x y : Outcome A × StdioClient)
      → IsNumbered x.1
      → IsNumbered y.1
      → IsNumbered (if b then x else y).1
  if-IsNumbered true x y h k = h
  if-IsNumbered false x y h k = k

  pub locking-Numbers : (m : Method A) → Numbers m → Numbers (locking m)
  unfolding locking
  locking-Numbers m k c h = if-IsNumbered c.locked _ _ h (
      unlocked-IsNumbered (m (record c { locked = true }))
        (k _ (record { positive = h.positive; ascending = h.ascending })))

pub throw-Numbers : (A : Type 0) (e : Error) → Numbers (throw {A = A} e)
unfolding throw
throw-Numbers A e c h = h

module _ {A B : Type 0} where
  pub go_on-IsNumbered :
      (f : A → Method B) (h : Error → Method B) (r : Outcome A × StdioClient)
      → IsNumbered r.1
      → ((a : A) → Numbers (f a))
      → ((e : Error) → Numbers (h e))
      → IsNumbered (go_on f h r).1
  unfolding go_on
  go_on-IsNumbered f h (returned (ok a), c) k m n = m a c k
  go_on-IsNumbered f h (returned (err e), c) k m n = n e c k
  go_on-IsNumbered f h (panicked, c) k m n = k
  go_on-IsNumbered f h (blocked, c) k m n = k

  pub try-Numbers :
      (m : Method A) (f : A → Method B) (h : Error → Method B)
      → Numbers m
      → ((a : A) → Numbers (f a))
      → ((e : Error) → Numbers (h e))
      → Numbers (try m f h)
  unfolding try
  try-Numbers m f h k l n c s = go_on-IsNumbered f h (m c) (k c s) l n

  pub bind-Numbers :
      (m : Method A) (f : A → Method B) → Numbers m → ((a : A) → Numbers (f a)) → Numbers (m >>= f)
  unfolding ◌>>=◌
  bind-Numbers m f k l = try-Numbers m f throw k l (throw-Numbers B)

module _ (proc : Process) where
  pub does-Numbers : (u : Use) → id_of u ≡ 0 → Numbers (does proc u)
  unfolding does
  does-Numbers u z c h = record {
    positive = h.positive;
    ascending = quiet u c.next_id c.uses z h.ascending;
  }

  pub receive-Numbers : Numbers (receive proc)
  unfolding receive
  receive-Numbers c h = record {
    positive = h.positive;
    ascending = quiet read_bytes c.next_id c.uses refl h.ascending;
  }

  -- A message whose identifier is 0, or is new.
  abbrev pub IsNew : Request → StdioClient → Type 0
  IsNew req c = (req.id ≡ 0) ⊎ ((0 < req.id) × (req.id < c.next_id) × Ascending req.id c.uses)

  write-IsNumbered :
      (req : Request) (c : StdioClient)
      → IsNumbered c
      → IsNew req c
      → IsNumbered (does proc (write req) c).1
  unfolding does
  write-IsNumbered req c h (inl z) = record {
    positive = h.positive;
    ascending = inl (z, h.ascending);
  }
  write-IsNumbered req c h (inr new) = record { positive = h.positive; ascending = inr new }

  pub send-IsNumbered :
      (req : Request) (c : StdioClient)
      → IsNumbered c
      → IsNew req c
      → IsNumbered (send proc req c).1
  unfolding send unless_error throw write_line try
  send-IsNumbered req c h new = marshalled (proc.marshal_error req)
    where
      marshalled :
          (o : Option Error)
          → IsNumbered (unless_error proc o "failed to marshal message" (write_line proc req) c).1
      marshalled (some e) = h
      marshalled none =
          if-IsNumbered c.stdin _ _
            (go_on-IsNumbered pure _ (does proc (write req) c) (write-IsNumbered req c h new)
              pure-Numbers (λ e. throw-Numbers Bool (wrap "failed to write to MCP server" e)))
            h
