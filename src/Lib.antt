-- ===== src/Lib.antt =====
-- A model of an agent that runs tools for a user and stops for an approval before each destructive
-- one, with the theorems on what it may do. Paths are from the repository's root.
--
-- The parts of the program, and the files that model them:
--
--   internal/conversation     Conversation: the record of a conversation and its methods. What they
--                             draw (identifiers, clock reads) is an argument.
--   internal/mcp              Mcp: tools, results, errors; Mcp/Composite: client_composite.go, the one
--                             client in front of several servers; Mcp/Stdio: client.go, a server as
--                             a process; Mcp/Http: client_http.go, a server over HTTP; Mcp/Clients:
--                             NewClient.
--   internal/config           Config: what Load does behind the parse.
--   internal/a2a              A2a: tasks of other agents; A2a/Calls: client.go.
--   internal/llm              Llm: NewClient and the constructors; Llm/Coercion: CoerceToolCallArgs;
--                             Llm/Claude, Llm/Gemini and Llm/Openai: GenerateWithTools of each client,
--                             over the POST of Llm/Exchange.
--   internal/storage          Storage: the directory of conversations.
--   internal/agent            Agent: agent.go and orchestrator.go; Session and Session/Template are
--                             the session state and the templates of orchestrator.go.
--   internal/api              Api: the handlers in front of the agent; Api/Rpc: its A2A server.
--   internal/filesystem       Filesystem: patch.go (Patch), config.go and the checks of roots (Roots),
--                             ValidatePath of security.go (Paths), the handlers of tools.go (Tools).
--   cmd/mcp-resources         Resources: the tools that add, remove and list resources in a table.
--   cmd/web                   Web: session.go; Web/Config: config.go; Web/Oauth: oauth.go; Web/Proxy:
--                             what main.go passes on to the agent.
--   values decoded from JSON  Json.
--
-- How the agent is modelled. Agent/Exec is a state monad whose result is a value, an error or a panic;
-- a failure keeps the state, as in Go. Agent/World has the state (the conversation at hand, the
-- files, the session state, the cached LLM clients, and a trace of every call that left the agent)
-- and the environment, whose answers to the LLM, the MCP servers, the other agents and the disk
-- are arbitrary functions of the trace. Agent/Effects lifts the operations of the conversation and
-- logs each call. Agent/Messages builds what the LLM sees, Agent/Simple is processSimpleMessage,
-- Agent/Node what the leaves of a tree share, with its LLM nodes and its remote nodes below it,
-- Agent/Tree the inner nodes, Agent/Process StartConversation and ProcessMessage, Agent/Approval
-- ResolveApproval. The long functions of the source are cut at their branches: Simple.turn is one
-- round of the loop, Simple.mcp_turn and Simple.a2a_turn its two kinds of tools, Approval.decide what
-- follows the checks of ResolveApproval.
--
-- How the servers are modelled. The handlers of internal/api are actions on the agent's state. The tools
-- of internal/filesystem are actions on a history of the calls of os, each answered by the environment
-- as it likes; path/filepath is a record of functions, and the theorems that need its documented
-- behaviour take that as a record of laws. So are the database and the regular expressions of
-- cmd/mcp-resources, whose tools pass the database on. The patches are functions on the lines of a text.
-- Grep and glob walk a tree that the disk lists, and take the regular expressions and filepath.Match as
-- a record of functions.
--
-- How the clients and the front end are modelled. The methods of Mcp/Stdio return, panic or wait for
-- ever, since the lock is a part of the client's state; what a client writes, reads and starts is kept
-- in it as a list of uses of the process, which decides the answers. Mcp/Http keeps its connections and
-- pauses in a list of events, and A2a/Calls its requests. The composite in front of the MCP clients takes
-- its clients as a parameter. GenerateWithTools is a function of the answer to its one request. The
-- handlers of Web are actions on the cookies of a response and on the events that leave the front end:
-- statements on the table of sessions, requests to the provider and requests to the agent.
--
-- How the proofs are built. Agent/Exec/Keeps has rules by which an action keeps a relation between
-- states if its steps do. Agent/Trace instantiates them with "the calls added satisfy P", Agent/Gate
-- says which P an agent may have to respect, and the modules below it go through the loop, the nodes,
-- the tree, the messages and the approvals. Filesystem/Tools/Guards has such rules for the tools, with
-- what an action returns beside what it calls, and Filesystem/Tools/Touching says what a tool may touch.
-- Prelude has the shared names, tests, lists, maps and texts.
--
-- Bounds. The simple loop has at most 10 rounds and a loop node its maximum or 10, as in the source, by
-- recursion on the rounds left; trees are walked by recursion on the tree. validateAncestor walks up in
-- at most one round for each character of the path and one more, which is enough. copyDir goes into
-- folders up to a depth that the environment sets, and overflows the stack beyond it. There is no other
-- fuel, and every function is total. The walk of grep and glob goes as deep as the disk says that its
-- folders go. An HTTP client makes at most twenty attempts, as in the source, by recursion on those left.
--
-- What is not modelled: the page of the web front end, the main programs, the registration of routes
-- and the documentation of the API. The agent's environment answers for the clients of LLMs, of MCP
-- servers and of other agents, whose own models stand beside it. The children of a parallel node run
-- one after the other, in an order that the environment chooses, and the methods of a client do not
-- run at once. Conversations are stored as they are, not as bytes. `%q` is left as the text in errors of
-- the configuration and the MCP clients. Cookies have no path and no SameSite, which are always the same.
-- The counters of requests are natural numbers, which are Go's ints below the largest one.
pub mod Prelude
pub mod Json
pub mod Resources
pub mod Conversation
pub mod Mcp
pub mod Config
pub mod A2a
pub mod Llm
pub mod Session
pub mod Storage
pub mod Agent
pub mod Filesystem
pub mod Api
pub mod Web
pub mod Tests
