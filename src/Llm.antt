-- ===== src/Llm.antt =====
-- internal/llm/client.go, and the constructors of the three clients in claude.go, gemini.go and
-- openai.go. A client is what its constructor was given; the modules below have its call.
pub mod Coercion
pub mod Exchange
pub mod Claude
pub mod Gemini
pub mod Openai
use agent_stop_and_go.Prelude.{
  String, Option, none, some, [], ◌∷◌, Assoc, lookup, ◌==◌, cut, if◌then◌else◌,
}
use agent_stop_and_go.Mcp.{Error, errorf}
use agent_stop_and_go.Json.{Args}

pub record LlmMessage : Type 0 where
  pub role : String
  pub content : String

pub record LlmToolCall : Type 0 where
  pub name : String
  pub arguments : Args

pub record Response : Type 0 where
  pub text : String
  pub tool_call : Option LlmToolCall

pub record ProviderConfig : Type 0 where
  pub name : String
  pub base_url : String
  pub api_key_env : String
  pub headers : Assoc String

pub data LlmClient : Type 0 where
  gemini : (model api_key : String) → LlmClient
  claude : (model api_key : String) → LlmClient
  openai_compatible : ProviderConfig → (model : String) → LlmClient

-- A constructor's result.
pub data Made : Type 0 where
  made : LlmClient → Made
  failed : Error → Made

-- the registry `providers`
abbrev pub providers : Assoc ProviderConfig
providers =
    (
      "openai",
      record {
        name = "openai";
        base_url = "https://api.openai.com/v1";
        api_key_env = "OPENAI_API_KEY";
        headers = [];
      },
    )
    ∷ (
      "mistral",
      record {
        name = "mistral";
        base_url = "https://api.mistral.ai/v1";
        api_key_env = "MISTRAL_API_KEY";
        headers = [];
      },
    )
    ∷ (
      "ollama",
      record {
        name = "ollama";
        base_url = "http://localhost:11434/v1";
        api_key_env = "";
        headers = [];
      },
    )
    ∷ (
      "openrouter",
      record {
        name = "openrouter";
        base_url = "https://openrouter.ai/api/v1";
        api_key_env = "OPENROUTER_API_KEY";
        headers =
            ("HTTP-Referer", "https://github.com/agentic-platform")
            ∷ ("X-Title", "Agent Stop and Go")
            ∷ [];
      },
    )
    ∷ []

-- `getenv` is os.Getenv.
module _ (getenv : String → String) where
  unfoldable pub new_gemini_client : String → Made
  new_gemini_client model =
      let api_key = getenv "GEMINI_API_KEY" in
      if api_key == ""
      then failed (errorf ("GEMINI_API_KEY environment variable not set" ∷ []))
      else made (gemini model api_key)

  unfoldable pub new_claude_client : String → Made
  new_claude_client model =
      let api_key = getenv "ANTHROPIC_API_KEY" in
      if api_key == ""
      then failed (errorf ("ANTHROPIC_API_KEY environment variable not set" ∷ []))
      else made (claude model api_key)

  unfoldable pub new_openai_compatible_client : ProviderConfig → String → LlmClient
  new_openai_compatible_client cfg model =
      let env_url = getenv "OLLAMA_BASE_URL" in
      if cfg.name == "ollama"
      then (if env_url == ""
          then openai_compatible cfg model
          else openai_compatible (record cfg { base_url = env_url }) model)
      else openai_compatible cfg model

  -- NewClient
  unfoldable pub new_client : String → Made
  unfolding new_gemini_client new_claude_client new_openai_compatible_client cut lookup
  new_client model = elim (cut ":" model) [
    | none ↦ failed (errorf ("invalid model format " ∷ model ∷ []))
    | some (provider, model_name) ↦
        if provider == "google"
        then new_gemini_client model_name
        else if provider == "anthropic"
        then new_claude_client model_name
        else elim (lookup provider providers) [
          | none ↦ failed (errorf ("unknown LLM provider: " ∷ provider ∷ []))
          | some cfg ↦ made (new_openai_compatible_client cfg model_name)
        ]
  ]
