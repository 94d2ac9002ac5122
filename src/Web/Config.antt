-- ===== src/Web/Config.antt =====
-- cmd/web/config.go: what LoadWebConfig does behind the read and the parse of web.yaml.
use agent_stop_and_go.Prelude.{
  ℕ, String, Bool, true, false, Option, none, some, List, [], ◌∷◌, nat_eq, ◌==◌, if◌then◌else◌,
}
use agent_stop_and_go.Mcp.{Error, errorf, wrap}
use agent_stop_and_go.Filesystem.{Checked, ok, err}

pub record OauthConfig : Type 0 where
  pub client_id : String
  pub client_secret : String
  pub auth_url : String
  pub token_url : String
  pub revoke_url : String
  pub redirect_url : String
  pub scopes : List String

pub record WebConfig : Type 0 where
  pub agent_url : String
  pub host : String
  pub port : ℕ
  pub data_dir : String
  pub oauth : Option OauthConfig

unfoldable pub is_empty : List String → Bool
is_empty [] = true
is_empty (s ∷ ss) = false

-- OAuth2Config.validate: the name of what is missing.
unfoldable pub validate : OauthConfig → Option Error
unfolding is_empty
validate o =
    if o.client_id == ""
    then some (errorf ("client_id is required" ∷ []))
    else if o.client_secret == ""
    then some (errorf ("client_secret is required" ∷ []))
    else if o.auth_url == ""
    then some (errorf ("auth_url is required" ∷ []))
    else if o.token_url == ""
    then some (errorf ("token_url is required" ∷ []))
    else if o.redirect_url == ""
    then some (errorf ("redirect_url is required" ∷ []))
    else if is_empty o.scopes
    then some (errorf ("at least one scope is required" ∷ []))
    else none

unfoldable pub validate_all : Option OauthConfig → Option Error
unfolding validate
validate_all none = none
validate_all (some o) = validate o

abbrev or_default : String → String → String
or_default s d = if s == "" then d else s

-- LoadWebConfig, behind the read and the parse.
unfoldable pub load_web_config : WebConfig → Checked WebConfig
unfolding validate_all
load_web_config cfg =
    let full : WebConfig = record cfg {
      host = or_default cfg.host "0.0.0.0";
      port = if nat_eq cfg.port 0 then 3000 else cfg.port;
      data_dir = or_default cfg.data_dir "./data";
    } in
    if cfg.agent_url == ""
    then err (errorf ("agent_url is required in web config" ∷ []))
    else elim (validate_all cfg.oauth) [
      | some e ↦ err (wrap "invalid oauth2 config" e)
      | none ↦ ok full
    ]
