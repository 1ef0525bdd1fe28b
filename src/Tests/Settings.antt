-- ===== src/Tests/Settings.antt =====
-- The configuration theorem applied to the environment variables of one process.
use opencode_workspaces.Prelude.{
  ℕ, zero, suc, refl, String, true, some, [], ◌∷◌, ◌==◌, string_eq, if◌then◌else◌,
}
use opencode_workspaces.Model.{Bytes}
use opencode_workspaces.Env.{Env, DigestLaws}
use opencode_workspaces.Config.{pos, Url, Config}
use opencode_workspaces.Config.Load.{
  Host, ◌>>=◌, check, found_or, port_of, is_positive, env_or, bool_env, key, node_selector, is_web,
  load, workspace_config, config_of,
}
use opencode_workspaces.Config.Valid.{IsValid, load-IsValid}
use opencode_workspaces.Tests.Sample
use opencode_workspaces.Prelude.Strings.{trim_space}

abbrev zeros : ℕ → Bytes
zeros zero = []
zeros (suc n) = 0 ∷ zeros n

-- The digests of this environment have the length that SHA-256 gives.
instance abbrev digest_env : Env
digest_env = record Sample.test_env { sha256 = λ b. zeros 32 }

digest_laws : DigestLaws digest_env
digest_laws = record { size = λ b. refl }

abbrev variables : String → String
variables name =
    if name == "DATABASE_URL"
    then " postgres://db "
    else if name == "SESSION_SECRET"
    then "a session secret of some length...."
    else if name == "ENCRYPTION_KEY"
    then "an encryption secret of that length."
    else if name == "WORKSPACE_NODE_SELECTOR"
    then "labels"
    else ""

abbrev example_url : Url
example_url = record { scheme = "https"; host = "ws.example.com"; text = "https://ws.example.com" }

instance abbrev test_host : Host
test_host = record {
  getenv = variables;
  parse_url = λ s. some example_url;
  atoi = λ s. some (pos 4096);
  parse_duration = λ s. some (pos 15000000000);
  parse_bool = λ s. some true;
  parse_labels = λ s. some (("disk", "ssd") ∷ []);
}

abbrev loaded : Config
loaded =
    config_of example_url (zeros 32) (zeros 32)
      (workspace_config (("disk", "ssd") ∷ []) (pos 15000000000) (pos 15000000000) 4096)

load-IsValid_example : IsValid loaded
unfolding load ◌>>=◌ check found_or port_of is_positive env_or bool_env key node_selector is_web
    trim_space
load-IsValid_example = load-IsValid loaded digest_laws refl
