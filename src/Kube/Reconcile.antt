-- ===== src/Kube/Reconcile.antt =====
-- Reconcile and the ensure methods of internal/kube/controller.go.
pub mod Scaled
pub mod Lasts
pub mod Kept
use opencode_workspaces.Prelude.{
  ℕ, ◌+◌, String, Bool, true, false, Option, none, some, List, [], ◌∷◌, ◌==◌, string_eq,
  if◌then◌else◌,
}
use opencode_workspaces.Prelude.Decimal.{decimal}
use opencode_workspaces.Model.{Bytes, Workspace, WorkspaceConfiguration}
use opencode_workspaces.Cluster.{Labels, Claim, Secret, Service, Deployment}
use opencode_workspaces.Env.{Env}
use opencode_workspaces.Rows.{upsert, remove}
use opencode_workspaces.World.{
  Error, Result, ok, err, missing, not_found, failed, M, pure, raise, ◌>>=◌, ◌>>◌, attempt,
  random_bytes,
}
use opencode_workspaces.World.Api.{Kind, get, create, update, label, label_key}
use opencode_workspaces.Database.Workspaces.{workspace_configuration}
use opencode_workspaces.Kube.Objects.{
  Controller, meta, new_claim, new_service, new_deployment, secret_name,
}

abbrev pub claims : Kind Claim
claims = record {
  name_of = λ a. a.meta.name;
  all = λ c. c.claims;
  put = λ as' c. record c { claims = as' };
}

abbrev pub secrets : Kind Secret
secrets = record {
  name_of = λ a. a.meta.name;
  all = λ c. c.secrets;
  put = λ as' c. record c { secrets = as' };
}

abbrev pub services : Kind Service
services = record {
  name_of = λ a. a.meta.name;
  all = λ c. c.services;
  put = λ as' c. record c { services = as' };
}

abbrev pub deployments : Kind Deployment
deployments = record {
  name_of = λ a. a.meta.name;
  all = λ c. c.deployments;
  put = λ as' c. record c { deployments = as' };
}

-- After a Get: nothing to do, the action for an object that is missing, or the error.
abbrev pub if_missing : {A : Type 0} → M (Unit {0}) → Result A → M (Unit {0})
if_missing m (ok a) = pure tt
if_missing m (err missing) = m
if_missing m (err e) = raise e

abbrev pub entry_key : String × Bytes → String
entry_key (k, v) = k

-- m[key] = value
unfoldable pub set_entry : String → Bytes → List (String × Bytes) → List (String × Bytes)
set_entry k v entries = upsert entry_key k (λ _. (k, v)) entries

unfoldable pub set_label : String → String → Labels → Labels
set_label k v labels = upsert label_key k (λ _. (k, v)) labels

abbrev pub revision_annotation : String
revision_annotation = "opencode.workspaces/config-revision"

-- The configuration of a workspace, if it has one; every other error counts.
abbrev pub optional_configuration :
    Result WorkspaceConfiguration → M (Option WorkspaceConfiguration)
optional_configuration (ok c) = pure (some c)
optional_configuration (err not_found) = pure none
optional_configuration (err e) = raise e

abbrev pub revision_text : Option WorkspaceConfiguration → String
revision_text none = "0"
revision_text (some c) = decimal c.revision

module _ ⦃env : Env⦄ where
  unfoldable pub ensure_pvc : Controller → Workspace → M (Unit {0})
  ensure_pvc c w = attempt (get claims w.resource_name) (if_missing (create claims (new_claim c w)))

  -- The entries that the configuration puts into the secret, or takes out of it.
  unfoldable pub configured_entries :
      Option WorkspaceConfiguration → List (String × Bytes) → List (String × Bytes)
  configured_entries none entries =
      remove entry_key "ai-gateway.key" (remove entry_key "opencode.json" entries)
  configured_entries (some c) entries =
      set_entry "ai-gateway.key" (env.bytes c.api_key)
        (set_entry "opencode.json" c.opencode_json entries)

  abbrev pub optional_entries : Option WorkspaceConfiguration → List (String × Bytes)
  optional_entries none = []
  optional_entries (some c) =
      ("opencode.json", c.opencode_json) ∷ ("ai-gateway.key", env.bytes c.api_key) ∷ []

  unfoldable pub new_secret :
      Controller → Workspace → Option WorkspaceConfiguration → Bytes → Secret
  new_secret c w configuration password = record {
    meta = record (meta c w) {
      name = secret_name w;
      annotations = (revision_annotation, revision_text configuration) ∷ [];
    };
    kind = "Opaque";
    entries =
        ("username", env.bytes "opencode")
        ∷ ("password", env.bytes (env.encode_url password))
        ∷ optional_entries configuration;
  }

  -- A secret of an older revision, brought up to date: its password stays.
  unfoldable pub revised_secret : Option WorkspaceConfiguration → Secret → Secret
  revised_secret configuration s = record s {
    meta = record s.meta {
      annotations = set_label revision_annotation (revision_text configuration) s.meta.annotations;
    };
    entries = configured_entries configuration s.entries;
  }

  abbrev pub secret_for :
      Controller → Workspace → Option WorkspaceConfiguration → Result Secret → M (Unit {0})
  secret_for c w configuration (ok s) =
      if label revision_annotation s.meta.annotations == revision_text configuration
      then pure tt
      else update secrets (secret_name w) (λ _. revised_secret configuration s)
  secret_for c w configuration (err missing) = do
    password ← random_bytes 32
    create secrets (new_secret c w configuration password)
  secret_for c w configuration (err e) = raise e

  unfoldable pub ensure_secret : Controller → Workspace → M (Unit {0})
  ensure_secret c w = do
    configuration ← attempt (workspace_configuration w.user_id) optional_configuration
    attempt (get secrets (secret_name w)) (secret_for c w configuration)

  unfoldable pub ensure_service : Controller → Workspace → M (Unit {0})
  ensure_service c w =
      attempt (get services w.resource_name) (if_missing (create services (new_service c w)))

  -- What the API server keeps of a deployment when it takes an update: a new version, and the status.
  abbrev pub replaced : Deployment → Deployment → Deployment
  replaced new old = record new {
    resource_version = old.resource_version + 1;
    status_replicas = old.status_replicas;
    ready_replicas = old.ready_replicas;
  }

  abbrev pub deployment_for : Controller → Workspace → Result Deployment → M (Unit {0})
  deployment_for c w (ok current) =
      update deployments w.resource_name (replaced (new_deployment c w))
  deployment_for c w (err missing) = create deployments (new_deployment c w)
  deployment_for c w (err e) = raise e

  unfoldable pub ensure_deployment : Controller → Workspace → M (Unit {0})
  ensure_deployment c w = attempt (get deployments w.resource_name) (deployment_for c w)

  unfoldable pub reconcile : Controller → Workspace → M (Unit {0})
  reconcile c w = do ensure_pvc c w; ensure_secret c w; ensure_service c w; ensure_deployment c w
