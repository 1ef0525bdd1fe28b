-- ===== src/World/Api.antt =====
-- Calls of the Kubernetes API: Get, List, Create, Update and Delete of the objects of a namespace,
-- which it keeps under their names. Each call is one that the environment may fail.
use opencode_workspaces.Prelude.{
  String, Bool, Option, none, some, List, [], ◌∷◌, ◌++◌, ◌==◌, string_eq, keep, if◌then◌else◌,
}
use opencode_workspaces.Cluster.{Cluster, Labels}
use opencode_workspaces.Env.{Env}
use opencode_workspaces.Rows.{find, has, modify, remove}
use opencode_workspaces.World.{Result, ok, err, missing, failed, World, M, ◌>>◌, api_call}

abbrev pub label_key : String × String → String
label_key (k, v) = k

abbrev pub label_or_empty : Option (String × String) → String
label_or_empty none = ""
label_or_empty (some (k, v)) = v

-- m[key] of a map[string]string
unfoldable pub label : String → Labels → String
label k labels = label_or_empty (find label_key k labels)

-- Whether labels meet a selector, in which no value is empty.
unfoldable pub selects : Labels → Labels → Bool
selects [] labels = Bool.true
selects ((k, v) ∷ rest) labels = if label k labels == v then selects rest labels else Bool.false

abbrev pub found_object : {A : Type 0} → Option A → Result A
found_object none = err missing
found_object (some a) = ok a

abbrev pub put_cluster : World → Result Cluster → Result (Unit {0}) × World
put_cluster w (ok c) = (ok tt, record w { cluster = c })
put_cluster w (err e) = (err e, w)

-- A kind of object: its name, and its place in the namespace.
pub record Kind (A : Type 0) : Type 0 where
  pub name_of : A → String
  pub all : Cluster → List A
  pub put : List A → Cluster → Cluster

module _ ⦃env : Env⦄ where
  unfoldable pub read_cluster : {A : Type 0} → (Cluster → Result A) → M A
  read_cluster f = do api_call; (λ w. (f w.cluster, w))

  unfoldable pub write_cluster : (Cluster → Result Cluster) → M (Unit {0})
  write_cluster f = do api_call; (λ w. put_cluster w (f w.cluster))

  module _ {A : Type 0} (kind : Kind A) where
    unfoldable pub get : String → M A
    get name = read_cluster (λ c. found_object (find kind.name_of name (kind.all c)))

    unfoldable pub list : (A → Bool) → M (List A)
    list p = read_cluster (λ c. ok (keep p (kind.all c)))

    unfoldable pub created : A → Cluster → Result Cluster
    created a c =
        if has kind.name_of (kind.name_of a) (kind.all c)
        then err (failed "already exists")
        else ok (kind.put (kind.all c ++ a ∷ []) c)

    unfoldable pub create : A → M (Unit {0})
    create a = write_cluster (created a)

    -- The object under the name becomes what `f` makes of it.
    unfoldable pub updated : String → (A → A) → Cluster → Result Cluster
    updated name f c =
        if has kind.name_of name (kind.all c)
        then ok (kind.put (modify kind.name_of name f (kind.all c)) c)
        else err missing

    unfoldable pub update : String → (A → A) → M (Unit {0})
    update name f = write_cluster (updated name f)

    unfoldable pub deleted : String → Cluster → Result Cluster
    deleted name c =
        if has kind.name_of name (kind.all c)
        then ok (kind.put (remove kind.name_of name (kind.all c)) c)
        else err missing

    unfoldable pub delete : String → M (Unit {0})
    delete name = write_cluster (deleted name)
