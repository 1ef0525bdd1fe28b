-- ===== src/Kube/Status/Agrees.antt =====
-- The table of administrators, which Statuses computes from two lists, beside Status.
use opencode_workspaces.Prelude.{
  suc, ◌≤◌, ◌≡◌, refl, subst, ◌∙◌, String, Bool, true, false, ◌&&◌, Option, none, some, List, [],
  ◌∷◌, arith, ◌==◌, string_eq, str_iff, nat_eq, if◌then◌else◌, length, keep, some_of, or_else,
  Bool-cases, inl, inr,
}
use opencode_workspaces.Model.{Workspace, WorkspaceStatus}
use opencode_workspaces.Cluster.{Cluster, Deployment, Pod, Labels}
use opencode_workspaces.Env.{Env}
use opencode_workspaces.Rows.{find, has}
use opencode_workspaces.Rows.Laws.{find-upsert}
use opencode_workspaces.World.{Result, ok, World, ◌>>=◌, attempt, api_call}
use opencode_workspaces.World.Api.{get, list, read_cluster, found_object, selects, label}
use opencode_workspaces.Kube.Status.{
  named_key, lookup, insert, deployments_by_name, pods_by_workspace, collect_statuses,
  status_or_stopped, first_of, pod_selector, managed_selector, status_of_deployment, status,
  statuses,
}

-- The last element that passes a test.
abbrev pub last_of {ℓ} : {A : Type ℓ} → (A → Bool) → List A → Option A
last_of p [] = none
last_of p (x ∷ xs) = let rest = last_of p xs in or_else rest (if p x then some x else none)

abbrev has_name : String → Deployment → Bool
has_name n d = d.meta.name == n

abbrev is_pod_of : String → Pod → Bool
is_pod_of n p = label "opencode.workspaces/name" p.labels == n

module _ {A : Type 0} where
  lookup-insert :
      (j k : String) (v : A) (m : List (String × A))
      → lookup j (insert k v m) ≡ (if k == j then some v else lookup j m)
  unfolding lookup insert
  lookup-insert j k v m = rw (find-upsert named_key j k (λ _. (k, v)) m (λ _. refl)) (ground arith)

  last_of-keep :
      (p q : A → Bool) (xs : List A) → last_of q (keep p xs) ≡ last_of (λ x. p x && q x) xs
  last_of-keep p q [] = refl
  last_of-keep p q (x ∷ xs) = ground (arith, last_of-keep p q xs)

  first_of-keep :
      (p : A → Bool) (xs : List A)
      → length (keep p xs) ≤ 1
      → last_of p xs ≡ first_of (ok (keep p xs))
  first_of-keep p [] h = refl
  first_of-keep p (x ∷ xs) h = ground (arith, first_of-keep p xs)

lookup-deployments_by_name :
    (n : String) (ds : List Deployment) (m : List (String × Deployment))
    → lookup n (deployments_by_name ds m) ≡ or_else (last_of (has_name n) ds) (lookup n m)
unfolding deployments_by_name
lookup-deployments_by_name n [] m = refl
lookup-deployments_by_name n (d ∷ ds) m =
    lookup-deployments_by_name n ds (insert d.meta.name d m)
    ∙ ground (arith, lookup-insert n d.meta.name d m)

lookup-pods_by_workspace :
    (n : String) (ps : List Pod) (m : List (String × Pod))
    → (n == "") ≡ false
    → lookup n (pods_by_workspace ps m) ≡ or_else (last_of (is_pod_of n) ps) (lookup n m)
unfolding pods_by_workspace
lookup-pods_by_workspace n [] m h = refl
lookup-pods_by_workspace n (p ∷ ps) m h =
    lookup-pods_by_workspace n ps _ h
    ∙ ground (
      arith,
      lookup-insert n (label "opencode.workspaces/name" p.labels) p m,
      str_iff (label "opencode.workspaces/name" p.labels) n,
      str_iff (label "opencode.workspaces/name" p.labels) "",
      str_iff n "",
    )

lookup-collect_statuses :
    (n : String) (ds : List (String × Deployment)) (ps : List (String × Pod)) (ws : List Workspace)
    (m : List (String × WorkspaceStatus))
    → lookup n (collect_statuses ds ps ws m) ≡ (
        if some_of (λ w. w.resource_name == n) ws
        then some (status_or_stopped (lookup n ds) (lookup n ps))
        else lookup n m)
unfolding collect_statuses
lookup-collect_statuses n ds ps [] m = refl
lookup-collect_statuses n ds ps (w ∷ ws) m =
    lookup-collect_statuses n ds ps ws _
    ∙ rw (lookup-insert n w.resource_name _ m) (ground (arith, str_iff w.resource_name n))

-- Names are unique in a namespace.
abbrev pub HaveNames : List Deployment → Type 0
HaveNames [] = Unit
HaveNames (d ∷ ds) = (has (λ (x : Deployment). x.meta.name) d.meta.name ds ≡ false) × HaveNames ds

-- The deployment under the name is managed, and the workspace has a single pod.
pub record IsListed (n : String) (c : Cluster) : Type 0 where
  pub unique : HaveNames c.deployments
  pub managed :
      (d : Deployment)
      → find (λ (x : Deployment). x.meta.name) n c.deployments ≡ some d
      → selects managed_selector d.meta.labels ≡ true
  pub alone : length (keep (λ p. selects (pod_selector n) p.labels) c.pods) ≤ 1

-- The status is in the table, and it is the one that Status returns.
pub record IsInTable ⦃env : Env⦄ (w : Workspace) (ws : List Workspace) (world : World)
    : Type 0 where
  pub table : List (String × WorkspaceStatus)
  pub state : WorkspaceStatus
  pub listed : (statuses ws world).0 ≡ ok table
  pub asked : (status w world).0 ≡ ok state
  pub same : lookup w.resource_name table ≡ some state

last_of-none :
    (n : String) (p : Deployment → Bool) (ds : List Deployment)
    → has (λ (x : Deployment). x.meta.name) n ds ≡ false
    → last_of (λ d. p d && has_name n d) ds ≡ none
unfolding has find
last_of-none n p [] h = refl
last_of-none n p (d ∷ ds) h = ground (arith, last_of-none n p ds)

last_of-find :
    (n : String) (p : Deployment → Bool) (ds : List Deployment)
    → HaveNames ds
    → ((d : Deployment) → find (λ (x : Deployment). x.meta.name) n ds ≡ some d → p d ≡ true)
    → last_of (λ d. p d && has_name n d) ds ≡ find (λ (x : Deployment). x.meta.name) n ds
unfolding find
last_of-find n p [] u h = refl
last_of-find n p (d ∷ ds) u h = elim (Bool-cases (d.meta.name == n)) [
  | inl here ↦
      rw
        (
          last_of-none n p ds (
              subst (λ k. has (λ (x : Deployment). x.meta.name) k ds ≡ false)
                ((str_iff d.meta.name n).0 here) u.0),
          h d (rw here refl),
          here,
        )
        refl
  | inr there ↦ let rest = last_of-find n p ds u.1 (λ d' e. h d' (rw there e)) in ground arith
]

selects-pod_selector :
    (n : String) (labels : Labels)
    → (selects managed_selector labels && label "opencode.workspaces/name" labels == n)
      ≡ selects (pod_selector n) labels
unfolding selects
selects-pod_selector n labels = ground arith

or_else-none : {A : Type 0} (o : Option A) → or_else o none ≡ o
or_else-none none = refl
or_else-none (some a) = refl

lookup-listed :
    (n : String) (c : Cluster)
    → IsListed n c
    → lookup n
        (deployments_by_name (keep (λ d. selects managed_selector d.meta.labels) c.deployments) [])
      ≡ find (λ (x : Deployment). x.meta.name) n c.deployments
unfolding lookup find
lookup-listed n c l =
    lookup-deployments_by_name n _ []
    ∙ or_else-none _
    ∙ last_of-keep (λ d. selects managed_selector d.meta.labels) (has_name n) c.deployments
    ∙ last_of-find n (λ d. selects managed_selector d.meta.labels) c.deployments l.unique l.managed

last_of-same :
    {A : Type 0} (p q : A → Bool) (xs : List A)
    → ((a : A) → p a ≡ q a)
    → last_of p xs ≡ last_of q xs
last_of-same p q [] h = refl
last_of-same p q (x ∷ xs) h = rw (h x, last_of-same p q xs h) refl

lookup-pod :
    (n : String) (c : Cluster)
    → (n == "") ≡ false
    → IsListed n c
    → lookup n (pods_by_workspace (keep (λ p. selects managed_selector p.labels) c.pods) [])
      ≡ first_of (ok (keep (λ p. selects (pod_selector n) p.labels) c.pods))
unfolding lookup find
lookup-pod n c h l =
    lookup-pods_by_workspace n _ [] h
    ∙ or_else-none _
    ∙ last_of-keep (λ p. selects managed_selector p.labels) (is_pod_of n) c.pods
    ∙ last_of-same _ (λ p. selects (pod_selector n) p.labels) c.pods
        (λ p. selects-pod_selector n p.labels)
    ∙ first_of-keep _ c.pods l.alone

module _ ⦃env : Env⦄ where
  -- A call of the API that the environment does not fail.
  read_cluster_runs :
      {A : Type 0} (f : Cluster → Result A) (w : World)
      → env.api_fails w.api_calls ≡ false
      → read_cluster f w ≡ (f w.cluster, record w { api_calls = suc w.api_calls })
  unfolding read_cluster ◌>>=◌ api_call
  read_cluster_runs f w h = rw h refl

  statuses_run :
      (ws : List Workspace) (world : World)
      → env.api_fails world.api_calls ≡ false
      → env.api_fails (suc world.api_calls) ≡ false
      → (statuses ws world).0
        ≡ ok (
            collect_statuses
              (deployments_by_name
                (keep (λ d. selects managed_selector d.meta.labels) world.cluster.deployments)
                [])
              (pods_by_workspace
                (keep (λ p. selects managed_selector p.labels) world.cluster.pods)
                [])
              ws
              [])
  unfolding statuses list ◌>>=◌
  statuses_run ws world h k =
      rw
        (
          read_cluster_runs
              (λ c. ok (keep (λ d. selects managed_selector d.meta.labels) c.deployments)) world h,
          read_cluster_runs (λ c. ok (keep (λ p. selects managed_selector p.labels) c.pods))
              (record world { api_calls = suc world.api_calls }) k,
        )
        refl

  found_status :
      (w : Workspace) (world : World) (o : Option Deployment)
      → env.api_fails (suc world.api_calls) ≡ false
      → (attempt
          (λ x. (found_object o, record x { api_calls = suc x.api_calls }))
          (status_of_deployment w)
          world).0
        ≡ ok (
            status_or_stopped o (
              first_of (
                ok (
                  keep (λ p. selects (pod_selector w.resource_name) p.labels) world.cluster.pods))))
  unfolding attempt list
  found_status w world none k = refl
  found_status w world (some d) k =
      rw
        (read_cluster_runs
          (λ c. ok (keep (λ p. selects (pod_selector w.resource_name) p.labels) c.pods))
          (record world { api_calls = suc world.api_calls }) k)
        refl

  status_runs :
      (w : Workspace) (world : World)
      → env.api_fails world.api_calls ≡ false
      → env.api_fails (suc world.api_calls) ≡ false
      → (status w world).0
        ≡ ok (
            status_or_stopped
              (find (λ (x : Deployment). x.meta.name) w.resource_name world.cluster.deployments)
              (first_of (
                ok (
                  keep (λ p. selects (pod_selector w.resource_name) p.labels) world.cluster.pods))))
  unfolding status get attempt
  status_runs w world h k =
      rw
        (read_cluster_runs
          (λ c. found_object (find (λ (x : Deployment). x.meta.name) w.resource_name c.deployments))
          world h)
        (found_status w world _ k)

  -- Where the API answers and deployments have unique names, the table of Statuses has, for every
  -- workspace of its list that has a name, the status that Status returns, if the deployment under
  -- that name, where there is one, is managed, and the workspace has one pod at most.
  pub statuses_agree :
      (w : Workspace) (ws : List Workspace) (world : World)
      → some_of (λ x. x.resource_name == w.resource_name) ws ≡ true
      → (w.resource_name == "") ≡ false
      → IsListed w.resource_name world.cluster
      → env.api_fails world.api_calls ≡ false
      → env.api_fails (suc world.api_calls) ≡ false
      → IsInTable w ws world
  statuses_agree w ws world here named listed h k = record {
    table = _;
    state = _;
    listed = statuses_run ws world h k;
    asked = status_runs w world h k;
    same =
        lookup-collect_statuses w.resource_name _ _ ws []
        ∙ rw
            (
              here,
              lookup-listed w.resource_name world.cluster listed,
              lookup-pod w.resource_name world.cluster named listed,
            )
            refl;
  }
