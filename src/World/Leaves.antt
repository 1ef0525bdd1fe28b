-- ===== src/World/Leaves.antt =====
-- Invariants of the cluster that an action keeps, one rule for each way to build an action.
use opencode_workspaces.Prelude.{
  ℕ, ◌≡◌, refl, sym, ap, ◌∙◌, subst, Bool, true, false, Option, none, some, String, arith,
  if◌then◌else◌, string_eq,
}
use opencode_workspaces.Model.{Bytes}
use opencode_workspaces.Cluster.{Cluster}
use opencode_workspaces.Env.{Env}
use opencode_workspaces.Rows.{find}
use opencode_workspaces.Tables.{Tables}
use opencode_workspaces.World.{
  Error, Result, ok, err, World, M, pure, raise, continue, ◌>>=◌, attempt, lift, now, statement,
  query, exec, put_result, drawn, random_bytes, api_call,
}
use opencode_workspaces.World.Api.{
  Kind, found_object, put_cluster, read_cluster, write_cluster, get,
}

-- The action keeps `P`, whether it returns or fails.
pub record Leaves {A : Type 0} (P : Cluster → Type 0) (m : M A) : Type 0 where
  pub at : (w : World) → P w.cluster → P (m w).1.cluster

module _ {A B : Type 0} {P : Cluster → Type 0} where
  continue-Leaves :
      (r : Result A) (w : World) (f : A → M B)
      → P w.cluster
      → ((a : A) → Leaves P (f a))
      → P (continue r f w).1.cluster
  continue-Leaves (ok a) w f p k = (k a).at w p
  continue-Leaves (err e) w f p k = p

  pub Leaves-bind :
      (m : M A) (f : A → M B) → Leaves P m → ((a : A) → Leaves P (f a)) → Leaves P (m >>= f)
  unfolding ◌>>=◌
  Leaves-bind m f h k = record { at = λ w p. continue-Leaves (m w).0 (m w).1 f (h.at w p) k }

  pub Leaves-attempt :
      (m : M A) (f : Result A → M B)
      → Leaves P m
      → ((r : Result A) → Leaves P (f r))
      → Leaves P (attempt m f)
  unfolding attempt
  Leaves-attempt m f h k = record { at = λ w p. (k (m w).0).at (m w).1 (h.at w p) }

module _ {A : Type 0} {P : Cluster → Type 0} where
  pub Leaves-pure : (a : A) → Leaves P (pure a)
  Leaves-pure a = record { at = λ w p. p }

  pub Leaves-raise : (e : Error) → Leaves P (raise {A = A} e)
  Leaves-raise e = record { at = λ w p. p }

  pub Leaves-lift : (r : Result A) → Leaves P (lift r)
  Leaves-lift r = record { at = λ w p. p }

  pub Leaves-if : (b : Bool) (m n : M A) → Leaves P m → Leaves P n → Leaves P (if b then m else n)
  Leaves-if true m n h k = h
  Leaves-if false m n h k = k

drawn-cluster : ⦃env : Env⦄ (o : Option Bytes) (w : World) → (drawn o w).1.cluster ≡ w.cluster
drawn-cluster none w = refl
drawn-cluster (some b) w = refl

-- An action that follows a Get: where the Get returned an object, the cluster has it.
module _ {A : Type 0} (kind : Kind A) (name : String) where
  abbrev pub Got : Result A → Cluster → Type 0
  Got (ok a) c = find kind.name_of name (kind.all c) ≡ some a
  Got (err e) c = Unit

  found_object-Got :
      (c : Cluster) (o : Option A)
      → find kind.name_of name (kind.all c) ≡ o
      → Got (found_object o) c
  found_object-Got c none e = tt
  found_object-Got c (some a) e = e

  continue-Got :
      ⦃env : Env⦄ (r : Result (Unit {0}) × World)
      → Got
          (continue r.0
            (λ _ w. (found_object (find kind.name_of name (kind.all w.cluster)), w))
            r.1).0
          (continue r.0
            (λ _ w. (found_object (find kind.name_of name (kind.all w.cluster)), w))
            r.1).1.cluster
  continue-Got (ok u, w) = found_object-Got w.cluster _ refl
  continue-Got (err e, w) = tt

  get-Got : ⦃env : Env⦄ (w : World) → Got (get kind name w).0 (get kind name w).1.cluster
  unfolding get read_cluster ◌>>=◌
  get-Got w = continue-Got (api_call w)

api_call-cluster : ⦃env : Env⦄ (w : World) → (api_call w).1.cluster ≡ w.cluster
unfolding api_call
api_call-cluster w = ground arith

module _ ⦃env : Env⦄ {P : Cluster → Type 0} where
  Leaves-statement : Leaves P statement
  unfolding statement
  Leaves-statement = record { at = λ w p. ground arith }

  Leaves-api_call : Leaves P api_call
  unfolding api_call
  Leaves-api_call = record { at = λ w p. ground arith }

  pub Leaves-query : {A : Type 0} (f : Tables → Result A) → Leaves P (query f)
  unfolding query
  Leaves-query f = Leaves-bind statement _ Leaves-statement (λ _. record { at = λ w p. p })

  pub Leaves-random_bytes : (n : ℕ) → Leaves P (random_bytes n)
  unfolding random_bytes
  Leaves-random_bytes n = record {
    at = λ w p. subst P (sym (drawn-cluster (env.random_at w.random_drawn n) _)) p;
  }

  pub Leaves-read_cluster : {A : Type 0} (f : Cluster → Result A) → Leaves P (read_cluster f)
  unfolding read_cluster
  Leaves-read_cluster f = Leaves-bind api_call _ Leaves-api_call (λ _. record { at = λ w p. p })

  put_cluster-Leaves :
      (w : World) (r : Result Cluster)
      → P w.cluster
      → ((c : Cluster) → r ≡ ok c → P c)
      → P (put_cluster w r).1.cluster
  put_cluster-Leaves w (ok c) p h = h c refl
  put_cluster-Leaves w (err e) p h = p

  pub Leaves-write_cluster :
      (f : Cluster → Result Cluster)
      → ((c c' : Cluster) → P c → f c ≡ ok c' → P c')
      → Leaves P (write_cluster f)
  unfolding write_cluster
  Leaves-write_cluster f h =
      Leaves-bind api_call _ Leaves-api_call
        λ _. record { at = λ w p. put_cluster-Leaves w (f w.cluster) p (λ c e. h w.cluster c p e) }

  continue-write :
      (f : Cluster → Result Cluster) (r : Result (Unit {0}) × World)
      → P r.1.cluster
      → ((c : Cluster) → f r.1.cluster ≡ ok c → P c)
      → P (continue r.0 (λ _ w. put_cluster w (f w.cluster)) r.1).1.cluster
  continue-write f (ok u, w) p h = put_cluster-Leaves w (f w.cluster) p h
  continue-write f (err e, w) p h = p

  -- A write at one world, for an invariant that it keeps there.
  pub write_cluster-Leaves :
      (f : Cluster → Result Cluster) (w : World)
      → P w.cluster
      → ((c : Cluster) → f w.cluster ≡ ok c → P c)
      → P (write_cluster f w).1.cluster
  unfolding write_cluster ◌>>=◌
  write_cluster-Leaves f w p h =
      let same = api_call-cluster w in
      continue-write f (api_call w) (subst P (sym same) p) (λ c e. h c (ap f (sym same) ∙ e))

  pub Leaves-get :
      {A B : Type 0} (kind : Kind A) (name : String) (f : Result A → M B)
      → ((r : Result A) (w : World) → P w.cluster → Got kind name r w.cluster → P (f r w).1.cluster)
      → Leaves P (attempt (get kind name) f)
  unfolding attempt get
  Leaves-get kind name f h = record {
    at = λ w p.
        h (get kind name w).0 (get kind name w).1
          ((Leaves-read_cluster (λ c. found_object (find kind.name_of name (kind.all c)))).at w p)
          (get-Got kind name w);
  }

put_result-cluster :
    ⦃env : Env⦄ (w : World) (r : Result Tables) → (put_result w r).1.cluster ≡ w.cluster
put_result-cluster w (ok t) = refl
put_result-cluster w (err e) = refl

module _ ⦃env : Env⦄ {P : Cluster → Type 0} where
  pub Leaves-exec : (f : Tables → Result Tables) → Leaves P (exec f)
  unfolding exec
  Leaves-exec f =
      Leaves-bind statement _ Leaves-statement
        λ _. record { at = λ w p. subst P (sym (put_result-cluster w (f w.tables))) p }

  pub Leaves-now : Leaves P now
  Leaves-now = record { at = λ w p. p }
