-- ===== src/Config/Valid.antt =====
-- What Load promises of the configuration that it returns.
use opencode_workspaces.Prelude.{
  ℕ, ◌≡◌, ◌≤◌, refl, sym, ap, subst, ◌∙◌, String, Bool, true, false, not, Option, none, some, [],
  arith, ◌==◌, string_eq, nat_eq, nat_beq_iff, length, some_of, if◌then◌else◌,
}
use opencode_workspaces.Model.{Bytes}
use opencode_workspaces.Cluster.{Labels}
use opencode_workspaces.Env.{Env, DigestLaws}
use opencode_workspaces.World.{Result, ok, err}
use opencode_workspaces.World.Keeps.{ok_injective}
use opencode_workspaces.Database.Sound.Rules.{else_ok}
use opencode_workspaces.Config.{ℤ, pos, negsuc, Config}
use opencode_workspaces.Config.Load.{
  Host, ◌>>=◌, ◌>>◌, check, found_or, port_of, parsed_port, is_positive, is_blank, key, key_of,
  is_web, node_selector, load,
}

pub record IsValid (c : Config) : Type 0 where
  pub web : is_web c.public_url ≡ true
  pub secure : c.cookie_secure ≡ (c.public_url.scheme == "https")
  pub session_key : length c.session_key ≡ 32
  pub encryption_key : length c.encryption_key ≡ 32
  pub port : (1 ≤ c.workspace.port) × (c.workspace.port ≤ 65535)
  pub interval : is_positive c.workspace.reconcile_interval ≡ true
  pub selector : some_of is_blank c.workspace.node_selector ≡ false
  pub database : (c.database_url == "") ≡ false

then_of :
    {A B : Type 0} (r : Result A) (f : A → Result B) (b : B)
    → (r >>= f) ≡ ok b
    → (a : A) × (r ≡ ok a) × (f a ≡ ok b)
unfolding ◌>>=◌
then_of (ok a) f b h = (a, refl, h)
then_of (err e) f b h = absurd (ground arith)

check_ok : (b : Bool) (m : String) (u : Unit {0}) → check b m ≡ ok u → b ≡ true
unfolding check
check_ok true m u h = refl
check_ok false m u h = absurd (ground arith)

found_or_ok : {A : Type 0} (o : Option A) (m : String) (a : A) → found_or o m ≡ ok a → o ≡ some a
unfolding found_or
found_or_ok none m a h = absurd (ground arith)
found_or_ok (some b) m a h = ap some (ok_injective h)

parsed_port-bounds : (o : Option ℤ) (n : ℕ) → parsed_port o ≡ some n → (1 ≤ n) × (n ≤ 65535)
unfolding port_of
parsed_port-bounds none n h = absurd (ground arith)
parsed_port-bounds (some (pos m)) n h = ground arith
parsed_port-bounds (some (negsuc m)) n h = absurd (ground arith)

is_false : (b : Bool) → not b ≡ true → b ≡ false
is_false true h = absurd (ground arith)
is_false false h = refl

module _ ⦃env : Env⦄ ⦃host : Host⦄ where
  key_of-size : (value : String) (o : Option Bytes) → DigestLaws env → length (key_of value o) ≡ 32
  key_of-size value none laws = laws.size (env.bytes value)
  key_of-size value (some d) laws =
      ground (arith, nat_beq_iff (length d) 32, laws.size (env.bytes value))

  key-size : (name : String) (k : Bytes) → DigestLaws env → key name ≡ ok k → length k ≡ 32
  unfolding key
  key-size name k laws h =
      let (_, e) = else_ok _ _ _ k h in
      ap length (sym (ok_injective e))
      ∙ key_of-size (host.getenv name) (env.decode_padded (host.getenv name)) laws

  selected-filled :
      (b : Bool) (r : Result Labels) (labels : Labels)
      → ((l : Labels) → r ≡ ok l → some_of is_blank l ≡ false)
      → (if b then ok [] else r) ≡ ok labels
      → some_of is_blank labels ≡ false
  selected-filled true r labels f h = subst (λ x. some_of is_blank x ≡ false) (ok_injective h) refl
  selected-filled false r labels f h = f labels h

  parsed-filled :
      (o : Option Labels) (m m' : String) (labels : Labels)
      → (found_or o m >>= λ l. check (not (some_of is_blank l)) m' >> ok l) ≡ ok labels
      → some_of is_blank labels ≡ false
  parsed-filled o m m' labels h =
      let (l, _, k) = then_of _ _ labels h in
      let (_, c, k') = then_of _ _ labels k in
      subst (λ x. some_of is_blank x ≡ false) (ok_injective k') (is_false _ (check_ok _ _ tt c))

  node_selector-filled :
      (raw : String) (labels : Labels)
      → node_selector raw ≡ ok labels
      → some_of is_blank labels ≡ false
  unfolding node_selector
  node_selector-filled raw labels h =
      selected-filled (raw == "") _ labels (parsed-filled (host.parse_labels raw) _ _) h

  -- A configuration that Load returns has an http or https URL, cookies that are secure exactly for
  -- https, keys of 32 bytes, a port between 1 and 65535, a positive interval, labels that are not
  -- blank, and a database.
  pub load-IsValid : (c : Config) → DigestLaws env → load ≡ ok c → IsValid c
  unfolding load
  load-IsValid c laws h =
      let (url, _, k₁) = then_of _ _ c h in
      let (_, _, k₂) = then_of _ _ c k₁ in
      let (_, h₃, k₃) = then_of _ _ c k₂ in
      let (session, h₄, k₄) = then_of _ _ c k₃ in
      let (encryption, h₅, k₅) = then_of _ _ c k₄ in
      let (port, h₆, k₆) = then_of _ _ c k₅ in
      let (idle, _, k₇) = then_of _ _ c k₆ in
      let (interval, _, k₈) = then_of _ _ c k₇ in
      let (_, h₉, k₉) = then_of _ _ c k₈ in
      let (selector, h₁₀, k₁₀) = then_of _ _ c k₉ in
      let (_, h₁₁, k₁₁) = then_of _ _ c k₁₀ in
      subst IsValid (ok_injective k₁₁) (record {
        web = check_ok _ _ tt h₃;
        secure = refl;
        session_key = key-size _ session laws h₄;
        encryption_key = key-size _ encryption laws h₅;
        port = parsed_port-bounds _ port (found_or_ok _ _ port h₆);
        interval = check_ok _ _ tt h₉;
        selector = node_selector-filled _ selector h₁₀;
        database = is_false _ (check_ok _ _ tt h₁₁);
      })
