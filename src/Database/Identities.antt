-- ===== src/Database/Identities.antt =====
-- OIDC identities: OIDCUser, LinkOIDCUserByEmail and ProvisionOIDCUser of
-- internal/database/database.go.
use opencode_workspaces.Prelude.{
  String, not, ◌&&◌, Option, none, some, List, [], ◌∷◌, ◌==◌, string_eq, if◌then◌else◌,
}
use opencode_workspaces.Prelude.Strings.{trim_space}
use opencode_workspaces.Model.{User}
use opencode_workspaces.Env.{Env}
use opencode_workspaces.Rows.{find}
use opencode_workspaces.Tables.{UserRow, IdentityRow}
use opencode_workspaces.World.{
  not_found, M, pure, ◌>>=◌, ◌>>◌, attempt, require, now, exec, query, transaction,
}
use opencode_workspaces.Database.Sql.{
  null_if_empty, user_key, user_of, has_email, insert_identity_row,
}
use opencode_workspaces.Database.Users.{
  as_conflict, first_user, audit, insert_user, found_user, or_not_found,
}

-- The identity of the list with the issuer and the subject.
unfoldable pub find_identity : String → String → List IdentityRow → Option IdentityRow
find_identity issuer subject [] = none
find_identity issuer subject (i ∷ rows) =
    if i.issuer == issuer && i.subject == subject then some i else find_identity issuer subject rows

abbrev pub identity_user : List UserRow → Option IdentityRow → Option UserRow
identity_user users none = none
identity_user users (some i) = find user_key i.user_id users

module _ ⦃env : Env⦄ where
  unfoldable pub oidc_user : String → String → M User
  oidc_user issuer subject =
      query (λ t. found_user (identity_user t.users (find_identity issuer subject t.identities)))

  unfoldable pub link_body : String → String → String → String → M User
  unfolding query has_email first_user exec insert_identity_row attempt audit user_of trim_space
      ◌>>=◌
  link_body issuer subject email remote = do
    row ← query (λ t. or_not_found (first_user (λ r. has_email (trim_space email) r.email) t.users))
    require (not row.disabled) not_found
    time ← now
    attempt (exec (insert_identity_row time issuer subject row.id (some email))) as_conflict
    audit row.id "oidc.identity.link" "user" row.id "{}" remote
    pure (user_of row)

  unfoldable pub link_oidc_user_by_email : String → String → String → String → M User
  link_oidc_user_by_email issuer subject email remote =
      transaction (link_body issuer subject email remote)

  unfoldable pub provision_oidc_body :
      String → String → String → String → String → String → String → M User
  provision_oidc_body issuer subject username display_name email role remote = do
    user ← insert_user username display_name email role ""
    time ← now
    exec (insert_identity_row time issuer subject user.id (null_if_empty email))
    audit user.id "oidc.provision" "user" user.id "{}" remote
    pure user

  unfoldable pub provision_oidc_user :
      String → String → String → String → String → String → String → M User
  provision_oidc_user issuer subject username display_name email role remote =
      transaction (provision_oidc_body issuer subject username display_name email role remote)
