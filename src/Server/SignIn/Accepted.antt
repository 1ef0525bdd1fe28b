-- ===== src/Server/SignIn/Accepted.antt =====
-- Who a login by password signs in.
use opencode_workspaces.Prelude.{◌≡◌, String, true, false}
use opencode_workspaces.Model.{User}
use opencode_workspaces.Env.{Env}
use opencode_workspaces.Http.{Request}
use opencode_workspaces.World.{ok, World}
use opencode_workspaces.Auth.Limiter.{allow}
use opencode_workspaces.Auth.Passwords.{verify_password}
use opencode_workspaces.Database.Users.{authenticate_local}
use opencode_workspaces.Server.{Server, Site}
use opencode_workspaces.Server.SignIn.{login_key}

module _ ⦃env : Env⦄ where
  -- The limiter allows the login, and the password fits the credential of an enabled account under
  -- the name of the form.
  pub record IsAllowed (r : Request) (site : Site) : Type 0 where
    pub user : User
    pub stored : String
    pub allowed : (allow site.world.clock (login_key r) site.attempts).0 ≡ true
    pub found : (authenticate_local (r.form "username") site.world).0 ≡ ok (user, stored)
    pub verified : verify_password stored (r.form "password") ≡ true
    pub enabled : user.disabled ≡ false
