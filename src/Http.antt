-- ===== src/Http.antt =====
-- Go's net/http as far as the program uses it: what it reads of a request, and the cookies it sets.
use opencode_workspaces.Prelude.{
  ℕ, String, Bool, Option, none, some, List, [], ◌∷◌, ◌==◌, string_eq, if◌then◌else◌,
}

-- `escaped_path` is r.URL.EscapedPath(), `cookie` is r.Cookie, `header` r.Header.Get, `form` r.FormValue and `query` r.URL.Query().Get.
pub record Request : Type 0 where
  pub method : String
  pub path : String
  pub escaped_path : String
  pub cookie : String → Option String
  pub header : String → String
  pub form : String → String
  pub query : String → String
  pub remote_addr : String

-- MaxAge: a positive number of seconds, or -1, which deletes the cookie.
pub data MaxAge : Type 0 where
  deleted : MaxAge
  seconds : ℕ → MaxAge

pub data SameSite : Type 0 where
  lax strict : SameSite

pub record Cookie : Type 0 where
  pub name : String
  pub value : String
  pub path : String
  pub http_only : Bool
  pub secure : Bool
  pub same_site : SameSite
  pub max_age : MaxAge

-- What a client sends back for the cookies that it was given.
unfoldable pub value_of : String → List Cookie → Option String
value_of name [] = none
value_of name (c ∷ cookies) = if c.name == name then some c.value else value_of name cookies
