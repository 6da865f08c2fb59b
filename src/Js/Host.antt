-- ===== src/Js/Host.antt =====
-- What the service uses of Node: parsing, hashing and addresses are functions that the model takes
-- as they come.
use xmcl_shared_node_agent.Base.{
  ℕ, String, Bool, false, ◌&&◌, not, List, Option, none, some, str_eq,
}
use xmcl_shared_node_agent.Base.Int.{ℤ}
use xmcl_shared_node_agent.Js.Value.{Value}
use xmcl_shared_node_agent.Js.Text.{nonempty}

-- `new URL(text)`
pub record Url : Type 0 where
  pub protocol : String
  pub username : String
  pub password : String
  pub hash : String
  pub pathname : String
  pub search : String
  pub hostname : String
  pub port : String
  pub origin : String
  pub href : String

-- `none` stands for a call that throws, for `Date.parse` for `NaN`.
pub record Host : Type 0 where
  pub parse_url : Value → Option Url
  pub parse_date : Value → Option ℤ
  pub parse_json : List ℕ → Option Value
  pub print_json : Value → List ℕ
  pub sha256 : List ℕ → String

-- `exactHttpsUrl`
abbrev pub is_exact_https : Option Url → Bool
is_exact_https none = false
is_exact_https (some url) =
    str_eq url.protocol "https:"
    && not (nonempty url.username)
    && not (nonempty url.password)
    && not (nonempty url.hash)

unfoldable pub exact_https_url : Host → Value → Bool
exact_https_url host v = is_exact_https (host.parse_url v)
