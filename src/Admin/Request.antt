-- ===== src/Admin/Request.antt =====
-- internal/admin/server.go: requests, answers, the token and the address shown in links.
use phantom_proxy.Common.{
  ℕ, Bool, not, ◌&&◌, ◌||◌, Option, none, some, List, [], if◌then◌else◌, drop,
}
use phantom_proxy.Common.Int.{ℤ}
use phantom_proxy.Common.Bytes.{Bytes, codes, eqb}
use phantom_proxy.Common.Text.{has_prefix}
use phantom_proxy.Stats.{UserStats, Snapshot}
use phantom_proxy.Users.{Manager}
use phantom_proxy.Users.Views.{UserView}
use phantom_proxy.Config.{Config}
use phantom_proxy.Config.Settings.{SettingsView}
use phantom_proxy.FakeTls.Pool.{Utls}
use phantom_proxy.Runtime.{Runtime}

pub data Method : Type 0 where
  get head post put delete : Method
  other_method : Bytes → Method

-- The `switch` on the method, with its default last.
unfoldable pub by_method {ℓ} :
    {A : Type ℓ} → Method → (on_get on_post on_put on_delete otherwise : A) → A
by_method get g p u d o = g
by_method post g p u d o = p
by_method put g p u d o = u
by_method delete g p u d o = d
by_method head g p u d o = o
by_method (other_method m) g p u d o = o

-- A header or a parameter that is missing is empty.
pub record Request : Type 0 where
  pub method : Method
  pub path : Bytes
  pub authorization : Bytes
  pub api_token : Bytes
  pub server : Bytes
  pub port : Bytes
  pub body : Bytes

pub record CreateUserRequest : Type 0 where
  pub name : Bytes
  pub secret : Bytes
  pub host : Bytes
  pub enabled : Option Bool

pub record UpdateUserRequest : Type 0 where
  pub secret : Bytes
  pub enabled : Option Bool

pub record UninstallRequest : Type 0 where
  pub confirm : Bytes
  pub purge : Bool

-- The status page, with the uptime in seconds.
pub record StatusView : Type 0 where
  pub uptime_seconds : ℕ
  pub listen_addr : Bytes
  pub mask_host : Bytes
  pub backend : Bytes
  pub users_count : ℕ
  pub active_connections : ℤ
  pub total_connections : ℕ
  pub upload_bytes : ℕ
  pub download_bytes : ℕ

-- What `RebindListenIfNeeded` comes to, with the address where the listener moved.
pub data Rebound : Type 0 where
  not_rebound rebind_failed : Rebound
  rebound : Bytes → Rebound

pub data Body : Type 0 where
  no_body failure alive : Body
  view : UserView → Body
  views : List UserView → Body
  totals : Snapshot → Body
  user_totals : UserStats → Body
  settings : SettingsView → Body
  applied : SettingsView → Rebound → Body
  reloaded : Rebound → Body
  status : StatusView → Body
  uninstall : (scheduled : Bool) → Body

abbrev pub Response : Type 0
Response = ℕ × Body

-- What the handlers call: encoding/hex, encoding/base64, encoding/json, strconv, the 16 random
-- bytes of `GenerateSecret`, `config.Load`, `config.Save` the rebinder,
-- and whether `exec.LookPath` finds systemctl. A missing rebinder is
-- `none`; else it fails (`none`) or tells whether it moved the listener.
pub record Outside : Type 0 where
  pub hex_decode : Bytes → Option Bytes
  pub base64_decode : Bytes → Option Bytes
  pub hex_encode : Bytes → Bytes
  pub decode_create : Bytes → Option CreateUserRequest
  pub decode_update : Bytes → Option UpdateUserRequest
  pub decode_uninstall : Bytes → Option UninstallRequest
  pub decode_settings : Bytes → Option SettingsView
  pub atoi : Bytes → Option ℤ
  pub random_key : Option Bytes
  pub loads : Option (Config × Manager)
  pub saves : Config → Bool
  pub rebinder : Option (Config → Option Bool)
  pub has_systemctl : Bool
  pub now : ℕ

-- `checkToken`
unfoldable pub check_token : Request → Bytes → Bool
check_token r token =
    if has_prefix r.authorization (codes "Bearer ")
    then eqb (drop 7 r.authorization) token
    else eqb r.api_token token

module _ (utls : Utls) where
  -- `withAuth`
  unfoldable pub with_auth :
      Bytes
      → (Request → Runtime utls → Response × Runtime utls)
      → Request
      → Runtime utls
      → Response × Runtime utls
  unfolding check_token
  with_auth token next r rt =
      if not (eqb token []) && not (check_token r token) then ((401, failure), rt) else next r rt

abbrev or_port : ℤ → Option ℤ → ℤ
or_port p none = p
or_port p (some v) = v

-- `proxyEndpoint`
unfoldable pub proxy_endpoint : (Bytes → Option ℤ) → Request → Config → Bytes × ℤ
proxy_endpoint atoi r c =
    if not (eqb r.server [])
    then (
      r.server,
      if not (eqb r.port []) then or_port c.listen.port (atoi r.port) else c.listen.port,
    )
    else if not (eqb c.management.public_server [])
    then (c.management.public_server, c.listen.port)
    else if eqb c.listen.host [] || eqb c.listen.host (codes "0.0.0.0")
    then (codes "127.0.0.1", c.listen.port)
    else (c.listen.host, c.listen.port)
