-- ===== src/Examples/Admin.antt =====
-- The management interface at concrete inputs: a request that deletes one of two users, with the
-- token and without it.
use phantom_proxy.Common.{false, ◌≡◌, refl, inl, inr, ltb, true, none, some, [], ◌∷◌}
use phantom_proxy.Common.Bytes.{Bytes, codes, eqb}
use phantom_proxy.Common.Text.{has_prefix, contains}
use phantom_proxy.Users.{
  User, Manager, remove_user, remove_first, has_name, refresh_mask_host, any_enabled,
}
use phantom_proxy.Config.{ManagementConfig}
use phantom_proxy.Config.UserList.{users_to_config}
use phantom_proxy.Runtime.{Runtime, new_runtime, apply_security_features, persist_users}
use phantom_proxy.Admin.Request.{
  Request, delete, failure, Outside, check_token, with_auth, by_method,
}
use phantom_proxy.Admin.Accounts.{
  trim_prefix, handle_user_by_name, handle_named, delete_user, end_removed, end_deleted, saved,
}
use phantom_proxy.Admin.Control.{users_by_name, serve}
use phantom_proxy.Admin.Auth.{Carries, serve_refuses}
use phantom_proxy.Admin.Synced.{IsSynced, serve-IsSynced}
use phantom_proxy.Examples.Config.{utls, config}

hex : Bytes → Bytes
hex b = b

abbrev user_of : Bytes → User
user_of name = record {
  name = name;
  secret = record { key = []; host = []; mode = 0xdd };
  enabled = true;
}

abbrev two_users : Manager
two_users = record {
  users = user_of (codes "ann") ∷ user_of (codes "bob") ∷ [];
  mask_host = [];
  ja3_allow = [];
  ja4_allow = [];
}

abbrev out : Outside
out = record {
  hex_decode = some;
  base64_decode = some;
  hex_encode = hex;
  decode_create = λ b. none;
  decode_update = λ b. none;
  decode_settings = λ b. none;
  atoi = λ b. none;
  decode_uninstall = λ b. none;
  has_systemctl = false;
  random_key = none;
  loads = none;
  saves = λ c. true;
  rebinder = none;
  now = 3;
}

abbrev started : Runtime utls
started =
    new_runtime utls 5 (codes "config.yaml")
      (record config {
        mtproto = record config.mtproto { users = users_to_config hex two_users.users };
      })
      two_users []

abbrev deletes : Bytes → Request
deletes authorization = record {
  method = delete;
  path = codes "/api/v1/users/bob";
  authorization = authorization;
  api_token = [];
  server = [];
  port = [];
  body = [];
}

abbrev mgmt : ManagementConfig
mgmt = record config.management { token = codes "t0" }

not_carried : ¬ Carries mgmt.token (deletes [])
not_carried (inl h) = cc h
not_carried (inr h) = cc h

serve_refuses_example :
    serve utls out mgmt users_by_name (deletes []) started ≡ ((401, failure), started)
serve_refuses_example =
    serve_refuses utls out mgmt users_by_name (deletes []) started (unfold eqb in refl) not_carried

abbrev with_token : Request
with_token = deletes (codes "Bearer t0")

started-IsSynced : IsSynced utls out started
unfolding new_runtime apply_security_features
started-IsSynced = inr refl

deleted_status : ltb (serve utls out mgmt users_by_name with_token started).0.0 400 ≡ true
unfolding serve with_auth check_token has_prefix contains eqb handle_user_by_name handle_named
    by_method delete_user trim_prefix remove_user remove_first has_name refresh_mask_host
    any_enabled end_removed end_deleted saved persist_users new_runtime apply_security_features
deleted_status = refl

serve-IsSynced_example : IsSynced utls out (serve utls out mgmt users_by_name with_token started).1
serve-IsSynced_example =
    serve-IsSynced utls out started started-IsSynced mgmt users_by_name with_token (λ h. cc h)
      deleted_status
