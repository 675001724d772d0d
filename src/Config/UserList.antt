-- ===== src/Config/UserList.antt =====
-- internal/config: the users of the file, read and printed. The decoders of encoding/hex and
-- encoding/base64 are parameters.
use phantom_proxy.Common.{
  Bool, true, not, Option, none, some, List, [], ◌∷◌, ◌==◌, if◌then◌else◌, length,
}
use phantom_proxy.Common.Bytes.{Bytes, codes, eqb}
use phantom_proxy.Common.Result.{Result, err, ok, ◌>>=◌}
use phantom_proxy.Secret.{Secret, SecretError, parse_secret, encode_hex}
use phantom_proxy.Users.{User}
use phantom_proxy.Config.{UserConfig, MtprotoConfig}

pub data UsersError : Type 0 where
  nothing_configured : UsersError
  secret_required : Bytes → UsersError
  bad_secret : Bytes → SecretError → UsersError

-- The name given, or the host of the secret, or "user".
unfoldable pub name_or_host : Bytes → Bytes → Bytes
name_or_host name host =
    if not (eqb name []) then name else if not (eqb host []) then host else codes "user"

unfoldable pub or_enabled : Option Bool → Bool
or_enabled none = true
or_enabled (some b) = b

unfoldable pub configured : UserConfig → Result SecretError Secret → Result UsersError User
unfolding name_or_host or_enabled
configured item (err e) = err (bad_secret item.name e)
configured item (ok s) =
    ok (record {
      name = name_or_host item.name s.host;
      secret = s;
      enabled = or_enabled item.enabled;
    })

module _ (hex_decode base64_decode : Bytes → Option Bytes) where
  unfoldable pub build_user : UserConfig → Result UsersError User
  unfolding configured
  build_user item =
      if eqb item.secret []
      then err (secret_required item.name)
      else configured item (parse_secret hex_decode base64_decode item.secret)

  -- The loop stops at the first error.
  unfoldable pub build_loop : List UserConfig → Result UsersError (List User)
  unfolding build_user
  build_loop [] = ok []
  build_loop (item ∷ items) = do u ← build_user item; us ← build_loop items; ok (u ∷ us)

  unfoldable pub build_users : MtprotoConfig → Result UsersError (List User)
  unfolding build_loop
  build_users mt =
      if length mt.users == 0
      then (if eqb mt.secret []
          then err nothing_configured
          else build_loop
              (record { name = codes "default"; secret = mt.secret; enabled = none } ∷ []))
      else build_loop mt.users

module _ (hex_encode : Bytes → Bytes) where
  unfoldable pub users_to_config : List User → List UserConfig
  users_to_config [] = []
  users_to_config (u ∷ us) =
      record { name = u.name; secret = encode_hex hex_encode u.secret; enabled = some u.enabled }
      ∷ users_to_config us
