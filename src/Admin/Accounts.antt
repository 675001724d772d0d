-- ===== src/Admin/Accounts.antt =====
-- internal/admin/server.go: the requests about users, and `GenerateSecret` of
-- internal/user/manager.go, which draws the secret of a user that comes without one.
use phantom_proxy.Common.{
  ℕ, Bool, true, false, ◌||◌, Option, none, some, [], if◌then◌else◌, length, drop,
}
use phantom_proxy.Common.Int.{pos, pos_part}
use phantom_proxy.Common.Bytes.{Bytes, codes, eqb}
use phantom_proxy.Common.Text.{decimal, has_prefix, contains}
use phantom_proxy.Common.Result.{Result, ok, err}
use phantom_proxy.Secret.{Secret, SecretError, fake_tls_prefix, parse_secret, encode_hex}
use phantom_proxy.Users.{User, Manager, ManagerError, add_user, update_user, remove_user}
use phantom_proxy.Users.Views.{UserView, get_view, list_views}
use phantom_proxy.FakeTls.Pool.{Utls}
use phantom_proxy.Runtime.{Runtime, RuntimeError, persist_users}
use phantom_proxy.Admin.Request.{
  by_method, Request, CreateUserRequest, UpdateUserRequest, no_body, failure, view, views, Response,
  Outside, proxy_endpoint,
}

-- `GenerateSecret`, without the secret itself: the text, where the random bytes can be drawn.
unfoldable pub generate_secret : (Bytes → Bytes) → Option Bytes → Bytes → Option Bytes
generate_secret hex_encode none host = none
generate_secret hex_encode (some key) host = some (
    encode_hex hex_encode (record {
      key = key;
      host = if eqb host [] then codes "storage.googleapis.com" else host;
      mode = fake_tls_prefix;
    }))

-- The view, or the zero value.
abbrev or_zero : Option UserView → UserView
or_zero none = record { name = []; secret = []; host = []; enabled = false; tg_link = [] }
or_zero (some v) = v

abbrev or_true : Option Bool → Bool
or_true none = true
or_true (some b) = b

-- `strings.TrimPrefix(path, prefix)`
unfoldable pub trim_prefix : Bytes → Bytes → Bytes
trim_prefix path prefix = if has_prefix path prefix then drop (length prefix) path else path

module _ (utls : Utls) (out : Outside) where
  abbrev view_of : Request → Runtime utls → Bytes → Option UserView
  view_of r rt name =
      let (server, port) = proxy_endpoint out.atoi r rt.config in
      get_view out.hex_encode (λ n. decimal (pos n)) server (pos_part port) name rt.users.users

  unfoldable pub list_users : Request → Runtime utls → Response × Runtime utls
  list_users r rt =
      let (server, port) = proxy_endpoint out.atoi r rt.config in
      (
        (
          200,
          views (
              list_views out.hex_encode (λ n. decimal (pos n)) server (pos_part port)
                rt.users.users),
        ),
        rt,
      )

  abbrev found_view : Option UserView → Response
  found_view none = (404, failure)
  found_view (some v) = (200, view v)

  unfoldable pub get_user : Request → Runtime utls → Bytes → Response × Runtime utls
  get_user r rt name = (found_view (view_of r rt name), rt)

  -- After `PersistUsers`.
  unfoldable pub end_saved :
      Request → Bytes → ℕ → Option (RuntimeError utls) × Runtime utls → Response × Runtime utls
  end_saved r name status (some e, rt) = ((500, failure), rt)
  end_saved r name status (none, rt) = ((status, view (or_zero (view_of r rt name))), rt)

  unfoldable pub saved : Runtime utls → Option (RuntimeError utls) × Runtime utls
  saved rt = persist_users utls out.hex_encode out.saves rt

  abbrev with_manager : Runtime utls → Manager → Runtime utls
  with_manager rt m = record rt { users = m }

  unfoldable pub end_added :
      Request → Bytes → Runtime utls → Result ManagerError Manager → Response × Runtime utls
  unfolding end_saved
  end_added r name rt (err e) = ((409, failure), rt)
  end_added r name rt (ok m) = end_saved r name 201 (saved (with_manager rt m))

  unfoldable pub end_parsed :
      Request
      → CreateUserRequest
      → Runtime utls
      → Result SecretError Secret
      → Response × Runtime utls
  unfolding end_added
  end_parsed r c rt (err e) = ((400, failure), rt)
  end_parsed r c rt (ok s) =
      end_added r c.name rt
        (add_user rt.users (record { name = c.name; secret = s; enabled = or_true c.enabled }))

  unfoldable pub with_secret :
      Request → CreateUserRequest → Runtime utls → Option Bytes → Response × Runtime utls
  unfolding end_parsed
  with_secret r c rt none = ((500, failure), rt)
  with_secret r c rt (some text) =
      end_parsed r c rt (parse_secret out.hex_decode out.base64_decode text)

  unfoldable pub create_with :
      Request → Runtime utls → Option CreateUserRequest → Response × Runtime utls
  unfolding with_secret
  create_with r rt none = ((400, failure), rt)
  create_with r rt (some c) =
      if eqb c.name []
      then ((400, failure), rt)
      else with_secret r c rt (
          if eqb c.secret []
          then generate_secret out.hex_encode out.random_key c.host
          else some c.secret)

  unfoldable pub create_user : Request → Runtime utls → Response × Runtime utls
  unfolding create_with
  create_user r rt = create_with r rt (out.decode_create r.body)

  -- The manager keeps what a failed update has changed.
  unfoldable pub end_updated :
      Request
      → Bytes
      → Runtime utls
      → Result ManagerError (Option User) × Manager
      → Response × Runtime utls
  unfolding end_saved
  end_updated r name rt (err e, m) = ((404, failure), with_manager rt m)
  end_updated r name rt (ok u, m) = end_saved r name 200 (saved (with_manager rt m))

  unfoldable pub update_parsed :
      Request
      → Bytes
      → Runtime utls
      → Option Bool
      → Result SecretError (Option Secret)
      → Response × Runtime utls
  unfolding end_updated
  update_parsed r name rt enabled (err e) = ((400, failure), rt)
  update_parsed r name rt enabled (ok s) =
      end_updated r name rt (update_user rt.users name s enabled)

  abbrev given : Result SecretError Secret → Result SecretError (Option Secret)
  given (err e) = err e
  given (ok s) = ok (some s)

  unfoldable pub update_with :
      Request → Bytes → Runtime utls → Option UpdateUserRequest → Response × Runtime utls
  unfolding update_parsed
  update_with r name rt none = ((400, failure), rt)
  update_with r name rt (some c) = update_parsed r name rt c.enabled (
      if eqb c.secret []
      then ok none
      else given (parse_secret out.hex_decode out.base64_decode c.secret))

  unfoldable pub update_user_by_name : Request → Runtime utls → Bytes → Response × Runtime utls
  unfolding update_with
  update_user_by_name r rt name = update_with r name rt (out.decode_update r.body)

  unfoldable pub end_deleted : Option (RuntimeError utls) × Runtime utls → Response × Runtime utls
  end_deleted (some e, rt) = ((500, failure), rt)
  end_deleted (none, rt) = ((204, no_body), rt)

  unfoldable pub end_removed :
      Runtime utls → Option ManagerError × Manager → Response × Runtime utls
  unfolding end_deleted
  end_removed rt (some e, m) = ((400, failure), with_manager rt m)
  end_removed rt (none, m) = end_deleted (saved (with_manager rt m))

  unfoldable pub delete_user : Runtime utls → Bytes → Response × Runtime utls
  unfolding end_removed
  delete_user rt name = end_removed rt (remove_user rt.users name)

  unfoldable pub handle_users : Request → Runtime utls → Response × Runtime utls
  unfolding by_method list_users create_user
  handle_users r rt =
      by_method r.method (list_users r rt) (create_user r rt) (((405, failure), rt))
        (((405, failure), rt)) (((405, failure), rt))

  unfoldable pub handle_named : Request → Runtime utls → Bytes → Response × Runtime utls
  unfolding by_method get_user update_user_by_name delete_user
  handle_named r rt name =
      by_method r.method (get_user r rt name) (((405, failure), rt)) (update_user_by_name r rt name)
        (delete_user rt name) (((405, failure), rt))

  unfoldable pub handle_user_by_name : Request → Runtime utls → Response × Runtime utls
  unfolding handle_named
  handle_user_by_name r rt =
      let name = trim_prefix r.path (codes "/api/v1/users/") in
      if eqb name [] || contains name (codes "/")
      then ((404, failure), rt)
      else handle_named r rt name
