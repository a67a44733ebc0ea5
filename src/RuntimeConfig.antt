-- ===== src/RuntimeConfig.antt =====
-- frontend/src/lib/runtimeConfig.ts: the addresses of the gateway. The build's variables and the
-- page's location are arguments; so is the browser's URL parser, which the code does not contain.
pub mod Urls
mod Examples
use vault_vk.Common.{
  ◌≡◌, Bool, List, [], ◌∷◌, ◌++◌, Option, none, some, ◌==◌, if◌then◌else◌, get_or_else,
}
use vault_vk.Text.{Text, codes, text_eq, starts_with}
use vault_vk.Text.Trim.{is_nil, trim, trim_end_while}
use Prim.Native.Nat.{ℕ}

-- `import.meta.env.VITE_API_BASE_URL` and `VITE_WS_BASE_URL`, none where undefined.
pub record Env : Type 0 where
  pub vite_api_base_url : Option Text
  pub vite_ws_base_url : Option Text

-- `location`, and what `new URL(text)` has of the same fields.
pub record Location : Type 0 where
  pub protocol : Text
  pub host : Text

abbrev pub is_slash : ℕ → Bool
is_slash c = c == b'/'

unfoldable pub trim_trailing_slash : Text → Text
trim_trailing_slash value = trim_end_while is_slash value

unfoldable pub ensure_leading_slash : Text → Text
unfolding starts_with
ensure_leading_slash path = if starts_with (codes "/") path then path else codes "/" ++ path

-- `variable?.trim() ?? ""`
abbrev trimmed : Option Text → Text
trimmed none = []
trimmed (some value) = trim value

unfoldable pub raw_api_base : Env → Text
raw_api_base env = trimmed env.vite_api_base_url

unfoldable pub raw_ws_base : Env → Text
raw_ws_base env = trimmed env.vite_ws_base_url

unfoldable pub api_base : Env → Text
api_base env = if is_nil (raw_api_base env) then [] else trim_trailing_slash (raw_api_base env)

unfoldable pub ws_base : Env → Text
ws_base env = if is_nil (raw_ws_base env) then [] else trim_trailing_slash (raw_ws_base env)

unfoldable pub api_url : Env → Text → Text
api_url env path =
    let normalized_path = ensure_leading_slash path in
    if is_nil (api_base env) then normalized_path else api_base env ++ normalized_path

module _ (parse_url : Text → Option Location) where
  -- The last two lines of `wsUrl`.
  same_origin : Location → Text → Text
  same_origin location normalized_path =
      let proto = if text_eq location.protocol (codes "https:") then codes "wss" else codes "ws" in
      proto ++ codes "://" ++ location.host ++ normalized_path

  unfoldable pub ws_url : Env → Location → Text → Text
  unfolding same_origin
  ws_url env location path =
      let normalized_path = ensure_leading_slash path in
      if is_nil (ws_base env)
      then if is_nil (api_base env)
        then same_origin location normalized_path
        else elim (parse_url (api_base env)) [
          | none ↦ same_origin location normalized_path
          | some parsed ↦
              (if text_eq parsed.protocol (codes "https:") then codes "wss:" else codes "ws:")
              ++ codes "//"
              ++ parsed.host
              ++ normalized_path
        ]
      else ws_base env ++ normalized_path
