-- ===== src/RuntimeConfig/Urls.antt =====
-- What the addresses of runtimeConfig.ts look like, for every setting of the build's variables.
use vault_vk.Common.{
  ◌≡◌, refl, inl, inr, true, false, [], ◌∷◌, ◌++◌, Option, none, some, arith, if◌then◌else◌, All,
  Bool-cases,
}
use vault_vk.Text.{Text, codes, text_eq}
use vault_vk.Text.Trim.{is_nil, is_nil-eq, ends_in, ends_in-trim_end_while, trim_end_while-append}
use vault_vk.RuntimeConfig.{
  Env, Location, is_slash, trim_trailing_slash, ensure_leading_slash, raw_api_base, api_base,
  ws_base, api_url, ws_url,
}

-- Trimming cuts a run of slashes off the end, and all of it.
pub trim_trailing_slash-append :
    (value : Text)
    → (run : Text) × (value ≡ trim_trailing_slash value ++ run) × All (λ c. is_slash c ≡ true) run
unfolding trim_trailing_slash
trim_trailing_slash-append value = trim_end_while-append is_slash value

pub ends_in-api_base : (env : Env) → ends_in is_slash (api_base env) ≡ false
unfolding api_base trim_trailing_slash
ends_in-api_base env = ground (arith, ends_in-trim_end_while is_slash (raw_api_base env))

api_base-append :
    (env : Env)
    → (run : Text) × (raw_api_base env ≡ api_base env ++ run) × All (λ c. is_slash c ≡ true) run
unfolding api_base
api_base-append env = elim (Bool-cases (is_nil (raw_api_base env))) [
  | inl e ↦ ([], ground (arith, is_nil-eq (raw_api_base env)), tt)
  | inr e ↦ rw (e, if◌then◌else◌) (trim_trailing_slash-append (raw_api_base env))
]

-- A path with its leading slash taken off, or as it is where it has none.
abbrev pub below_root : Text → Text
below_root [] = []
below_root (c ∷ path) = if is_slash c then path else c ∷ path

ensure_leading_slash_lem : (path : Text) → ensure_leading_slash path ≡ b'/' ∷ below_root path
unfolding ensure_leading_slash
ensure_leading_slash_lem [] = refl
ensure_leading_slash_lem (c ∷ path) = ground arith

-- For every build setting and path, the address is the base, one slash, and the path without its
-- own leading slash; the base does not end in a slash, and it is the trimmed variable less a run of
-- slashes at its end.
pub api_url_joins :
    (env : Env) (path : Text)
    → (api_url env path ≡ api_base env ++ b'/' ∷ below_root path)
      × (ends_in is_slash (api_base env) ≡ false)
      × ((run : Text) × (raw_api_base env ≡ api_base env ++ run) × All (λ c. is_slash c ≡ true) run)
unfolding api_url
api_url_joins env path = (
  ground (arith, ensure_leading_slash_lem path, is_nil-eq (api_base env)),
  ends_in-api_base env,
  api_base-append env,
)

-- The server that `ws_url` goes to where no address for web sockets is set: the API's, if its base
-- parses, and otherwise the page's.
abbrev pub origin : (Text → Option Location) → Env → Location → Location
origin parse_url env location =
    if is_nil (api_base env)
    then location
    else elim (parse_url (api_base env)) [ none ↦ location | some parsed ↦ parsed ]

-- Where no web socket base is set, the socket's address is secure exactly when the server's protocol
-- is `https:`, and it names that server's host and the path, whatever branch computes it.
pub ws_url-origin :
    (parse_url : Text → Option Location) (env : Env) (location : Location) (path : Text)
    → ws_base env ≡ []
    → ws_url parse_url env location path
      ≡ (if text_eq (origin parse_url env location).protocol (codes "https:")
          then codes "wss://"
          else codes "ws://")
        ++ (origin parse_url env location).host
        ++ b'/' ∷ below_root path
unfolding ws_url
ws_url-origin parse_url env location path h = ground (arith, ensure_leading_slash_lem path)
