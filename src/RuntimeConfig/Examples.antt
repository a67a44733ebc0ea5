-- ===== src/RuntimeConfig/Examples.antt =====
-- The addresses at concrete settings.
use vault_vk.Common.{◌≡◌, refl, [], Option, none, some, if◌then◌else◌}
use vault_vk.Text.{Text, codes, text_eq}
use vault_vk.Text.Trim.{trim}
use vault_vk.RuntimeConfig.{
  Env, Location, raw_api_base, api_base, ws_base, raw_ws_base, api_url, ws_url,
  ensure_leading_slash, trim_trailing_slash,
}

abbrev remote : Env
remote = record {
  vite_api_base_url = some (codes " https://gw.example// ");
  vite_ws_base_url = none;
}

abbrev page : Location
page = record { protocol = codes "http:"; host = codes "localhost:3000" }

-- A parser that knows one address.
abbrev parser : Text → Option Location
parser url =
    if text_eq url (codes "https://gw.example")
    then some (record { protocol = codes "https:"; host = codes "gw.example" })
    else none

remote_api : api_url remote (codes "api/keys") ≡ codes "https://gw.example/api/keys"
unfolding api_url api_base raw_api_base trim trim_trailing_slash ensure_leading_slash
remote_api = refl

remote_ws : ws_url parser remote page (codes "/ws/metrics") ≡ codes "wss://gw.example/ws/metrics"
unfolding ws_url ws_base raw_ws_base api_base raw_api_base trim trim_trailing_slash
    ensure_leading_slash text_eq
remote_ws = refl

no_ws_base : ws_base remote ≡ []
unfolding ws_base raw_ws_base
no_ws_base = refl
