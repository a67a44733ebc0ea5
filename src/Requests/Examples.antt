-- ===== src/Requests/Examples.antt =====
-- Requests for keys with characters that have a meaning in a path.
use vault_vk.Common.{◌≡◌, refl, [], ◌∷◌, none, some}
use vault_vk.Text.{codes, text_eq}
use vault_vk.Requests.Encode.{encode_uri_component}
use vault_vk.Requests.Decode.{decode_uri_component}
use vault_vk.Requests.Received.{received}
use vault_vk.Requests.Build.{del, http_get, http_delete, Request, build_request}

abbrev asked : Request
asked = record { method = http_get; path = codes "/api/keys/a%2Fb%3F?node=2"; body = none }

-- A key of two dots stands in the path as it is.
dots_built :
    build_request del (codes "..") [] none
    ≡ some (record { method = http_delete; path = codes "/api/keys/.."; body = none })
unfolding build_request encode_uri_component
dots_built = refl

-- Without the encoding, the question mark would end the path.
unencoded_is_misread :
    (received (record { method = http_get; path = codes "/api/keys/a/b?"; body = none })).path
    ≡ codes "api" ∷ codes "keys" ∷ codes "a" ∷ codes "b" ∷ []
unfolding text_eq decode_uri_component
unencoded_is_misread = refl
