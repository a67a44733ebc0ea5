-- ===== src/Requests/Received/Reads.antt =====
-- The requests of Explorer.tsx as they are read from their targets.
use vault_vk.Common.{ℕ, ◌≡◌, true, false, List, [], ◌∷◌, ◌++◌, Option, none, All, ◌==◌, ◌⊎◌}
use vault_vk.Text.{Text, codes}
use vault_vk.Text.Decimal.{show}
use vault_vk.Requests.Encode.{IsEncoded}
use vault_vk.Requests.Decode.{decode_uri_component}
use vault_vk.Requests.Build.{get, Method}
use vault_vk.Requests.Received.{Received, is_segment}

abbrev Lacks : ℕ → Text → Type 0
Lacks c s = All (λ d. (d == c) ≡ false) s

-- The characters that have a meaning in a target.
abbrev IsMark : ℕ → Type 0
IsMark c = (c ≡ b'/') ⊎ (c ≡ b'?') ⊎ (c ≡ b'&') ⊎ (c ≡ b'#') ⊎ (c ≡ b'=')

abbrev key_path : Text → Text
key_path s = codes "/api/keys/" ++ s

abbrev node_part : ℕ → Text
node_part n = b'?' ∷ (codes "node=" ++ show n)

-- A request whose path is that of a key, and perhaps a query.
module _ (method : Method) (key s : Text) (d : decode_uri_component s ≡ key) (h : All IsEncoded s)
    (k : is_segment get key ≡ true) where
  abbrev of_key : List (Text × Option Text) → Received
  of_key query = record {
    method = method;
    path = codes "api" ∷ codes "keys" ∷ key ∷ [];
    query = query;
    body = none;
  }
