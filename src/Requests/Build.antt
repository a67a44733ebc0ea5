-- ===== src/Requests/Build.antt =====
-- The method, path and body of each request. `JSON.stringify({ key, value })` is kept as the pair.
use vault_vk.Requests.Encode.{encode_uri_component-IsEncoded}
use vault_vk.Text.Decimal.{show-IsDigit}
use vault_vk.Common.{
  Bool-cases, subst, ◌∙◌, append-nil, inl, inr, Option-cases, ℕ, ◌+◌, ◌≡◌, refl, ◌⊎◌, [], ◌∷◌, ◌++◌,
  Option, none, some, arith, ◌==◌, if◌then◌else◌, All,
}
use vault_vk.Text.{Text, codes}
use vault_vk.Text.Decimal.{show, IsDigit}
use vault_vk.Requests.Encode.{encode_uri_component, IsEncoded, is_unreserved}

pub data Op : Type 0 where
  get set del scan : Op

pub data Method : Type 0 where
  http_get http_post http_delete : Method

pub record Request : Type 0 where
  pub method : Method
  pub path : Text
  pub body : Option (Text × Text)

infixl 5 ◌>>=◌
abbrev pub ◌>>=◌ {ℓ κ} : {A : Type ℓ} {B : Type κ} → Option A → (A → Option B) → Option B
none >>= f = none
some a >>= f = f a

abbrev pub plain_request : Method → Text → Request
plain_request method path = record { method = method; path = path; body = none }

-- `node ? `?node=${node}` : ""`, where 0 counts as no node.
unfoldable pub node_query : Option ℕ → Text
node_query none = []
node_query (some n) = if n == 0 then [] else codes "?node=" ++ show n

-- The request of `execute` in pages/Explorer.tsx for a trimmed key; none where the encoding throws.
unfoldable pub build_request : Op → Text → Text → Option ℕ → Option Request
build_request set requested_key val _ =
    some (record { method = http_post; path = codes "/api/keys"; body = some (requested_key, val) })
build_request get requested_key val node = do
  segment ← encode_uri_component requested_key
  some (plain_request http_get (codes "/api/keys/" ++ segment ++ node_query node))
build_request del requested_key val _ = do
  segment ← encode_uri_component requested_key
  some (plain_request http_delete (codes "/api/keys/" ++ segment))
build_request scan requested_key val _ = do
  prefix ← encode_uri_component requested_key
  some (plain_request http_get (codes "/api/keys?prefix=" ++ prefix ++ codes "&limit=50"))

-- How often a character stands in a text.
abbrev pub count : ℕ → Text → ℕ
count c [] = 0
count c (d ∷ s) = let rest = count c s in if d == c then rest + 1 else rest

count-append : (c : ℕ) (s t : Text) → count c (s ++ t) ≡ count c s + count c t
count-append c [] t = omega arith
count-append c (d ∷ s) t = ground (arith, count-append c s t)

-- Slash, question mark, ampersand, hash.
abbrev pub IsDelimiter : ℕ → Type 0
IsDelimiter c = (c ≡ b'/') ⊎ (c ≡ b'?') ⊎ (c ≡ b'&') ⊎ (c ≡ b'#')

count-IsEncoded : (c : ℕ) (s : Text) → IsDelimiter c → All IsEncoded s → count c s ≡ 0
unfolding is_unreserved
count-IsEncoded c [] d h = refl
count-IsEncoded c (e ∷ s) d h = ground (arith, count-IsEncoded c s d h.1)

count-IsDigit : (c : ℕ) (s : Text) → IsDelimiter c → All IsDigit s → count c s ≡ 0
count-IsDigit c [] d h = refl
count-IsDigit c (e ∷ s) d h = ground (arith, count-IsDigit c s d h.1)

-- What the gateway sees of a path: its delimiters.
pub record Delimiters (path : Text) (slashes queries ampersands : ℕ) : Type 0 where
  pub slash : count b'/' path ≡ slashes
  pub query : count b'?' path ≡ queries
  pub ampersand : count b'&' path ≡ ampersands
  pub hash : count b'#' path ≡ 0

unfoldable pub slashes : Op → ℕ
slashes get = 3
slashes del = 3
slashes set = 2
slashes scan = 2

-- A node is named in the query if it is not 0.
unfoldable pub queries : Op → Option ℕ → ℕ
queries get none = 0
queries get (some node) = if node == 0 then 0 else 1
queries scan _ = 1
queries _ _ = 0

unfoldable pub ampersands : Op → ℕ
ampersands scan = 1
ampersands op = 0

count-around :
    (c : ℕ) (before s after : Text)
    → IsDelimiter c
    → All IsEncoded s
    → count c (before ++ s ++ after) ≡ count c before + count c after
count-around c before s after d h =
    omega
      (arith, count-append c (before ++ s) after, count-append c before s, count-IsEncoded c s d h)

-- A text with an encoded part has the delimiters of what stands round it.
around-Delimiters :
    (before s after : Text) (n q a : ℕ)
    → All IsEncoded s
    → (count b'/' before + count b'/' after ≡ n)
      × (count b'?' before + count b'?' after ≡ q)
      × (count b'&' before + count b'&' after ≡ a)
      × (count b'#' before + count b'#' after ≡ 0)
    → Delimiters (before ++ s ++ after) n q a
around-Delimiters before s after n q a h k = record {
  slash = count-around b'/' before s after (inl refl) h ∙ k.0;
  query = count-around b'?' before s after (inr (inl refl)) h ∙ k.1;
  ampersand = count-around b'&' before s after (inr (inr (inl refl))) h ∙ k.2;
  hash = count-around b'#' before s after (inr (inr (inr refl))) h ∙ k.3;
}

node_query-counts :
    (node : Option ℕ)
    → (count b'/' (node_query node) ≡ 0)
      × (count b'?' (node_query node) ≡ queries get node)
      × (count b'&' (node_query node) ≡ 0)
      × (count b'#' (node_query node) ≡ 0)
unfolding node_query queries
node_query-counts none = (refl, refl, refl, refl)
node_query-counts (some node) =
    let none_of =
      λ (c : ℕ) (d : IsDelimiter c). count-IsDigit c (show node) d (show-IsDigit node) in
    elim (Bool-cases (node == 0)) [
      | inl e ↦ rw (e, if◌then◌else◌) (refl, refl, refl, refl)
      | inr e ↦
          rw (e, if◌then◌else◌)
            (
              none_of b'/' (inl refl),
              omega (arith, none_of b'?' (inr (inl refl))),
              none_of b'&' (inr (inr (inl refl))),
              none_of b'#' (inr (inr (inr refl))),
            )
    ]

abbrev WhenDelimited : Op → Option ℕ → Option Request → Type 0
WhenDelimited op target none = Unit
WhenDelimited op target (some r) =
    Delimiters r.path (slashes op) (queries op target) (ampersands op)

build-WhenDelimited :
    (op : Op) (key val : Text) (target : Option ℕ)
    → WhenDelimited op target (build_request op key val target)
unfolding build_request slashes queries ampersands
build-WhenDelimited set key val target = record {
  slash = refl;
  query = refl;
  ampersand = refl;
  hash = refl;
}
build-WhenDelimited get key val target = elim (Option-cases (encode_uri_component key)) [
  | inl e ↦ rw (e, build_request) tt
  | inr (s, e) ↦
      rw (e, build_request)
        (around-Delimiters (codes "/api/keys/") s (node_query target) 3 (queries get target) 0
          (encode_uri_component-IsEncoded key e) (omega (arith, node_query-counts target)))
]
build-WhenDelimited del key val target = elim (Option-cases (encode_uri_component key)) [
  | inl e ↦ rw (e, build_request) tt
  | inr (s, e) ↦
      rw (e, build_request)
        (rw (← append-nil s) (
          around-Delimiters (codes "/api/keys/") s [] 3 0 0 (encode_uri_component-IsEncoded key e)
            (refl, refl, refl, refl)))
]
build-WhenDelimited scan key val target = elim (Option-cases (encode_uri_component key)) [
  | inl e ↦ rw (e, build_request) tt
  | inr (s, e) ↦
      rw (e, build_request)
        (around-Delimiters (codes "/api/keys?prefix=") s (codes "&limit=50") 2 1 1
          (encode_uri_component-IsEncoded key e) (refl, refl, refl, refl))
]

-- No key, value or node can add to the shape of a request's path: whatever they are, the path has the
-- slashes, question marks and ampersands of its operation (three slashes for `get` and `del`, two for
-- `set` and `scan`; a question mark for `scan` and for `get` with a node other than 0; an ampersand
-- for `scan`) and no hash.
pub build_request-Delimiters :
    (op : Op) (key val : Text) (target : Option ℕ) {r : Request}
    → build_request op key val target ≡ some r
    → Delimiters r.path (slashes op) (queries op target) (ampersands op)
build_request-Delimiters op key val target e =
    subst (WhenDelimited op target) e (build-WhenDelimited op key val target)
