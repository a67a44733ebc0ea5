-- ===== src/Requests/Received.antt =====
-- A request as an HTTP server reads its target: the path without the fragment, at the first question mark
-- from the query, its dot segments resolved and each segment decoded; the query's parameters with their
-- values decoded.
pub mod Reads
use vault_vk.Common.{
  ℕ, Bool, true, not, ◌&&◌, List, [], ◌∷◌, ◌++◌, map, Option, none, some, ◌==◌, if◌then◌else◌,
}
use vault_vk.Text.{Text, codes, text_eq}
use vault_vk.Text.Decimal.{show}
use vault_vk.Requests.Decode.{decode_uri_component}
use vault_vk.Requests.Build.{
  Op, get, set, del, scan, Method, http_get, http_post, http_delete, Request,
}

-- A text up to the first of a character, and what stands behind it.
abbrev pub cut : ℕ → Text → Text × Option Text
cut c [] = ([], none)
cut c (d ∷ s) = let rest = cut c s in if d == c then ([], some s) else (d ∷ rest.0, rest.1)

abbrev longer : ℕ → List Text → List Text
longer d [] = (d ∷ []) ∷ []
longer d (s ∷ ss) = (d ∷ s) ∷ ss

-- The pieces of a text between the places of a character.
abbrev pub split : ℕ → Text → List Text
split c [] = [] ∷ []
split c (d ∷ s) = let rest = split c s in if d == c then [] ∷ rest else longer d rest

abbrev pub without_last : List Text → List Text
without_last [] = []
without_last (s ∷ []) = []
without_last (s ∷ t ∷ ss) = s ∷ without_last (t ∷ ss)

-- A dot segment that ends a path leaves an empty segment there.
abbrev pub closed : List Text → List Text → List Text
closed kept [] = kept ++ [] ∷ []
closed kept (s ∷ ss) = kept

abbrev pub placed : List Text → Text → List Text → List Text
placed kept s rest =
    if text_eq s (codes "..")
    then closed (without_last kept) rest
    else if text_eq s (codes ".")
    then closed kept rest
    else kept ++ s ∷ []

-- The dot segments of a path are resolved.
abbrev pub resolved : List Text → List Text → List Text
resolved kept [] = kept
resolved kept (s ∷ rest) = resolved (placed kept s rest) rest

-- Behind the slash that a path begins with.
abbrev pub segments : Text → List Text
segments [] = []
segments (c ∷ s) = map decode_uri_component (resolved [] (split b'/' s))

abbrev pub param : Text → Text × Option Text
param s =
    let (name, value) = cut b'=' s in
    (name, elim value [ none ↦ none | some v ↦ some (decode_uri_component v) ])

abbrev pub params : Option Text → List (Text × Option Text)
params none = []
params (some q) = map param (split b'&' q)

pub record Received : Type 0 where
  pub method : Method
  pub path : List Text
  pub query : List (Text × Option Text)
  pub body : Option (Text × Text)

abbrev pub received : Request → Received
received r =
    let (target, fragment) = cut b'#' r.path in
    let (path, query) = cut b'?' target in
    record { method = r.method; path = segments path; query = params query; body = r.body }

abbrev pub named_node : Option ℕ → List (Text × Option Text)
named_node none = []
named_node (some n) = if n == 0 then [] else (codes "node", some (show n)) ∷ []

-- What each operation asks for.
abbrev pub asked : Op → Text → Text → Option ℕ → Received
asked get key val node = record {
  method = http_get;
  path = codes "api" ∷ codes "keys" ∷ key ∷ [];
  query = named_node node;
  body = none;
}
asked set key val _ = record {
  method = http_post;
  path = codes "api" ∷ codes "keys" ∷ [];
  query = [];
  body = some (key, val);
}
asked del key val _ = record {
  method = http_delete;
  path = codes "api" ∷ codes "keys" ∷ key ∷ [];
  query = [];
  body = none;
}
asked scan key val _ = record {
  method = http_get;
  path = codes "api" ∷ codes "keys" ∷ [];
  query = (codes "prefix", some key) ∷ (codes "limit", some (codes "50")) ∷ [];
  body = none;
}

-- A key that is no dot segment, where it stands in the path.
abbrev pub is_segment : Op → Text → Bool
is_segment get key = not (text_eq key (codes "..")) && not (text_eq key (codes "."))
is_segment del key = not (text_eq key (codes "..")) && not (text_eq key (codes "."))
is_segment op key = true
