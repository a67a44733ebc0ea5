-- ===== src/Explorers/Guide.antt =====
-- The help and the quick examples of `ExplorerView`.
use vault_vk.Common.{List, [], ◌∷◌, Option, none, some, ◌≡◌, refl, true, All}
use vault_vk.Text.{Text, codes}
use vault_vk.Requests.Build.{Op, get, set, del, scan}
use vault_vk.Explorers.View.{View, Event, apply_example, can_execute, step}

pub record Help : Type 0 where
  pub summary : Text
  pub endpoint : Text

unfoldable pub operation_help : Op → Help
operation_help get = record {
  summary = codes "Reads one key from the cluster.";
  endpoint = codes "GET /api/keys/{key}";
}
operation_help set = record {
  summary = codes "Writes or updates one key/value pair.";
  endpoint = codes "POST /api/keys";
}
operation_help del = record {
  summary = codes "Deletes one key from the cluster.";
  endpoint = codes "DELETE /api/keys/{key}";
}
operation_help scan = record {
  summary = codes "Lists keys by prefix match.";
  endpoint = codes "GET /api/keys?prefix=<x>&limit=50";
}

pub record QuickExample : Type 0 where
  pub label : Text
  pub op : Op
  pub key : Text
  pub value : Option Text

abbrev quick : Text → Op → Text → Option Text → QuickExample
quick label op key value = record { label = label; op = op; key = key; value = value }

unfoldable pub quick_examples : List QuickExample
quick_examples =
    quick (codes "Create profile") set (codes "user:1001")
      (some (codes "{\"name\":\"Ava\",\"tier\":\"pro\"}"))
    ∷ quick (codes "Read profile") get (codes "user:1001") none
    ∷ quick (codes "List users") scan (codes "user:") none
    ∷ quick (codes "Delete profile") del (codes "user:1001") none
    ∷ []

-- `applyExample`
abbrev pub applied : QuickExample → Event
applied q = apply_example q.op q.key q.value

unfoldable pub key_placeholder : Op → Text
key_placeholder scan = codes "prefix..."
key_placeholder op = codes "key"

-- Whatever was in the fields, each quick example can be executed once it is applied.
pub quick_examples_run :
    (v : View) → All (λ q. can_execute (step (applied q) v) ≡ true) quick_examples
unfolding quick_examples step
quick_examples_run v = (refl, (refl, (refl, (refl, tt))))
