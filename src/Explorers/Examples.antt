-- ===== src/Explorers/Examples.antt =====
-- Two reads that overlap, and one that is refused.
use vault_vk.Common.{ℕ, ◌≡◌, refl, true, false, List, [], ◌∷◌, none, some, is_some, length}
use vault_vk.Text.{codes}
use vault_vk.Text.Trim.{trim}
use vault_vk.Requests.Build.{get, build_request}
use vault_vk.Requests.Encode.{encode_uri_component}
use vault_vk.Explorers.Page.{
  Clock, Data, replied, failed, row_of, value_text, Explorer, Event, type_key, submit, answer,
  can_run, call_of, request_of, opening, run,
}
use vault_vk.Store.Defs.{NodeMeta}
use vault_vk.Explorers.Page as Page
use vault_vk.Explorers.Form.{sorted_nodes}
use vault_vk.Explorers.Menu.{ids}
use vault_vk.Explorers.PageLog.{Accounts, log_from, started_from, run-opening-Accounts}
use vault_vk.Explorers.View

abbrev clock : Clock ℕ
clock = record { elapsed = 4; ts = 100 }

abbrev found : Data ℕ
found = record {
  latency_ms = some 3;
  items = none;
  value = some (codes "v");
  error = none;
  detail = none;
  printed = codes "{}";
}

abbrev events : List (Event ℕ)
events =
    type_key (codes "k") ∷ submit clock ∷ submit clock ∷ answer 1 clock (replied true found) ∷ []

run-opening-Accounts_example :
    Accounts (run opening events) (log_from opening [] events) (started_from opening 0 events)
run-opening-Accounts_example = run-opening-Accounts events

abbrev typed : Explorer ℕ
typed = record {
  op = get;
  key = codes "k";
  val = [];
  target = none;
  loading = false;
  history = [];
  pending = [];
}

typed-can_run : can_run typed ≡ true
unfolding can_run trim
typed-can_run = refl

typed_request : is_some (request_of typed) ≡ true
unfolding build_request trim encode_uri_component
typed_request = refl

abbrev view_events : List View.Event
view_events =
    View.type_key (codes "k")
    ∷ View.submit (codes "1ms")
    ∷ View.answer 0 (codes "2ms") (View.failed (codes "down"))
    ∷ []

-- Three calls, of which one is over; the two others end, one of them with an exception.
abbrev three_calls : List (Event ℕ)
three_calls =
    type_key (codes "k")
    ∷ submit clock
    ∷ submit clock
    ∷ submit clock
    ∷ answer 1 clock (replied true found)
    ∷ []

two_wait : 2 ≡ length (run opening three_calls).pending
unfolding opening Page.step can_run build_request trim encode_uri_component
two_wait = refl

-- A key that is not there: FastAPI puts its message under `detail`.
abbrev not_found : Data ℕ
not_found = record {
  latency_ms = none;
  items = none;
  value = none;
  error = none;
  detail = some (codes "key not found");
  printed = codes "{...}";
}

abbrev node_of : ℕ → NodeMeta ℕ
node_of id = record {
  node_id = id;
  host = [];
  port = 0;
  healthy = true;
  is_leader = false;
  ops_set = 0;
  ops_get = 0;
  lag_ms = 0;
  latency_us = 0;
  key_count = 0;
}

abbrev mixed : List (NodeMeta ℕ)
mixed = node_of 3 ∷ node_of 1 ∷ node_of 2 ∷ []

in_order_of_ids : ids (sorted_nodes mixed) ≡ 1 ∷ 2 ∷ 3 ∷ []
unfolding sorted_nodes
in_order_of_ids = refl
