-- ===== src/Explorers/View.antt =====
-- `ExplorerView` of App.tsx: its fields, `execute` before and after its wait, and the rows.
use vault_vk.Common.{
  ℕ, Bool, true, false, not, ◌||◌, List, [], ◌∷◌, ◌++◌, Option, none, some, take, get_elem?,
  remove_at, if◌then◌else◌, get_or_else,
}
use vault_vk.Text.{Text, codes}
use vault_vk.Text.Trim.{is_nil}
use vault_vk.Requests.Build.{Op, get, set, del, scan, Request, build_request}

-- The reply's body: a field is none where it is null or undefined. `items` is what `JSON.stringify`
-- makes of it, the others are texts as `String` makes them. `latency` is the latency as printed.
pub record Body : Type 0 where
  pub items : Option Text
  pub value : Option Text
  pub detail : Option Text

pub data Outcome : Type 0 where
  failed : Text → Outcome
  replied : (ok : Bool) → Body → Outcome

pub record Row : Type 0 where
  pub op : Op
  pub key : Text
  pub result : Text
  pub latency : Text
  pub ok : Bool

pub record Call : Type 0 where
  pub op : Op
  pub key : Text

pub record View : Type 0 where
  pub op : Op
  pub key : Text
  pub value : Text
  pub rows : List Row
  -- Calls of `execute` that wait for the gateway.
  pub pending : List Call

pub data Event : Type 0 where
  choose_op : Op → Event
  type_key type_value : Text → Event
  -- One of the quick examples; its value is none where it has none.
  apply_example : Op → Text → Option Text → Event
  submit : (latency : Text) → Event
  answer : (place : ℕ) (latency : Text) → Outcome → Event

abbrev is_scan : Op → Bool
is_scan scan = true
is_scan get = false
is_scan set = false
is_scan del = false

unfoldable pub result_text : Op → Body → Text
result_text scan b = get_or_else b.items (codes "[]")
result_text op b = get_or_else b.value (get_or_else b.detail (codes "ok"))

-- An exception leaves an empty key as it is.
unfoldable pub row_of : Call → Text → Outcome → Row
unfolding result_text
row_of c latency (replied ok b) = record {
  op = c.op;
  key = if is_nil c.key then codes "(prefix)" else c.key;
  result = result_text c.op b;
  latency = latency;
  ok = ok;
}
row_of c latency (failed message) = record {
  op = c.op;
  key = c.key;
  result = message;
  latency = latency;
  ok = false;
}

abbrev pub call_of : View → Call
call_of v = record { op = v.op; key = v.key }

abbrev pub can_execute : View → Bool
can_execute v = not (is_nil v.key) || is_scan v.op

abbrev pub add_row : Row → View → View
add_row row v = record v { rows = take 50 (row ∷ v.rows) }

abbrev pub malformed_row : Text → View → Row
malformed_row latency v = row_of (call_of v) latency (failed (codes "URI malformed"))

-- `execute` up to its wait, and after it.
abbrev pub send : Text → Option Request → View → View
send latency none v = add_row (malformed_row latency v) v
send latency (some r) v = record v { pending = v.pending ++ call_of v ∷ [] }

abbrev pub receive : ℕ → Text → Outcome → Option Call → View → View
receive place latency outcome none v = v
receive place latency outcome (some c) v =
    add_row (row_of c latency outcome) (record v { pending = remove_at place v.pending })

abbrev pub request_of : View → Option Request
request_of v = build_request v.op v.key v.value none

unfoldable pub step : Event → View → View
step (choose_op op) v = record v { op = op }
step (type_key key) v = record v { key = key }
step (type_value value) v = record v { value = value }
step (apply_example op key value) v = record v { op = op; key = key; value = get_or_else value [] }
step (submit latency) v = if can_execute v then send latency (request_of v) v else v
step (answer place latency outcome) v = receive place latency outcome (get_elem? v.pending place) v

unfoldable pub opening : View
opening = record { op = get; key = []; value = []; rows = []; pending = [] }

abbrev pub run : View → List Event → View
run v [] = v
run v (a ∷ evs) = run (step a v) evs
