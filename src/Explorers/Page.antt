-- ===== src/Explorers/Page.antt =====
-- The page of pages/Explorer.tsx: its fields, `execute` before and after its wait, and the history.
use vault_vk.Common.{
  ℕ, Bool, true, false, not, List, [], ◌∷◌, ◌++◌, Option, none, some, take, get_elem?, remove_at,
  if◌then◌else◌, get_or_else,
}
use vault_vk.Text.{Text, codes}
use vault_vk.Text.Trim.{is_nil, trim}
use vault_vk.Requests.Build.{Op, get, set, del, scan, Request, build_request}

-- A field of the reply of any type: whether it is truthy, and as text.
pub record Said : Type 0 where
  pub truthy : Bool
  pub text : Text

-- The reply's body: a field is none where it is null or undefined, and `value` also where it is not a
-- string. `items` and `printed` are what `JSON.stringify` makes of the items and of the whole.
pub record Data (N : Type 0) : Type 0 where
  pub latency_ms : Option N
  pub items : Option Text
  pub value : Option Text
  pub error : Option Said
  pub detail : Option Text
  pub printed : Text

-- What a request comes to: an exception with its message, or a reply that parses.
pub data Outcome (N : Type 0) : Type 0 where
  failed : Text → Outcome N
  replied : (ok : Bool) → Data N → Outcome N

pub record ResultRow (N : Type 0) : Type 0 where
  pub op : Op
  pub key : Text
  pub value : Option Text
  pub latency_ms : N
  pub ok : Bool
  pub error : Option Text
  pub ts : N

-- What `execute` keeps while it waits.
pub record Call : Type 0 where
  pub op : Op
  pub requested_key : Text

-- `performance.now() - t0` and `Date.now()` when a call is over.
pub record Clock (N : Type 0) : Type 0 where
  pub elapsed : N
  pub ts : N

pub record Explorer (N : Type 0) : Type 0 where
  pub op : Op
  pub key : Text
  pub val : Text
  pub target : Option ℕ
  pub loading : Bool
  pub history : List (ResultRow N)
  -- Calls of `execute` that wait for the gateway.
  pub pending : List Call

pub data Event (N : Type 0) : Type 0 where
  choose_op : Op → Event N
  type_key type_val : Text → Event N
  choose_node : Option ℕ → Event N
  -- The two buttons that fill the fields.
  sample_set sample_get : Event N
  -- `execute` is called, by the button or by the Enter key. The clock counts if the call is over at
  -- once.
  submit : Clock N → Event N
  -- The call at this place is over.
  answer : (place : ℕ) → Clock N → Outcome N → Event N

abbrev shown_key : Text → Text
shown_key requested_key = if is_nil requested_key then codes "(empty-prefix)" else requested_key

abbrev said_or_printed : Option Said → Text → Text
said_or_printed none printed = printed
said_or_printed (some s) printed = if s.truthy then s.text else printed

module _ {N : Type 0} where
  unfoldable pub can_run : Explorer N → Bool
  can_run e = elim e.op [
    | scan ↦ true
    | get ↦ not (is_nil (trim e.key))
    | set ↦ not (is_nil (trim e.key))
    | del ↦ not (is_nil (trim e.key))
  ]

  abbrev value_or_error : Data N → Text
  value_or_error d = elim d.value [ some v ↦ v | none ↦ said_or_printed d.error d.printed ]

  unfoldable pub value_text : Op → Data N → Text
  value_text scan d = get_or_else d.items (codes "[]")
  value_text op d = value_or_error d

  unfoldable pub error_text : Data N → Text
  error_text d = elim d.error [
    | some s ↦ s.text
    | none ↦ get_or_else d.detail (codes "request failed")
  ]

  -- The row that a call adds to the history.
  unfoldable pub row_of : Call → Clock N → Outcome N → ResultRow N
  unfolding value_text error_text
  row_of c clock (replied ok d) = record {
    op = c.op;
    key = shown_key c.requested_key;
    value = some (value_text c.op d);
    latency_ms = get_or_else d.latency_ms clock.elapsed;
    ok = ok;
    error = if ok then none else some (error_text d);
    ts = clock.ts;
  }
  row_of c clock (failed message) = record {
    op = c.op;
    key = shown_key c.requested_key;
    value = none;
    latency_ms = clock.elapsed;
    ok = false;
    error = some message;
    ts = clock.ts;
  }

  -- The end of `execute`: the row, and `finally`.
  abbrev pub finish : ResultRow N → Explorer N → Explorer N
  finish row e = record e { history = row ∷ take 99 e.history; loading = false }

  abbrev pub call_of : Explorer N → Call
  call_of e = record { op = e.op; requested_key = trim e.key }

  abbrev pub request_of : Explorer N → Option Request
  request_of e = build_request e.op (trim e.key) e.val e.target

  -- The row of a key that the encoding throws on.
  abbrev pub malformed_row : Clock N → Explorer N → ResultRow N
  malformed_row clock e = row_of (call_of e) clock (failed (codes "URI malformed"))

  -- `execute` up to its wait.
  abbrev pub send : Clock N → Option Request → Explorer N → Explorer N
  send clock none e = finish (malformed_row clock e) e
  send clock (some r) e = record e { loading = true; pending = e.pending ++ call_of e ∷ [] }

  -- `execute` after it.
  abbrev pub receive : ℕ → Clock N → Outcome N → Option Call → Explorer N → Explorer N
  receive place clock outcome none e = e
  receive place clock outcome (some c) e =
      finish (row_of c clock outcome) (record e { pending = remove_at place e.pending })

  unfoldable pub step : Event N → Explorer N → Explorer N
  step (choose_op op) e = record e { op = op }
  step (type_key key) e = record e { key = key }
  step (type_val val) e = record e { val = val }
  step (choose_node target) e = record e { target = target }
  step sample_set e = record e { op = set; key = codes "hello"; val = codes "world" }
  step sample_get e = record e { op = get; key = codes "hello" }
  step (submit clock) e = if can_run e then send clock (request_of e) e else e
  step (answer place clock outcome) e = receive place clock outcome (get_elem? e.pending place) e

  unfoldable pub opening : Explorer N
  opening = record {
    op = get;
    key = [];
    val = [];
    target = none;
    loading = false;
    history = [];
    pending = [];
  }

  abbrev pub run : Explorer N → List (Event N) → Explorer N
  run e [] = e
  run e (a ∷ evs) = run (step a e) evs
