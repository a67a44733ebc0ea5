-- ===== src/Explorers/ViewLog.antt =====
-- The rows of the view beside a log of all calls that are over.
use vault_vk.Common.{
  ℕ, suc, ◌+◌, ◌≡◌, refl, Bool, true, false, List, [], ◌∷◌, Option, none, some, arith, take, length,
  length-append, length-remove_at, push_front, get_elem?, remove_at, if◌then◌else◌,
}
use vault_vk.Text.{Text}
use vault_vk.Requests.Build.{Request}
use vault_vk.Explorers.View.{
  Call, Outcome, Row, View, Event, choose_op, type_key, type_value, apply_example, submit, answer,
  row_of, call_of, can_execute, add_row, malformed_row, send, receive, request_of, step, opening,
  run,
}

-- The log of all rows, newest first, and the number of calls started.
abbrev sent_rows : Text → Option Request → View → List Row → List Row
sent_rows latency none v log = malformed_row latency v ∷ log
sent_rows latency (some r) v log = log

abbrev received_rows : Text → Outcome → Option Call → List Row → List Row
received_rows latency outcome none log = log
received_rows latency outcome (some c) log = row_of c latency outcome ∷ log

abbrev pub log_step : Event → View → List Row → List Row
log_step (submit latency) v log =
    if can_execute v then sent_rows latency (request_of v) v log else log
log_step (answer place latency outcome) v log =
    received_rows latency outcome (get_elem? v.pending place) log
log_step a v log = log

abbrev pub count_step : Event → View → ℕ → ℕ
count_step (submit latency) v n = if can_execute v then suc n else n
count_step a v n = n

abbrev pub log_from : View → List Row → List Event → List Row
log_from v log [] = log
log_from v log (a ∷ evs) = log_from (step a v) (log_step a v log) evs

abbrev pub started_from : View → ℕ → List Event → ℕ
started_from v n [] = n
started_from v n (a ∷ evs) = started_from (step a v) (count_step a v n) evs

pub record Tally (v : View) (log : List Row) (started : ℕ) : Type 0 where
  pub newest : v.rows ≡ take 50 log
  pub all : length log + length v.pending ≡ started

add_row-Tally :
    (row : Row) (v : View) (log : List Row) (pending : List Call) (n m : ℕ)
    → Tally v log n
    → suc (length log) + length pending ≡ m
    → Tally (add_row row (record v { pending = pending })) (row ∷ log) m
add_row-Tally row v log pending n m h k = record {
  newest = push_front 49 row v.rows log h.newest;
  all = k;
}

send-Tally :
    (latency : Text) (o : Option Request) (v : View) (log : List Row) (n : ℕ)
    → Tally v log n
    → Tally (send latency o v) (sent_rows latency o v log) (suc n)
send-Tally latency none v log n h =
    add_row-Tally (malformed_row latency v) v log v.pending n (suc n) h (omega (arith, h.all))
send-Tally latency (some r) v log n h = record {
  newest = h.newest;
  all = omega (arith, h.all, length-append v.pending (call_of v ∷ []));
}

submit-Tally :
    (b : Bool) (latency : Text) (v : View) (log : List Row) (n : ℕ)
    → Tally v log n
    → Tally
        (if b then send latency (request_of v) v else v)
        (if b then sent_rows latency (request_of v) v log else log)
        (if b then suc n else n)
submit-Tally true latency v log n h = send-Tally latency (request_of v) v log n h
submit-Tally false latency v log n h = h

receive-Tally :
    (place : ℕ) (latency : Text) (outcome : Outcome) (o : Option Call) (v : View) (log : List Row)
    (n : ℕ)
    → get_elem? v.pending place ≡ o
    → Tally v log n
    → Tally (receive place latency outcome o v) (received_rows latency outcome o log) n
receive-Tally place latency outcome none v log n g h = h
receive-Tally place latency outcome (some c) v log n g h =
    add_row-Tally (row_of c latency outcome) v log (remove_at place v.pending) n n h
      (omega (arith, h.all, length-remove_at place v.pending g))

step-Tally :
    (a : Event) (v : View) (log : List Row) (n : ℕ)
    → Tally v log n
    → Tally (step a v) (log_step a v log) (count_step a v n)
unfolding step
step-Tally (choose_op op) v log n h = record { newest = h.newest; all = h.all }
step-Tally (type_key key) v log n h = record { newest = h.newest; all = h.all }
step-Tally (type_value value) v log n h = record { newest = h.newest; all = h.all }
step-Tally (apply_example op key value) v log n h = record { newest = h.newest; all = h.all }
step-Tally (submit latency) v log n h = submit-Tally (can_execute v) latency v log n h
step-Tally (answer place latency outcome) v log n h =
    receive-Tally place latency outcome (get_elem? v.pending place) v log n refl h

run-Tally :
    (evs : List Event) (v : View) (log : List Row) (n : ℕ)
    → Tally v log n
    → Tally (run v evs) (log_from v log evs) (started_from v n evs)
run-Tally [] v log n h = h
run-Tally (a ∷ evs) v log n h =
    run-Tally evs (step a v) (log_step a v log) (count_step a v n) (step-Tally a v log n h)

-- From the opening of the view, after any events, however its calls overlap: the table has the newest
-- 50 of the rows of the calls that are over, newest first, and every call that was started is over,
-- with one row, or still waits.
pub run-opening-Tally :
    (evs : List Event)
    → Tally (run opening evs) (log_from opening [] evs) (started_from opening 0 evs)
unfolding opening
run-opening-Tally evs = run-Tally evs opening [] 0 (record { newest = refl; all = refl })
