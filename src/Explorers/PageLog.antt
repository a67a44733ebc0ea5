-- ===== src/Explorers/PageLog.antt =====
-- The history of the page beside a log of all calls that are over.
use vault_vk.Common.{
  ℕ, suc, ◌+◌, ◌<◌, ◌≡◌, refl, ap, ◌∙◌, Bool, true, false, List, [], ◌∷◌, ◌++◌, Option, none, some,
  arith, take, length, length-append, length-remove_at, push_front, get_elem?, remove_at, is_some,
  if◌then◌else◌,
}
use vault_vk.Requests.Build.{Request}
use vault_vk.Explorers.Page.{
  Call, Clock, Outcome, ResultRow, Explorer, Event, choose_op, type_key, type_val, choose_node,
  sample_set, sample_get, submit, answer, can_run, row_of, finish, send, receive, call_of,
  request_of, malformed_row, step, opening, run,
}

module _ {N : Type 0} where
  -- The rows that a call adds to the log at its start, where the key cannot be encoded, and at its
  -- end.
  abbrev sent_rows : Clock N → Option Request → Explorer N → List (ResultRow N) → List (ResultRow N)
  sent_rows clock none e log = malformed_row clock e ∷ log
  sent_rows clock (some r) e log = log

  abbrev received_rows : Clock N → Outcome N → Option Call → List (ResultRow N) → List (ResultRow N)
  received_rows clock outcome none log = log
  received_rows clock outcome (some c) log = row_of c clock outcome ∷ log

  abbrev pub log_step : Event N → Explorer N → List (ResultRow N) → List (ResultRow N)
  log_step (submit clock) e log = if can_run e then sent_rows clock (request_of e) e log else log
  log_step (answer place clock outcome) e log =
      received_rows clock outcome (get_elem? e.pending place) log
  log_step a e log = log

  -- The number of calls that are started.
  abbrev pub count_step : Event N → Explorer N → ℕ → ℕ
  count_step (submit clock) e n = if can_run e then suc n else n
  count_step a e n = n

  abbrev pub log_from : Explorer N → List (ResultRow N) → List (Event N) → List (ResultRow N)
  log_from e log [] = log
  log_from e log (a ∷ evs) = log_from (step a e) (log_step a e log) evs

  abbrev pub started_from : Explorer N → ℕ → List (Event N) → ℕ
  started_from e n [] = n
  started_from e n (a ∷ evs) = started_from (step a e) (count_step a e n) evs

  -- The page with a log of the calls that are over, newest first, and the number of those started.
  pub record Accounts (e : Explorer N) (log : List (ResultRow N)) (started : ℕ) : Type 0 where
    pub newest : e.history ≡ take 100 log
    pub all : length log + length e.pending ≡ started
    pub busy : e.loading ≡ true → 0 < length e.pending

  finish-Accounts :
      (row : ResultRow N) (e : Explorer N) (log : List (ResultRow N)) (pending : List Call)
      (n m : ℕ)
      → Accounts e log n
      → suc (length log) + length pending ≡ m
      → Accounts (finish row (record e { pending = pending })) (row ∷ log) m
  finish-Accounts row e log pending n m v h = record {
    newest = push_front 99 row e.history log v.newest;
    all = h;
    busy = λ b. absurd (ground arith);
  }

  send-Accounts :
      (clock : Clock N) (o : Option Request) (e : Explorer N) (log : List (ResultRow N)) (n : ℕ)
      → Accounts e log n
      → Accounts (send clock o e) (sent_rows clock o e log) (suc n)
  send-Accounts clock none e log n v =
      finish-Accounts (malformed_row clock e) e log e.pending n (suc n) v (omega (arith, v.all))
  send-Accounts clock (some r) e log n v =
      let more = length-append e.pending (call_of e ∷ []) in
      record {
        newest = v.newest;
        all = omega (arith, v.all, more);
        busy = λ b. omega (arith, more);
      }

  submit-Accounts :
      (b : Bool) (clock : Clock N) (e : Explorer N) (log : List (ResultRow N)) (n : ℕ)
      → Accounts e log n
      → Accounts
          (if b then send clock (request_of e) e else e)
          (if b then sent_rows clock (request_of e) e log else log)
          (if b then suc n else n)
  submit-Accounts true clock e log n v = send-Accounts clock (request_of e) e log n v
  submit-Accounts false clock e log n v = v

  receive-Accounts :
      (place : ℕ) (clock : Clock N) (outcome : Outcome N) (o : Option Call) (e : Explorer N)
      (log : List (ResultRow N)) (n : ℕ)
      → get_elem? e.pending place ≡ o
      → Accounts e log n
      → Accounts (receive place clock outcome o e) (received_rows clock outcome o log) n
  receive-Accounts place clock outcome none e log n g v = v
  receive-Accounts place clock outcome (some c) e log n g v =
      finish-Accounts (row_of c clock outcome) e log (remove_at place e.pending) n n v
        (omega (arith, v.all, length-remove_at place e.pending g))

  step-Accounts :
      (a : Event N) (e : Explorer N) (log : List (ResultRow N)) (n : ℕ)
      → Accounts e log n
      → Accounts (step a e) (log_step a e log) (count_step a e n)
  unfolding step
  step-Accounts (choose_op op) e log n v = record { newest = v.newest; all = v.all; busy = v.busy }
  step-Accounts (type_key key) e log n v = record { newest = v.newest; all = v.all; busy = v.busy }
  step-Accounts (type_val val) e log n v = record { newest = v.newest; all = v.all; busy = v.busy }
  step-Accounts (choose_node target) e log n v = record {
    newest = v.newest;
    all = v.all;
    busy = v.busy;
  }
  step-Accounts sample_set e log n v = record { newest = v.newest; all = v.all; busy = v.busy }
  step-Accounts sample_get e log n v = record { newest = v.newest; all = v.all; busy = v.busy }
  step-Accounts (submit clock) e log n v = submit-Accounts (can_run e) clock e log n v
  step-Accounts (answer place clock outcome) e log n v =
      receive-Accounts place clock outcome (get_elem? e.pending place) e log n refl v

  pub run-Accounts :
      (evs : List (Event N)) (e : Explorer N) (log : List (ResultRow N)) (n : ℕ)
      → Accounts e log n
      → Accounts (run e evs) (log_from e log evs) (started_from e n evs)
  run-Accounts [] e log n v = v
  run-Accounts (a ∷ evs) e log n v =
      run-Accounts evs (step a e) (log_step a e log) (count_step a e n) (step-Accounts a e log n v)

  -- From the opening of the page, after any events, however its calls overlap: the history holds the
  -- newest 100 of the rows of the calls that are over, newest first; every call that was started is
  -- over, with one row, or still waits; and the page is shown as loading only while a call waits.
  pub run-opening-Accounts :
      (evs : List (Event N))
      → Accounts (run opening evs) (log_from opening [] evs) (started_from opening 0 evs)
  unfolding opening
  run-opening-Accounts evs =
      run-Accounts evs opening [] 0
        (record { newest = refl; all = refl; busy = λ b. absurd (ground arith) })

  abbrev sent : Explorer N → Explorer N
  sent e = record e { loading = true; pending = e.pending ++ call_of e ∷ [] }

  submit_sends :
      (clock : Clock N) (e : Explorer N)
      → can_run e ≡ true
      → is_some (request_of e) ≡ true
      → step (submit clock) e ≡ sent e
  unfolding step
  submit_sends clock e c r = ground arith

  two_submits :
      (a b : Clock N) (e : Explorer N)
      → can_run e ≡ true
      → is_some (request_of e) ≡ true
      → step (submit b) (step (submit a) e) ≡ sent (sent e)
  unfolding can_run
  two_submits a b e c r = ap (step (submit b)) (submit_sends a e c r) ∙ submit_sends b (sent e) c r

  answer_first :
      (clock : Clock N) (outcome : Outcome N) (e : Explorer N) (c : Call) (cs : List Call)
      → e.pending ≡ c ∷ cs
      → let after = step (answer 0 clock outcome) e in
        (after.loading ≡ false) × (after.pending ≡ cs)
  unfolding step
  answer_first clock outcome e c cs p = ground arith

  -- The button is shown as free again once any one of the calls is over: where two calls are made and
  -- the first of them is over, the page is not loading though the second waits.
  pub two_calls_one_over :
      (e : Explorer N) (a b clock : Clock N) (outcome : Outcome N)
      → e.pending ≡ []
      → can_run e ≡ true
      → is_some (request_of e) ≡ true
      → let after = run e (submit a ∷ submit b ∷ answer 0 clock outcome ∷ []) in
        (after.loading ≡ false) × (after.pending ≡ call_of e ∷ [])
  two_calls_one_over e a b clock outcome p c r =
      answer_first clock outcome (step (submit b) (step (submit a) e)) (call_of e) (call_of e ∷ [])
        (ap (λ x. x.pending) (two_submits a b e c r)
          ∙ ap (λ cs. cs ++ call_of e ∷ [] ++ call_of e ∷ []) p)
