-- ===== src/Api/Events.antt =====
-- How a client follows an operation (`get_operation`, `stream_events` and `_clamp_max_polls` of
-- odooctl/api/routes_operations.py). The store changes between the readings: poll `n` reads the
-- events from `views n`, its first part, and the record after that, from its second.
pub mod Streamed
use Prim.Native.String.{◌++◌ as ◌+++◌}
use odooctl.Prelude.{
  ℕ, zero, suc, ◌+◌, String, Bool, true, false, not, ◌&&◌, ◌||◌, ◌==◌, Option, none, some, List, [],
  ◌∷◌, ◌++◌, length, ltb, eqb, if◌then◌else◌,
}
use odooctl.Prelude.Results.{◌>>=◌}
use odooctl.Prelude.Exec.{Result, ok, err}
use odooctl.Operations.Models.{
  Operation, OperationStatus, queued, running, succeeded, failed, cancelled, Event, kind_value,
  status_value,
}
use odooctl.Operations.Store.{Store, load, load_events}
use odooctl.Api.Params.{ApiError, http, uncaught}
use odooctl.Api.Cancel.{Site, Found, find_op}

abbrev pub max_polls_ceiling : ℕ
max_polls_ceiling = 600

-- A negative count is clamped as 0 is.
unfoldable pub clamp_max_polls : ℕ → ℕ
clamp_max_polls value =
    let least = if ltb value max_polls_ceiling then value else max_polls_ceiling in
    if ltb 1 least then least else 1

-- `events[seen:]`
abbrev pub drop : {A : Type 0} → ℕ → List A → List A
drop zero xs = xs
drop (suc n) [] = []
drop (suc n) (x ∷ xs) = drop n xs

abbrev pub is_terminal : OperationStatus → Bool
is_terminal queued = false
is_terminal running = false
is_terminal succeeded = true
is_terminal failed = true
is_terminal cancelled = true

abbrev pub Views : Type 0 → Type 0
Views Params = ℕ → Store Params × Store Params

-- What was sent, and how the generator ended.
abbrev pub Streaming : Type 0
Streaming = Result ApiError (Unit {0}) × List Event

module _ {Params : Type 0} where
  abbrev pub polled :
      (String → String) → List Event → ℕ → Streaming → Result String (Operation Params) → Streaming
  polled repr new left rest (err key) =
      (err (uncaught (repr ("Operation not found: " +++ key))), new)
  polled repr new left rest (ok op) =
      if is_terminal op.status || eqb left 0 then (ok tt, new) else (rest.0, new ++ rest.1)

  -- The loop, with the polls that are left, the number of the next and the events seen.
  unfoldable pub generate : (String → String) → String → Views Params → ℕ → ℕ → ℕ → Streaming
  generate repr op_id views zero n seen = (ok tt, [])
  generate repr op_id views (suc left) n seen =
      let new = drop seen (load_events op_id (views n).0) in
      let rest = generate repr op_id views left (suc n) (seen + length new) in
      polled repr new left rest (load op_id (views n).1)

  -- `_find_op_ctx` and `_require_op_in_token_scope`
  abbrev pub scoped :
      (String → String) → String → String → Option (Found Params) → Result ApiError (Found Params)
  scoped repr op_id token_project none =
      err (http 404 ("Operation " +++ (repr op_id +++ " not found")))
  scoped repr op_id token_project (some f) =
      if not (token_project == "*") && not (f.op.project == token_project)
      then err (http 404 ("Operation " +++ (repr f.op.id +++ " not found")))
      else ok f

  unfoldable pub find_scoped :
      (String → String) → String → String → List (Site Params) → Result ApiError (Found Params)
  unfolding find_op
  find_scoped repr op_id token_project sites = scoped repr op_id token_project (find_op op_id sites)

  -- The record, which is answered field by field.
  unfoldable pub get_operation :
      (String → String) → String → String → List (Site Params) → Result ApiError (Operation Params)
  unfolding find_scoped
  get_operation repr op_id token_project sites =
      find_scoped repr op_id token_project sites >>= λ f. ok f.op

  abbrev pub followed :
      (String → String)
      → String
      → ℕ
      → Views Params
      → Result ApiError (Found Params)
      → Result ApiError Streaming
  followed repr op_id max_polls views (err e) = err e
  followed repr op_id max_polls views (ok f) =
      ok (generate repr op_id views (clamp_max_polls max_polls) 0 0)

  -- The answer, with the stream that it carries.
  unfoldable pub stream_events :
      (String → String)
      → String
      → String
      → ℕ
      → List (Site Params)
      → Views Params
      → Result ApiError Streaming
  unfolding generate clamp_max_polls find_scoped
  stream_events repr op_id token_project max_polls sites views =
      followed repr op_id max_polls views (find_scoped repr op_id token_project sites)
