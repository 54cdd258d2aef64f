-- ===== src/Operations/Store.antt =====
-- Operation records and event streams (odooctl/operations/store.py): the files of the directory
-- operations/, by operation id, each with the value that its JSON text stands for. An update raises
-- KeyError where the record is missing.
use odooctl.Prelude.{String, Option, none, some, List, [], ◌∷◌, ◌++◌, update}
use odooctl.Prelude.Results.{Result, ok, err}
use odooctl.Operations.Models.{Operation, OperationStatus, Event}

pub record Store (Params : Type 0) : Type 0 where
  pub records : String → Option (Operation Params)
  pub events : String → Option (List Event)

abbrev pub or_else : {A : Type 0} → Option A → Option A → Option A
or_else none old = old
or_else (some a) old = some a

abbrev pub listed : Option (List Event) → List Event
listed none = []
listed (some es) = es

module _ {Params : Type 0} where
  abbrev pub save : Operation Params → Store Params → Store Params
  save op store = record store { records = update store.records op.id (some op) }

  abbrev pub found : String → Option (Operation Params) → Result String (Operation Params)
  found op_id none = err op_id
  found op_id (some op) = ok op

  -- KeyError, here the id, or the record
  abbrev pub load : String → Store Params → Result String (Operation Params)
  load op_id store = found op_id (store.records op_id)

  abbrev pub with_status :
      OperationStatus → String → Option String → Option String → Operation Params → Operation Params
  with_status status now error result_ref op = record op {
    status = status;
    updated_at = now;
    error = or_else error op.error;
    result_ref = or_else result_ref op.result_ref;
  }

  abbrev pub saved :
      Store Params
      → Result String (Operation Params)
      → Result String (Operation Params) × Store Params
  saved store (err key) = (err key, store)
  saved store (ok op) = (ok op, save op store)

  abbrev pub updated :
      OperationStatus
      → String
      → Option String
      → Option String
      → Result String (Operation Params)
      → Result String (Operation Params)
  updated status now error result_ref (err key) = err key
  updated status now error result_ref (ok op) = ok (with_status status now error result_ref op)

  abbrev pub update_status :
      String
      → OperationStatus
      → String
      → Option String
      → Option String
      → Store Params
      → Result String (Operation Params) × Store Params
  update_status op_id status now error result_ref store =
      saved store (updated status now error result_ref (load op_id store))

  abbrev pub append_event : String → Event → Store Params → Store Params
  append_event op_id event store = record store {
    events = update store.events op_id (some (listed (store.events op_id) ++ event ∷ []));
  }

  abbrev pub load_events : String → Store Params → List Event
  load_events op_id store = listed (store.events op_id)
