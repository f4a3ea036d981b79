-- ===== src/Samples.antt =====
-- A small database for the tests: conversation 1, its execution 2 in the middle of a model call, and
-- the delivery of that execution; and one part.
use parts_bin.Prelude.{ℕ, false, none, some, [], ◌∷◌, pos}
use parts_bin.Storage.Parts.{PartRow, discrete_ic}
use parts_bin.Storage.Rows.{
  Db, Context, ExecutionRow, DispatchRow, Delivery, ConversationEvent, waiting_model, openai,
  tool_call,
}

abbrev pub context : Context
context = record { input_digest = some 7; model_response_id = some 5; approval_id = none; rest = 0 }

abbrev pub execution : ExecutionRow
execution = record {
  thread_id = 1;
  context = context;
  status = waiting_model;
  worker_id = some 3;
  lease_until = 400_000_000;
}

abbrev pub row : DispatchRow
row = record {
  available_at = some 450_000_000;
  token = none;
  lease_until = 0;
  wake_version = 0;
  failures = 0;
  blocked = false;
  settled = false;
  response_id = some 5;
  last_error = none;
}

abbrev pub empty : Db
empty = record {
  pb_revision = some (record { revision = 0; next_part_id = 1; next_thread_order = 1 });
  executions = [];
  execution_approvals = [];
  cancellations = [];
  dispatch = [];
  inbox = [];
  heartbeat = none;
  threads = [];
  events = [];
  event_keys = [];
  parts = [];
  pending_reviews = [];
  provenance = [];
  specifications = [];
  specification_reviews = [];
  approvals = [];
  operations = [];
}

abbrev pub running : Db
running = record empty {
  executions = (2, execution) ∷ [];
  dispatch = (2, row) ∷ [];
  threads = (1, record { runtime = openai; thread_order = 1 }) ∷ [];
}

abbrev pub now : ℕ
now = 500_000_000

-- The delivery that a worker with token 9 claims at `now`, and the database after.
abbrev pub delivery : Delivery
delivery = record { execution_id = 2; thread_id = 1; token = 9; wake_version = 0; failures = 0 }

abbrev pub leased_row : DispatchRow
leased_row = record row { token = some 9; lease_until = 800_000_000 }

abbrev pub leased : Db
leased = record running { dispatch = (2, leased_row) ∷ [] }

abbrev pub event : ConversationEvent
event = record {
  kind = tool_call;
  thread_id = 1;
  runtime = openai;
  fields = record { execution_id = some 2; status = none; code = none; rest = 0 };
  sequence = none;
}

-- Four pieces of one part, and the database with it.
abbrev pub opamp : PartRow
opamp = record {
  fields = record {
    part_category = 111 ∷ 112 ∷ [];
    profile = discrete_ic;
    quantity = pos 4;
    value = none;
    «package» = none;
    part_number = some (116 ∷ 108 ∷ []);
    manufacturer = none;
    description = none;
    datasheet_url = none;
    value_unit = none;
  };
  passive_identity = none;
  created_at = 10;
  updated_at = 10;
}

abbrev pub stocked : Db
stocked = record running { parts = (1, opamp) ∷ [] }
