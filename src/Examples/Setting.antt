-- ===== src/Examples/Setting.antt =====
-- A platform of functions from names to values, and a merchant's task on it.
use e_commerce_agent.Base.{ℕ, String, Option, none, some, [], ◌∷◌, ◌==◌, if◌then◌else◌, refl}
use e_commerce_agent.Domain.{TaskRecord, QueueMessage, ActionPlan, ProductPatch, queued}
use e_commerce_agent.Commerce.{Database, Product, plan_for}
use e_commerce_agent.Platform.{Platform, Delivery}
use e_commerce_agent.Store.{Redis}
use e_commerce_agent.World.{World}

-- Every publication has this outcome; no stream is trimmed.
abbrev pub platform : Delivery → Platform
platform outcome = record {
  Table = λ V. String → Option V;
  empty = λ V k. none;
  get = λ k t. t k;
  put = λ k v t j. if k == j then some v else t j;
  del = λ k t j. if k == j then none else t j;
  get-empty = λ V k. refl;
  get-put = λ k j v t. refl;
  get-del = λ k j t. refl;
  entry_id = λ es. "1-0";
  trim = λ n es. es;
  trimmed = λ n es. [];
  trim_suffix = λ n es. refl;
  trim_short = λ n es short. refl;
  delivery = λ earlier m. outcome;
  sha256 = λ s. s;
  lower = λ s. s;
  strip = λ s. s;
  repr = λ v. "";
}

abbrev pub lamp : Product
lamp = record {
  product_id = "p1";
  merchant_id = "m1";
  name = "lamp";
  description = "a lamp";
  version = 1;
}

abbrev pub shop : Database
shop = record {
  products = lamp ∷ [];
  windows = [];
  contexts = [];
  plans = [];
  approvals = [];
  receipts = [];
}

abbrev pub patch : ProductPatch
patch = record { field_name = "description"; new_value = "a bright lamp"; reason = "clicks" }

abbrev pub plan : ActionPlan
plan = plan_for "plan1" 1 "t1" "m1" "p1" patch lamp

abbrev pub planned_shop : Database
planned_shop = record shop { plans = plan ∷ [] }

abbrev pub task : TaskRecord
task = record {
  task_id = "t1";
  session_id = "s1";
  trace_id = "r1";
  prompt = "why";
  merchant_id = "m1";
  product_id = none;
  status = queued;
  attempt = 0;
  pending_attempt = some 0;
  pending_resume_kind = none;
  pending_resume_id = none;
  result = none;
  interaction = none;
  error_code = none;
  error_message = none;
  created_at = 7;
  updated_at = 7;
}

abbrev pub message : QueueMessage
message = record {
  task_id = "t1";
  session_id = "s1";
  trace_id = "r1";
  attempt = 0;
  resume_kind = none;
  resume_id = none;
}

abbrev pub empty_store : (p : Platform) → Redis p
empty_store p = record {
  tasks = p.empty TaskRecord;
  idempotency = p.empty String;
  leases = p.empty String;
  sequences = p.empty ℕ;
  streams = p.empty _;
}

abbrev pub world : (p : Platform) → Redis p → World p
world p redis = record {
  redis = redis;
  commerce = shop;
  published = [];
  settled = [];
  trace = record { trace_id = "-"; task_id = "-"; session_id = "-" };
  now = 9;
  tokens = λ n. "token";
  drawn = 0;
  stream_length = 1000;
  call_depth = 2;
}

-- The store with one task.
abbrev pub storing : (p : Platform) → TaskRecord → Redis p
storing p t = record (empty_store p) { tasks = p.put t.task_id t (p.empty TaskRecord) }
