-- ===== src/Tests/Samples.antt =====
-- Values that the tests share.
use agentic_preview.Common.{◌*◌, ◌/◌, true, false, [], ◌∷◌, none}
use agentic_preview.Common.Int.{pos}
use agentic_preview.Text.{codes}
use agentic_preview.Schedule.{ScheduleSpec, Schedule, Location, kind_dns, CompiledWindow}
use agentic_preview.Preview.{Preview}
use agentic_preview.Session.Manager.{PreparedIntercept, InterceptInfo, active}

-- Days of 24 hours, from the zero time on.
abbrev pub utc : Location
utc = record { civil_day = λ t. t / 86_400_000_000_000; midnight = λ d. d * 86_400_000_000_000 }

abbrev pub sql_spec : ScheduleSpec
sql_spec = record {
  name = codes "sql";
  type = codes "dns";
  workload = [];
  namespace = [];
  port = [];
  service = [];
  target_service = [];
  target_namespace = [];
  target_port = pos 0;
  location = [];
  hostname = codes "db.internal";
  redirect_to = codes "10.42.0.9";
  recycle_pods = [];
  windows = [];
}

-- Open on Fridays from 18:32 for 12 hours and 49 minutes.
abbrev pub overnight : CompiledWindow
overnight = record {
  days = false ∷ false ∷ false ∷ false ∷ false ∷ true ∷ false ∷ [];
  start = 66_720_000_000_000;
  length = 46_140_000_000_000;
}

abbrev pub sql : Schedule
sql = record {
  spec = sql_spec;
  kind = kind_dns;
  intercept_name = [];
  target_service = [];
  target_namespace = [];
  target_port = pos 0;
  port_id = [];
  hostname = codes "db.internal";
  redirect_to = codes "10.42.0.9";
  recycle = [];
  loc = utc;
  windows = overnight ∷ [];
}

abbrev pub checkout : Preview
checkout = record {
  work_id = codes "AB-1";
  workload = codes "checkout";
  namespace = codes "shop";
  name = codes "checkout-ab-1";
  header_name = codes "x-preview";
  header_value = codes "AB-1";
  port_id = codes "80";
  global = false;
  schedule = [];
  service_name = [];
  target_service = codes "checkout-pr.shop";
  target_host = [];
  target_port = pos 80;
  disposition = codes "PENDING";
  message = [];
  agent_pods = [];
  agent_pods_reported = 0;
  image = [];
  raised_at = 0;
  expires_at = 0;
  create = none;
  created = none;
}

abbrev pub pricing : Preview
pricing = record checkout {
  workload = codes "pricing";
  name = codes "pricing-ab-1";
  target_service = codes "pricing-pr.shop";
}

abbrev pub prepared_sample : PreparedIntercept
prepared_sample = record {
  error = [];
  service_port = pos 80;
  service_port_name = codes "http";
  service_name = codes "checkout";
  container_name = codes "app";
  workload_kind = codes "Deployment";
}

abbrev pub running : InterceptInfo
running = record { disposition = active; message = [] }
