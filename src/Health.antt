-- ===== src/Health.antt =====
-- health-status/HealthStatusControl.{h,cpp} and HealthStatusData.h: the health reports of resources,
-- kept for each resource and error code, sent when they change and again with each heartbeat. A
-- resource is a number, as a GUID is; `W` is the type of the texts. What the writer is handed is
-- kept in `bus`, the latest message first.
pub mod Reports
mod Examples
use umaa_cpp.Base.{
  ℕ, suc, Bool, true, false, not, ◌&&◌, Option, none, some, List, [], ◌∷◌, ◌==◌, if◌then◌else◌,
}
use umaa_cpp.Time.{DateTime}

pub data ErrorCode : Type 0 where
  actuator filesys no_code power processor ram rom sensor software : ErrorCode

pub data Severity : Type 0 where
  error fail info no_error warn : Severity

pub data HealthState : Type 0 where
  health_none health_info health_warn health_error health_fail : HealthState

abbrev pub get_severity : HealthState → Severity
get_severity health_none = no_error
get_severity health_info = info
get_severity health_warn = warn
get_severity health_error = error
get_severity health_fail = fail

pub data HealthReportingEntity : Type 0 where
  from_actuator from_filesys from_none from_power from_processor : HealthReportingEntity
  from_ram from_rom from_sensor from_software : HealthReportingEntity

abbrev pub get_code : HealthReportingEntity → ErrorCode
get_code from_actuator = actuator
get_code from_filesys = filesys
get_code from_none = no_code
get_code from_power = power
get_code from_processor = processor
get_code from_ram = ram
get_code from_rom = rom
get_code from_sensor = sensor
get_code from_software = software

abbrev pub error_code_to_int : ErrorCode → ℕ
error_code_to_int actuator = 0
error_code_to_int filesys = 1
error_code_to_int no_code = 2
error_code_to_int power = 3
error_code_to_int processor = 4
error_code_to_int ram = 5
error_code_to_int rom = 6
error_code_to_int sensor = 7
error_code_to_int software = 8

abbrev is_none : Severity → Bool
is_none no_error = true
is_none _ = false

pub record Report (W : Type 0) : Type 0 where
  pub time_stamp : DateTime
  pub source : ℕ
  pub log_time : DateTime
  pub severity : Severity
  pub status : W
  pub code : ErrorCode
  pub resource_id : ℕ

-- The key of mostRecentHealthReports_, and its `==`.
pub record Key : Type 0 where
  pub resource : ℕ
  pub error_code : ErrorCode

unfoldable pub same_key : Key → Key → Bool
same_key a b =
    a.resource == b.resource && error_code_to_int a.error_code == error_code_to_int b.error_code

abbrev pub key_of : {W : Type 0} → Report W → Key
key_of r = record { resource = r.resource_id; error_code = r.code }

pub data Message (W : Type 0) : Type 0 where
  sent disposed : Report W → Message W

-- What the clock answers to each reading, and the text of a report without an error.
pub record Env (W : Type 0) : Type 0 where
  pub clock : ℕ → DateTime
  pub no_condition : W

-- How often the clock has been read, and what the writer was handed.
pub record Output (W : Type 0) : Type 0 where
  pub ticks : ℕ
  pub bus : List (Message W)

-- The object. The order of `reports` stands for the one in which the hash table is traversed.
pub record Control (W : Type 0) : Type 0 where
  pub source_id : ℕ
  pub reports : List (Key × Report W)
  pub output : Output W
  pub is_thread_running : Bool

module _ {W : Type 0} where
  abbrev pub get : Key → List (Key × Report W) → Option (Report W)
  get k [] = none
  get k ((j, r) ∷ m) = if same_key j k then some r else get k m

  abbrev pub put : Key → Report W → List (Key × Report W) → List (Key × Report W)
  put k r [] = (k, r) ∷ []
  put k r ((j, s) ∷ m) = if same_key j k then (k, r) ∷ m else (j, s) ∷ put k r m

  abbrev pub drop : Key → List (Key × Report W) → List (Key × Report W)
  drop k [] = []
  drop k ((j, r) ∷ m) = if same_key j k then drop k m else (j, r) ∷ drop k m

  -- sendReport. The report is shared: who stores it stores the one with the new time stamp.
  unfoldable pub send_report : Env W → Report W → Output W → Report W × Output W
  send_report env r o =
      let r' = record r { time_stamp = env.clock o.ticks } in
      (r', record { ticks = suc o.ticks; bus = sent r' ∷ o.bus })

  unfoldable pub build_report : Env W → Control W → Key → Severity → W → Report W × Output W
  build_report env c k severity status =
      let now = env.clock c.output.ticks in
      (
        record {
          time_stamp = now;
          source = c.source_id;
          log_time = now;
          severity = severity;
          status = status;
          code = k.error_code;
          resource_id = k.resource;
        },
        record c.output { ticks = suc c.output.ticks },
      )

  unfoldable pub update_system_health : Env W → Key → Severity → W → Control W → Control W
  update_system_health env k severity status c =
      let (built, o) = build_report env c k severity status in
      let (r, o') = send_report env built o in record c { reports = put k r c.reports; output = o' }

  -- try_emplace on the report that was built, and the message about it.
  abbrev pub emplace : Env W → Key → Option (Report W) → Report W × Output W → Control W → Control W
  emplace env k (some old) (built, o) c = record c { output = o }
  emplace env k none (built, o) c =
      let (r, o') = send_report env built o in record c { reports = put k r c.reports; output = o' }

  unfoldable pub register_resource : Env W → Key → Control W → Control W
  register_resource env k c =
      emplace env k (get k c.reports) (build_report env c k no_error env.no_condition) c

  abbrev pub hand_disposal : Report W → Output W → Output W
  hand_disposal r o = record o { bus = disposed r ∷ o.bus }

  -- What deregisterResource does with the answer of `at`.
  abbrev pub take_out : Key → Option (Report W) → Control W → Control W
  take_out k none c = c
  take_out k (some r) c = record c { reports = drop k c.reports; output = hand_disposal r c.output }

  unfoldable pub deregister_resource : Key → Control W → Control W
  deregister_resource k c = take_out k (get k c.reports) c

  -- The refreshed logTime of a report without an error.
  abbrev pub refresh : Env W → Report W → Output W → Report W × Output W
  refresh env r o =
      if is_none r.severity
      then (record r { log_time = env.clock o.ticks }, record o { ticks = suc o.ticks })
      else (r, o)

  -- A round of the loop of sendAllReports.
  unfoldable pub resend : Env W → Report W → Output W → Report W × Output W
  resend env r o = let (r', o') = refresh env r o in send_report env r' o'

  -- The loop of sendAllReports.
  unfoldable pub send_each :
      Env W → List (Key × Report W) → Output W → List (Key × Report W) × Output W
  send_each env [] o = ([], o)
  send_each env ((k, r) ∷ m) o =
      let (r', o1) = resend env r o in let (m', o2) = send_each env m o1 in ((k, r') ∷ m', o2)

  unfoldable pub send_all_reports : Env W → Control W → Control W
  send_all_reports env c =
      let (m, o) = send_each env c.reports c.output in record c { reports = m; output = o }

  -- A round of healthReportThread.
  unfoldable pub heartbeat : Env W → Control W → Control W
  heartbeat env c = if c.is_thread_running then send_all_reports env c else c

  abbrev pub start_thread : Control W → Control W
  start_thread c = record c { is_thread_running = true }

  abbrev pub stop_thread : Control W → Control W
  stop_thread c = record c { is_thread_running = false }

  -- The loop of the destructor, and what follows it.
  unfoldable pub dispose_each : List (Key × Report W) → Output W → Output W
  dispose_each [] o = o
  dispose_each ((k, r) ∷ m) o = dispose_each m (hand_disposal r o)

  unfoldable pub dispose_reports : Control W → Control W
  dispose_reports c = record c { output = dispose_each c.reports c.output }

  unfoldable pub clear_and_stop : Control W → Control W
  clear_and_stop c = stop_thread (record c { reports = [] })

  abbrev pub new : ℕ → Control W
  new source = record {
    source_id = source;
    reports = [];
    output = record { ticks = 0; bus = [] };
    is_thread_running = false;
  }

-- One public call, or one round of the thread.
pub data Call (W : Type 0) : Type 0 where
  registers deregisters : Key → Call W
  updates : Key → Severity → W → Call W
  starts stops beats : Call W

unfoldable pub step : {W : Type 0} → Env W → Control W → Call W → Control W
step env c (registers k) = register_resource env k c
step env c (deregisters k) = deregister_resource k c
step env c (updates k severity status) = update_system_health env k severity status c
step env c starts = start_thread c
step env c stops = stop_thread c
step env c beats = heartbeat env c

unfoldable pub after : {W : Type 0} → Env W → Control W → List (Call W) → Control W
after env c [] = c
after env c (call ∷ calls) = after env (step env c call) calls
