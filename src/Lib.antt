-- ===== src/Lib.antt =====
-- Models of agentic-preview: a service that raises previews of workloads and diverts traffic by schedule.
--
-- The program keeps a registry of previews, each of one workload under one work id (preview.go); it
-- compiles declared schedules (schedule.go), asks at each tick of a controller whether a schedule
-- should be open (schedule_override.go, schedule_controller.go), and for a schedule of the DNS kind
-- keeps one tagged line in the hosts block of a ConfigMap (dns.go), for one of the intercept kind one
-- global intercept. Intercepts are raised and removed in sessions with a traffic-manager (session.go);
-- the API (api.go) raises and removes previews, and builds their Deployment and Service where asked to
-- (workload.go); a timer takes down what nobody touches (expiry.go); a pool holds a tunnel to each
-- agent pod of the workloads in the registry (agents.go).
--
-- Which file models which part:
--   * Text: Go's strings functions on texts, lists of code points; Text/Numbers: strconv.Atoi and
--     time.ParseDuration. Common: lists, maps as association lists, results, Boolean tests, sorting.
--   * Names: the regular expressions nameRE, workIDRE, hostnameRE and imageRefRE, and sanitise
--     (preview.go, workload.go).
--   * Preview, Registry: Preview, serviceKey and the methods of registry; Request: PreviewRequest,
--     validate and createSpec (preview.go).
--   * Schedule: the types of schedule.go; Schedule/Clock: parseClock, clock, setDays, compileWindow;
--     Schedule/Active: active and nextChange.
--   * Compiler: scheduleKindOf, compileSchedule and the halves of both kinds (schedule.go).
--   * Override: SetOverride, ClearOverride, overrideFor, desiredOpen (schedule_override.go).
--   * Controller: scheduleState, alarm and the head of a tick; Controller/Window: openWindow,
--     checkWindow and closeWindow; Controller/Tick: reconcileSchedule and reconcileSchedules
--     (schedule_controller.go).
--   * Hosts: findTaggedLine, applyTaggedLine, removeTaggedLine and what they call; Dns and Dns/Window:
--     readHostsLine, writeHostsLine and the tick over a DNS schedule (dns.go).
--   * Session: the sessions by namespace; Session/Manager: the calls of the traffic-manager;
--     Session/Conflict: ownConflictRE and conflictingOwnSession; Session/Intercept: prepare, raise and
--     resolveTarget (preview.go); Session/Teardown: remove, reraiseAll and Shutdown; Session/Recorded:
--     the file of recorded sessions (session.go).
--   * Workload: labels, ownerSelector and dropWorkload; Workload/Build: buildPreviewDeployment,
--     buildPreviewService and servicePort; Workload/Capture: capturedBy; Workload/Apply:
--     applyDeployment and applyService; Workload/Ready: waitReady and podTrouble; Workload/Create:
--     createWorkload (workload.go).
--   * Expiry: expireWork and confirmGone; Expiry/Orphans: sweepOrphans (expiry.go).
--   * Api: handleAdd; Api/Remove: handleRemoveWork, handleRemoveService and tearDownWork (api.go,
--     workload.go).
--   * Agents: the pool and replaceNamespace; Agents/Plan: the two loops of reconcile; Agents/Pass:
--     reconcile, establish, publish and closeNamespace (agents.go).
--   * Tests: runs at concrete values.
--
-- How state and operations correspond: a struct is a record with the names of its fields, a map an
-- association list, an instant or a duration a number of nanoseconds, a time that is not set 0. An
-- operation takes the state and returns it with its result; an error is a value. The Kubernetes client,
-- the traffic-manager, the name server, the dialling of agents, the address parser, the selector parser
-- and the time zone database are parameters: functions on the state of everything outside the process. The mutexes are
-- left out, so each operation is one step; log lines are left out; an iteration over a map goes in
-- the order of the association list.
--
-- Bounds and fuel: the loop of sanitise runs on the length of its text, each round of it makes the text
-- shorter; time.ParseDuration runs on the length of what is left; nextChange has the fortnight of the
-- source, 20160 minutes. The decimal text of a number runs on the number and one. The loops of
-- confirmGone and waitReady run on the number of polls that their deadline allows, a parameter. Every
-- other function follows the structure of its argument.
--
-- Not modelled: strings.ToLower beyond the ASCII letters, the rounding of fractions in
-- time.ParseDuration, and the overflow of instants; cancellation and deadlines of calls; the loops that
-- tick, that hold a session open and that serve a tunnel, the credential of a session, the routing of
-- HTTP paths and the encoding of JSON, the environment's variables, and the Kubernetes calls of
-- kube.go, which are I/O around the state modelled here.
pub mod Common
pub mod Text
pub mod Schedule
pub mod Hosts
pub mod Names
pub mod Preview
pub mod Registry
pub mod Override
pub mod Compiler
pub mod Request
pub mod Session
pub mod Workload
pub mod Expiry
pub mod Api
pub mod Agents
pub mod Controller
pub mod Dns
mod Tests
