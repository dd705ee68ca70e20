-- ===== src/Lib.antt =====
-- Verification of Web Broadcaster, a browser-operated radio automation application.
--
-- The program: storage/playback_repository.py keeps a station's queue, history and rotation cursor
-- in SQLite; autodj/service.py fills the queue; station/service.py starts and stops a station;
-- player/orchestration.py serialises Manual Next; audio_engine/lifecycle.py and events.py turn the
-- events of the native engine into calls of the others. app.py wires these together by callbacks.
-- The rest of audio_engine/ and of app.py (the interpreter of scripts, most of the web pages) is not
-- modelled.
--
-- Storage models the tables of storage/playback_repository.py (schema in app.py) and the meaning of
-- its SQL statements; a method is a function from the database to its result and the database after
-- it, which is the old one after a rollback. Storage.Queue has the queue methods, Storage.Commit
-- commit_started_track and its choice of a row, Storage.Rotation the rotation cursor. The listings
-- for the web pages are not modelled. The path and metadata functions of the application, which
-- return, and os.path.realpath, which may raise, are the record Storage.Commit.Media.
-- Metadata is the comparison form of artists and titles, which two parts of the program share.
--
-- Autodj models autodj/service.py: Autodj.Pick is _pick_track_for_category, whose no-repeat rules
-- Autodj.Allowed states row by row, and Autodj.Fill is _fill_queue_once_locked. Each attempt of a
-- filling gets a View, the answers of the callbacks at that moment together with the outcome of the
-- shuffle and the choice, so nothing is assumed about how the database changes between attempts.
-- The settings are numbers that are not negative, as _minutes leaves them; the lock, the threads
-- and the wake-up event are not modelled. Autodj.Startup is startup_fill_once, from the answers of
-- its callbacks.
--
-- Station models the Start and Stop of station/service.py over any application: the callbacks are a
-- record Station.Actions.Deps over an abstract world, each may raise, and the effects that are asked
-- for are recorded with whether they returned.
--
-- Player models ManualNextOrchestrator of player/orchestration.py for one station: Player.Requests has
-- the state and the calls of other threads, Player.Execute the parts of _execute_one between which
-- other threads can run, and Player.Worker the system, whose events are requests, lifecycle events and
-- worker steps with the callbacks' answers. Loops that poll are one step for each round. A system
-- reports what it does, and the theorems speak of these reports. Telemetry is not modelled.
-- Player.Handoff is PlayerHandoffService.direct_handoff, from the answers of its callbacks.
--
-- Engine models NativeLifecycleCoordinator of audio_engine/lifecycle.py: Engine.Lifecycle has its
-- queue, tables, routes and worker as steps; texts that it only compares are numbered. The marks of
-- a new entry and its put into the queue, which the source does after leaving its lock, are one
-- step. Engine.Identity is the identities of EngineLifecycleIdentityRegistry, Engine.Loads its
-- window against repeated loads; times are in milliseconds. Engine.Bus is EngineEvent and
-- EngineEventBus of audio_engine/events.py over any logger and subscribers, which may raise and
-- change the bus.
--
-- Scheduler models the scheduler of app.py for one station on air: Scheduler is the reading of a time
-- of day, Scheduler.Next compute_next_run_at and _scheduler_rule_is_recurring, Scheduler.Overdue the
-- rows of scheduler_rules that are moved forward or have run, Scheduler.Pass the queue action of a
-- rule and a pass of scheduler_process_due_once. A datetime is the number of seconds since its first
-- midnight, without its end in the year 9999, and an ISO text of the database is the moment it prints.
-- datetime.strptime is a parameter, which gives the days up to a date or raises; the calls on the
-- playback queue are the record Scheduler.Pass.Queue, whose states also show the time. What stops the
-- rules of a station off air is not modelled.
--
-- Annotate models the annotate: URIs of app.py: _annotate_escape_value, _build_annotate_uri and
-- _split_annotate_uri, whose regular expression for the metadata is the automaton find_meta.
--
-- Scripts models the script engine of app.py. Scripts.Worker is the worker thread of one station with
-- its queue of one place, its pending mark and its deferred tick, as _script_engine_dispatch_station
-- and _script_engine_station_worker_loop change them under their lock; the work of one second is one
-- step. Scripts.Wait is _script_next_run_datetime and _script_due_run_datetime, by the candidates that
-- they list. Moments are as in Scheduler; the first day of datetime, before which there is none, is
-- left out where the engine looks back.
--
-- Tests has each theorem of the list below at a concrete input, and runs of the models.
--
-- Not modelled: the interpreter of scripts and their status texts, replan serials, the hard handoff and
-- seek state, the AutoDJ thread, the engine interface with its client and protocol, which are socket
-- and process handling, and the web pages.
--
-- Identifiers that a caller passes are what Python's int() makes of them, with none where it raises.
-- SQLite's own failures and its 64-bit limit on integers are not modelled. All loops of the models
-- are structural; the loop of a filling runs on the attempts that its own limit leaves, and the
-- printing of a number n on n + 1 rounds, more than it has digits.
pub mod Base
pub mod Storage
pub mod Metadata
pub mod Tests
pub mod Autodj
pub mod Station
pub mod Player
pub mod Engine
pub mod Scheduler
pub mod Annotate
pub mod Scripts
