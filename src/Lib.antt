-- ===== src/Lib.antt =====
-- Guard Proxy: a model of how it generates and applies its configuration, of its log shipper, its
-- ban list, its virtual hosts and its policies.
--
-- Guard Proxy is a web application firewall: HAProxy in front, which asks the agent coraza-spoa
-- about every request, and a backend that keeps virtual hosts and policies in a database, writes
-- the configuration of both from it and applies it. A log shipper sends Coraza's audit events to
-- the backend. Eight parts carry the logic whose failures would be felt in operation:
--
-- * Apply (src/backend/app/services/config_apply.py) writes a generated configuration into a new
--   release directory, has `haproxy -c` validate it, moves the link `current` to it, waits for
--   Coraza and reloads HAProxy, with a rollback on failure. Apply.Disk is the runtime directory and
--   the answers of the world (processes, sockets, clock, disk faults) as a record World, whose
--   fields take the whole runtime, so that an answer may depend on all that happened before.
--   Apply.Wait is the polling loop that the waits share; Apply.Haproxy has _validate_haproxy,
--   _wait_for_stick_table_handover and _reload_haproxy; Apply.Coraza the status file that
--   docker/coraza-supervisor.sh writes and _wait_for_coraza_reload reads, and wait_until_served of
--   coraza_probe.py; Apply.Release the release directories; Apply.Attempt, Apply.Rollback and
--   Apply.Run _apply_locked, a function for each stretch between two returns; Apply.Seed
--   seed_runtime_config. The other files of Apply hold the proofs: Restore and Ends on the failure
--   paths, Written on the candidate, Bridged and Settled on where `current` leads, Reloads and
--   Accepted on the trace of validations and reloads, Status on the status file, Waits on the
--   loops, Deployed on the checksum at startup.
-- * Shipper (src/log-shipper/app/shipper.py): Shipper.Record reads one record of the audit log,
--   Shipper.State is the checkpoint, Shipper.Ship ships a line and what is available, Shipper.Run
--   is the loop of run. Lines, Skipped and Reader prove the reader right, Checkpoints the
--   checkpoint, Delivery and Backoff the retries, Available and Saved the shipping, Synced the
--   loop.
-- * Bans (src/backend/app/services/ban_list_service.py): Bans.Commands classifies the Runtime API's
--   output, Bans.Table parses a stick table, Bans.Service lists and lifts bans, Bans.Counted and
--   Bans.Lifted have the proofs.
-- * VHosts (src/backend/app/services/vhost_service.py): VHosts.Backends is the normal form of the
--   backends, VHosts.Rows the tables (models/vhost.py and models/policy_binding.py),
--   VHosts.Requests what a request asks for, VHosts.Certificates the certificate's branches, and
--   VHosts.Service the operations, each from the tables to an Answer. Normal proves the backends
--   usable; Tables, Mirror, Kept and Operations that default bindings mirror policy_id.
-- * Probe (src/backend/app/services/coraza_probe.py): Probe.Varint has the integers of the protocol
--   that the probe speaks with coraza-spoa, Probe.Codec their round trip.
-- * Mapping (src/log-shipper/app/mapping.py): Mapping.Json has the events that json.loads gives and
--   what may raise, Numbers `int` and `str`, Patterns the regular expressions, Rules and Score the
--   rule, the action and the score, Event coraza_event_to_ingest. Fields and Bounds prove the
--   bounds of a payload, Suffix and Forged what a request's own text cannot change, and Finite and
--   Total that the mapping returns.
-- * Policies (src/backend/app/services/policy_service.py, exclusion_service.py,
--   custom_rule_service.py, with their models, coraza_syntax.py and _quote_modsec of
--   config_renderer.py): Policies.Syntax has what may stand in SecLang, Rows the tables, Requests
--   the patches and errors, Service the operations, Reads the lists. Quoted proves that a quoted
--   value is read back, Pages what the pages of a list hold. Operations has the requests to these
--   services and to VHosts one after the other; Tables, Sound, References, Owned and
--   VHosts.References prove what each keeps true, Histories what any sequence of them does.
-- * Generate (src/backend/app/services/config_generator.py and config_renderer.py,
--   haproxy_syntax.py): Generate.Checks has the texts that may stand in a configuration, Contexts
--   the contexts of haproxy.cfg, Haproxy a vhost's route, Tuning those of a policy's rules,
--   Generator `generate`, whose result is what the templates are rendered from. Scopes and
--   ControlIds prove what path-scoped exclusions match and that their numbers do not clash,
--   Failures, Apps and Routes that each vhost has its route, Numbered, Named and Unique that the
--   routes' identifiers do not collide, Assigned that the policies that the services keep are
--   found.
--
-- The parts meet in the release that Apply deploys: it is generated from the virtual hosts and
-- their bindings (a record GeneratedConfig here), the stick tables that Bans reads exist once a
-- configuration with them is applied, and the audit log that Shipper reads is Coraza's.
--
-- Numbers are natural numbers: times in milliseconds (Apply) or seconds (Shipper), file offsets,
-- codes. Texts and bytes are lists of code points or bytes. The waits run on fuel, a round for each
-- interval that fits into the timeout and two more; with a clock that moves by the interval at each
-- sleep that is enough. skip_line runs on the number of bytes that are left, encode_more on the
-- number itself. The other loops are structural: over the responses, turns and rounds until the
-- process is told to stop. `_running` is the end of those lists.
--
-- Not modelled: the lock of apply, exceptions that the code lets pass (also an OSError of moving or
-- removing the link `current` in an apply), log messages, the newline translation of text files,
-- the text of the templates, JSON's parser, urlparse, UTF-8 and the HTTP exchange (parameters),
-- Unicode's case tables, floats, dates and addresses in the mapping (parameters), the frames of the
-- probe, and the other services over the database.
pub mod Prelude
pub mod Apply
pub mod Shipper
pub mod Bans
pub mod VHosts
pub mod Probe
pub mod Mapping
pub mod Policies
pub mod Generate
