-- ===== src/Lib.antt =====
-- cactus-runner: the service that runs a test procedure of a CSIP-Aus client. A device talks to a
-- utility server through the runner, which forwards each request, watches it for the events that
-- the steps of the procedure wait for, and runs the actions of a step whose event came.
--
-- The parts, the files that model them and the code (under src/cactus_runner):
--   Definitions, Models   the test definitions as the runner reads them; the records of models.py.
--     A listener object is known by its step; its field enabled_time is kept by step.
--   Services, World       what the runner calls (clock, random source, envoy's database and admin
--     API, number formats) is one record of operations over an abstract state, a parameter of
--     everything else; a world is the runner's state (app/shared.py) beside it.
--   Exec                  code that changes state and may raise: what was written stays written.
--   Resolvers, Evaluator  app/resolvers.py and app/evaluator.py: parameters become values.
--   Actions, Action       app/action.py: one function per action, apply_action, apply_actions.
--   SoftChecker, Check    app/check.py: how results are joined, the checks on the runner's state and
--     the dispatch of run_check. The other checks of the file:
--   Polls, ReadingChecks, DeviceChecks, DerChecks, MessageChecks: how often the client polls; its
--     readings; the end device and its status; settings and capability; notifications,
--     subscriptions and responses. A query reads the database and not the runner's state.
--   RequestArchive        app/requests_archive.py: the files of the requests of a test, over a
--     directory that is a record of operations.
--   AdminClient           app/envoy_admin_client.py: the one call that takes several requests.
--   Timeline              app/timeline.py: the values of a test at regular intervals, for reports.
--   Readings              app/readings.py: the readings of a report, scaled, and merged over the reading
--     types of one quantity.
--   Status                app/status.py: what a request for the status is told.
--   Event                 app/event.py: is_listener_triggerable, handle_event_trigger, the triggers.
--   Uri, Proxy            app/uri.py, app/proxy.py and app/auth.py.
--   Finalize              app/finalize.py: the end of a test, the archive that stands for one that
--     cannot be made, and the files of an archive (Finalize/Archive).
--   Warning, Precondition, EnvoyCommon   the parts of app/warning.py,
--     app/precondition.py and app/envoy_common.py that change the state or decide an action.
--   Handler               app/handler.py and app/health.py, a child module per handler: a request
--     enters, the state changes, a reply leaves.
--   Main                  app/main.py: the middleware, the periodic task, and the states that any
--     sequence of requests and rounds reaches.
--   Frame                 what all this code keeps of the runner's state: a property that the few
--     writes of the code keep is kept by every call, and holds in every reachable state.
-- The handlers call the event engine, which calls the checks and the actions, which resolve their
-- parameters; each of these is one function on the world, composed as the code composes them.
-- Child modules hold the theorems, named for what they prove; Tests applies them to samples.
--
-- Four loops are bounded. The draw of random URIs has 20 attempts, which are the code's own, and
-- running out of them raises as in the code. The loop over the windows of Polls and the one over
-- the intervals of Timeline are on fuel, one more than the microseconds that they can cross, of
-- which each round crosses at least a million. The loop over the pages of AdminClient is on fuel,
-- one more than the controls that there are. All other loops are over lists.
--
-- Text that the database or Python's library decides is a field of Services: the formats of numbers
-- and times, queries of URLs, pydantic's conversions, powers of ten below one. Where a query or a
-- set leaves an order open, the model takes the order of the rows or of the declarations.
--
-- A handler runs to its end before the next: the code's lock has that effect for device requests,
-- but not between these and the periodic task or the administrator, whose interleavings at an await
-- are not modelled. The directory of the request archive is apart from the runner's state: a handler
-- issues the commands to write and prune, and RequestArchive/Runs runs them for ids that count up
-- from 0, as those of the history do. Not modelled: how
-- the rows of the tables become the JSON texts of the final archive (fields of Services); the
-- decoding of bodies; the single HTTP calls of the admin client; the client package; logging.
mod Prelude
pub mod Exec
pub mod Definitions
pub mod Models
pub mod Services
pub mod World
pub mod Resolvers
pub mod Evaluator
pub mod EnvoyCommon
pub mod Warning
pub mod Finalize
pub mod Actions
pub mod Action
pub mod Check
pub mod SoftChecker
pub mod Polls
pub mod ReadingChecks
pub mod Readings
pub mod MessageChecks
pub mod Timeline
pub mod RequestArchive
pub mod AdminClient
pub mod DerChecks
pub mod DeviceChecks
pub mod Uri
pub mod Event
pub mod Proxy
pub mod Precondition
pub mod Handler
pub mod Main
pub mod Frame
pub mod Status
pub mod Tests
