-- ===== src/Lib.antt =====
-- A verification library for the orchestration system (app/), which takes a project from an idea to a
-- backlog under two declarative state machines, a policy engine that is plain code, and registries
-- of servers, capabilities and agents.
--
-- How the parts interact. `fire` of the state machine engine alone changes the status of a project
-- or a task: it finds a row of the transition table, asks the row's guard, saves a checkpoint on the
-- way into an exception state, and writes an event and an audit row. Guards read the tables.
-- A capability that nobody provides becomes a proposal (planner), the policy engine judges it, and
-- the expansion service records it and activates what was approved: a server is approved in the
-- registry of servers and registered as a provider of the capability. Agents are checked, then judged
-- by the same engine. The timeout checker reads the events and writes audit rows.
-- The product workflow composes all of this: a request of the API runs one of its methods, which fires
-- events, drafts requirements with the agents, asks questions, records decisions and conflicts, and
-- packs the material for a developer with its secrets masked. The handler commits if the method returns.
--
-- Which file models what:
--   Enums.antt                        app/core/enums.py
--   Database.antt, Database/          app/db/models: rows as records, tables as lists, newest first;
--                                     the queries by latest time
--   Orchestrator/Transitions.antt,    app/orchestrator/transitions.py, row by row
--     Orchestrator/Transitions/
--   Orchestrator/Subjects.antt        the subjects of the machines, and the context of a guard
--   Orchestrator/Guards.antt          app/orchestrator/transition_guard.py, each guard and the
--                                     registry (GuardRegistry.evaluate is `evaluate`)
--   Orchestrator/Machine.antt         app/orchestrator/state_machine.py, the machine's constructor and
--                                     builders, and `World`: the subject and the session's tables
--   Orchestrator/Engine.antt          app/orchestrator/state_machine.py (StateMachine.fire is `fire`,
--                                     its numbered steps are `find_existing`, `fire_new`, `resolve`,
--                                     `guard_ok`, `enter` and `apply`), audit.py, checkpoints.py and
--                                     the two builders
--   Orchestrator/Tables.antt          facts about the rows of both tables, by evaluation
--   Orchestrator/Engine/              the contract of `fire` (Contract), that the code keeps it
--                                     (Refines), its branches (Steps), and its invariants
--   Orchestrator/Timeouts.antt        app/orchestrator/timeout_checker.py
--   Policy/                           app/policy/engine.py and schemas.py
--   Mcp/                              app/mcp/*.py
--   Capabilities/                     app/capabilities/*.py
--   Expansion/                        app/expansion/planner.py and service.py
--   Agents/                           app/agents/*.py
--   Product/Schemas.antt, Questions,  app/product/schemas.py, question_generator.py,
--     Refinement, Classifier, Backlog   requirement_agent.py, classifier.py, backlog_generator.py
--   Product/CoreAgent.antt            app/product/core_agent.py
--   Product/SpecificationAgent.antt   app/product/specification_agent.py
--   Product/Answers.antt, Gates,      what these make of requirements, questions and backlogs
--     Known, Rounds, Bounds, Backlogs
--   Product/Workflow/                 app/product/workflow.py: Action (a method reads and writes the
--                                     project and the tables, and may raise), Store (queries and rows),
--                                     Consult, Specify, Draft, Handlers (the methods), Conflicts; Rules,
--                                     Frames, Keeps, Decides (what every method keeps); Outcomes, Saves,
--                                     Rests, Returns and Replies (where a method leaves the project)
--   Consultation/                     app/consultation/*.py: Masking, Package, Service, Disclosure
--   Memory/                           app/project_memory/*.py: Requirements, Versions, Decisions,
--                                     Conflicts
--   Api.antt, Api/                    app/api/projects.py, approvals.py, requirements.py: the requests
--                                     that run the workflow (`handle`), and their answers (`serve`);
--                                     documents.py and deps.py: uploads and owners
--   Auth.antt, Auth/                  app/core/auth.py, security.py, bootstrap.py, app/api/auth.py and
--                                     app/db/repositories
--   Common.antt, Common/              what the modules share: tests, lists, texts
--   Tests.antt, Tests/                runs on concrete inputs
--
-- The state is passed explicitly: `Db` holds the tables of a session, `World` a subject and the
-- tables, and an operation returns the new ones. A call that raises returns an `err` and the tables
-- with the rows that were added before. Time and ids come from `Env`, the n-th answer for the n-th
-- row that is made. Columns with a uniqueness constraint are looked up by the first row that fits;
-- the idempotency key keeps the error of a second row, since the engine does not look before it adds.
-- Loops are structural recursion over lists; only the decimals of a number take fuel, one more than
-- the number, which has fewer digits (Common/Format.antt). A dict is the list of its items in
-- insertion order, a set the list of its members. Configuration files (allowlist, catalog, servers,
-- capabilities, limits) are parameters.
--
-- A record of the agents, the patterns and the configuration, `ProductDefinitionWorkflow`, stands for
-- the object of that name, so that what is shown of a method holds for any agents. The compiled regular
-- expressions of the masking are functions that cut a text into matches and the rest.
--
-- Left out: texts for people in guards, audit rows and validation messages, and payloads of audit
-- rows, which no code reads; the queries for approvals and for a project in detail; logging,
-- migrations and set-up. The casing of Unicode (`str.lower`) is a parameter.
pub mod Agents
pub mod Api
pub mod Auth
pub mod Capabilities
pub mod Common
pub mod Consultation
pub mod Database
pub mod Enums
pub mod Expansion
pub mod Mcp
pub mod Memory
pub mod Orchestrator
pub mod Policy
pub mod Product
pub mod Tests
