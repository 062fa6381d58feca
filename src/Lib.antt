-- ===== src/Lib.antt =====
-- The decisions of the Growth OS control plane: which paths its crawler may fetch, how the jobs,
-- runs and approvals of its execution subsystem change, and what the requests of its tenants do.
--
-- Parts and files
--   Robots (src/growth_os/robots) decides on robots.txt. Robots.Policy is policy.py: Match is
--   `_matches`, Normalize is `_normalize` and `_validate_target`, Groups is `_parse_rule` and
--   `_parse_groups`, Evaluate is `evaluate_robots`. Access is access.py, Gate is gate.py, Cache is
--   cache.py, Binding is binding.py. The binding asks the gate, the gate takes what the
--   acquisition returned or raised and asks Access, which asks Policy.
--   Acquisition (src/growth_os/acquisition) fetches a robots.txt. Acquisition.Robots is robots.py:
--   `fetch_rounds` is the loop of `_fetch`, `hop` its round, `fetch_robots` the call with its
--   handlers. Transport is the interface of _transport.py, yarl and aiohttp that it uses, Fetched
--   the values that it returns and raises.
--   Execution (src/growth_os/execution.py, execution_repository.py, execution_service.py and the
--   tables of db/models.py) keeps jobs, their runs, action proposals, decisions and audit events.
--   Status holds `ExecutionStatus` and its table of moves; Store holds the rows, the queries, the
--   conditional updates and the insertions with their constraints; Service holds the methods of
--   `ExecutionService`; Service.Effects holds the words in which their effects are stated, apart
--   from the statements; Listing holds the listings, Listing.Page what a page of one is; Histories
--   puts calls one after another.
--   Foundation is src/growth_os/services.py and repositories.py. Tables holds the rows of
--   db/models.py with their constraints, Changes the fields that an update sets, Service the
--   methods on tenants, workspaces, memberships, sites and connectors, Records those on profiles,
--   goals, policies and competitors; Foundation itself holds the onboarding status. Records.View
--   is the partial map that a table with one row for a workspace stands for, Isolation says which
--   rows are a tenant's, Errors what a failing call leaves.
--   Api is src/growth_os/api/foundation.py and schemas.py: Schemas holds the inputs and their
--   validators, Dumps the fields that an input supplies, Routes the requests and bodies, Handlers
--   the routes, which call the methods of Foundation; Isolation says whom a request comes from and
--   whose rows an answer shows.
--   Evidence is src/growth_os/evidence/diff.py with the record of on_page.py.
--   Text holds the strings and the UTF-8 decoding that these use, Prelude the shared names.
--
-- How code corresponds
--   A text is a list of code points and bytes are a list of numbers below 256. An exception is the
--   error of a `Result`. An identifier is a number, and those that `uuid4` draws are arguments. An
--   instant is a count of microseconds, and a value that is no canonical UTC datetime has a
--   constructor of its own.
--   A method of the execution service runs against two states of the database: the one that its
--   queries read and the one that its statements meet and its transaction commits on. They differ
--   by what other transactions committed in between. A statement that a key, a unique constraint,
--   a foreign key or a check refuses is `none`, the `IntegrityError`, and the transaction leaves no
--   trace. Two interleaved calls are two commits, the second with reads from before the first.
--   A method of the foundation service, and so a request to its routes, runs against one state, as
--   if no other transaction came in between.
--   The sorting of the database is an argument of the listings. An input of a route holds what
--   pydantic has parsed; a field that can be left out is `unset` or `supplied`.
--   The network of the acquisition is a record of functions that may answer otherwise at each hop,
--   with any number as the status.
--
-- Loops and fuel
--   The loop of `_matches` runs on fuel: for a pattern and a target of lengths m and n the fuel
--   is `rounds`, one more than m + n * (m + 1). The UTF-8 decoder takes as many rounds
--   as there are bytes, and each round uses at least one. The loop of `_fetch` runs for six rounds,
--   one more than the redirects that it follows. The other loops are structural.
--
-- Not modelled
--   The normalisation of URLs, the admission of addresses and the resolution of _transport.py, the
--   regular expressions and the header parser of `_content_type`, the fetching of HTML, the
--   extraction of on-page evidence, the routes of the execution subsystem, the format of dates in
--   inputs, settings and sessions, the migrations, and devtools. Time stamps of rows, lengths that
--   only the type of a column bounds, and errors of the database other than violated constraints
--   are left out. No row is ever deleted by the modelled methods.
pub mod Prelude
pub mod Text
pub mod Acquisition
pub mod Execution
pub mod Foundation
pub mod Api
pub mod Evidence
pub mod Robots
