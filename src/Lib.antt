-- ===== src/Lib.antt =====
-- The Python SDK of LibJadx (python/src/libjadx), an HTTP client of the LibJadx service, as functions
-- and relations.
--
-- The parts and their files:
--   Wire       the models of _generated/models that the SDK reads or builds (Wire/Enums, ApiError, Job,
--              Refs, Pages, Requests, Bodies), JSON values with `dict` as an association list (Wire/Json), and
--              the parts of Python's library that read texts, a parameter (Wire/Codec)
--              Wire/Schema is the template that generates the classes of _generated/models: a class is a
--              `Schema`, its attributes in order with what `from_dict` and `to_dict` do with each, and
--              Wire/Schema/Symbols, Source, Search, … hold one for each class of those files
--   Errors     errors.py: the exceptions, `ERROR_TYPES`, `api_error`
--   Revisions  `RevisionCache` of _common.py, with `_expected` and `_required` of project.py
--              (Revisions/Expected); sessions are in Revisions/Session, and the history of observations
--              that the cache stands for in Revisions/History; the preconditions that the history gives
--              are in Revisions/Defaults
--   Sse        _sse.py: `Parser.feed` (Sse) and `Parser._event` (Sse/Fields), over bytes (Sse/Text)
--   Client     `Client._invoke` of client.py and `unwrap` of _common.py; the polling loop (Client/Poll)
--   Connection `base_url` of _common.py and the constructor of `Client`
--   Jobs       `Job` of jobs.py: refresh, cancel, wait, poll_updates; `Job.events` and `stream_status`
--              (Jobs/Stream)
--   Pages      `class_pages`, `classes` and `reference_pages` of project.py, `SearchCursor` of search.py
--   Project    the other methods of `Project`: those that change the project, and those that read
--              (Project/Reads)
--   Symbols    symbols.py: the handles of classes, methods and fields
--   Service    the other methods of `Client`, with `wait_ready`
--   Async      the asynchronous SDK (async_client.py and the `Async…` classes) as coroutines: alone
--              (Async/Alone, Async/Loops, Async/Pages), and several over one client (Async/Pool)
--   Transport  _generated/api: `_get_kwargs`, `_parse_response` and `sync_detailed` of the operations, by
--              tag; `perform` is the one that a request names (Transport/Perform)
--   Base, Samples, Tests   shared names and lemmas, sample values, and the theorems applied to them
--
-- How they interact: a method of Project, Jobs or Service checks its arguments, takes its preconditions
-- from the cache (Revisions), sends one request (Client.invoke) and lets the cache observe the response.
-- A method is a function `Client → Result A × Client`, where `Result` is a value or an exception and
-- `Client` is the state: closed or not, the cache, the requests sent so far, the number of clock
-- readings, and the time slept. What is not the SDK's code is the record `System`: `exchange`, what the
-- n-th request gets (a response, an exception of httpx, or a body that does not decode), `monotonic`,
-- what the n-th reading of the clock shows after a time slept in all, and the `Codec`. The theorems
-- on timeouts assume of the clock that it does not go back and that it goes on by at least the time
-- slept (`IsSteady`); the others assume nothing of the system.
--
-- A coroutine is a `Step`: it has returned, or waits for the response to a request or for a time to
-- pass, with what it does then on whatever the client is by then. `run_alone` answers it at once;
-- `Moves` of Async/Pool is what may happen next to several of them: a call starts, a response arrives, a
-- pause ends, the client is closed. What the clock shows while coroutines are interleaved is arbitrary.
--
-- `Client.invoke` takes any `exchange`; `over_http` of Transport/Perform is the one that the generated
-- transport makes of httpx, which gives a response or raises for the keyword arguments of a request,
-- and of `from_dict` of the response classes, an argument.
--
-- Bounds and fuel: numbers are natural numbers, or ℤ where the source may see a negative one; times are
-- whole units of a clock. `Parser.feed` runs on fuel for the bytes that are pending, which is enough for
-- its newlines (Sse/Drains). `events` cuts a chunk into pieces on
-- fuel for its bytes. `wait`, `poll_updates`, `wait_ready` and the page iterators run on fuel
-- that their caller names, and give `none` if it runs out: a polling loop needs more rounds than its
-- timeout has units, and `class_pages` as many as `max_pages`; without a timeout or a limit the source
-- may go on for ever, and what is said of such a run is said of one that ends.
--
-- `ApiError.from_dict` calls itself for the causes: `api_error_schema n` reads causes that nest at most
-- n deep. The number of lists and dicts in the text is enough for them (Wire/Schema/Errors/Depth), and so
-- is the depth of the causes of an error that was written (Wire/Schema/Errors/Whole).
--
-- Iterators are generators in the source; here each is the list of what it yields to a caller that takes
-- everything, with how it ends. An enumeration of the request side is its text; its constructor call,
-- which may raise, is a check of the text against the list of its values. Texts of exceptions that
-- Python's own library raises are not kept.
--
-- Not modelled: the settings that `connection` hands to httpx, and httpx; `AsyncJob.events`, whose parser is
-- that of `Job.events`; the read-only views of results.py; the lock of the cache, an observation being one
-- step; `from_dict` of `EditBatchRequest`, whose operations are a union; the additional properties of
-- requests, which the SDK leaves empty; the Java service, scripts and tests.
pub mod Base
pub mod Wire
pub mod Errors
pub mod Revisions
pub mod Sse
pub mod Client
pub mod Connection
pub mod Pages
pub mod Project
pub mod Service
pub mod Async
pub mod Transport
pub mod Symbols
pub mod Samples
pub mod Tests
pub mod Jobs
