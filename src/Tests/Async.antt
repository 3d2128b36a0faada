-- ===== src/Tests/Async.antt =====
-- The asynchronous SDK.
use libjadx.Base.{some, [], ◌≢◌, refl}
use libjadx.Revisions.Session.{IsValid}
use libjadx.Client.{Client, System, instance_of, fixed_project}
use libjadx.Async.{async_invoke, and_then}
use libjadx.Async.Project.{async_snapshot}
use libjadx.Async.Pool.{
  Pool, snapshot, suspend, fresh, coroutine, starts, answered, Later, now, moved,
}
use libjadx.Async.Pool.Shared.{Advances, Later-Advances, shared_never_returns}
use libjadx.Samples.{system, client, cache-IsValid}
use libjadx.Tests.Cache.{seen, b}

-- A service that answers for a session that has been retired.
abbrev late_service : System
late_service = system (instance_of fixed_project (seen b 40))

abbrev knowing : Client
knowing = client

abbrev asked : Pool
asked = suspend (coroutine late_service snapshot knowing) []

asked-Later : Later late_service (fresh knowing) asked
asked-Later = moved now (starts snapshot)

abbrev told : Client → Pool
told c = record { client = c; tasks = [] }

told-Later : (c : Client) × Later late_service asked (told c)
unfolding coroutine async_snapshot async_invoke and_then
told-Later = (_, moved now (answered [] [] _ _ _ refl))

Later-Advances_example : Advances asked.client (told told-Later.0).client
Later-Advances_example = Later-Advances late_service knowing asked-Later told-Later.1

shared_never_returns_example :
    IsValid asked.client.revisions
    × IsValid (told told-Later.0).client.revisions
    × ((told told-Later.0).client.revisions.session_id ≢ some b)
unfolding coroutine async_snapshot async_invoke and_then
shared_never_returns_example =
    shared_never_returns late_service knowing b cache-IsValid asked-Later told-Later.1 refl
