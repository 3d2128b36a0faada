-- ===== src/Tests/Alone.antt =====
-- The asynchronous SDK, running alone.
use libjadx.Base.{true, false, none, some, [], ◌≡◌, pos}
use libjadx.Wire.Json.{unset}
use libjadx.Wire.Enums.{running}
use libjadx.Client.{System, instance_of, fixed_project}
use libjadx.Revisions.Expected.{no_preconditions}
use libjadx.Project
use libjadx.Project.Reads
use libjadx.Service.{wait_ready}
use libjadx.Async.Project.{
  async_snapshot, async_settings, async_pending_edits, async_save, async_reload,
  async_update_settings, async_export_mappings, async_import_mappings, async_apply_edits,
  async_rename, async_set_comment, async_rename_parameter,
}
use libjadx.Async.Reads.{
  async_resolve_object, async_decompile, async_control_flow, async_references, async_search,
  async_build_search_index, async_rename_symbol, async_symbol_references, async_decompile_symbol,
  async_symbol_control_flow,
}
use libjadx.Async.Pages.{
  rejoined, async_class_pages, async_classes, async_reference_pages, async_iterate,
}
use libjadx.Async.Pages.Same.{with_client, iterators_same}
use libjadx.Async.Jobs.{async_wait, async_poll_updates}
use libjadx.Async.Service.{async_wait_ready}
use libjadx.Async.Poll.{regroup}
use libjadx.Async.Loops.{loops_same}
use libjadx.Async.Alone.{Same}
use libjadx.Async.Alone.Edits.{mutations-Same}
use libjadx.Async.Alone.Lookups.{lookups-Same}
use libjadx.Async.{run_alone}
use libjadx.Symbols.{
  RawSymbol, rename_symbol, symbol_references, decompile_symbol, symbol_control_flow,
}
use libjadx.Pages.{class_pages, classes, reference_pages, iterate}
use libjadx.Jobs.{wait, poll_updates}
use libjadx.Tests.Iterators.{class_query, query, first_hits}
use libjadx.Tests.Runs.{symbol}
use libjadx.Symbols
use libjadx.Samples.{system, client, job_in, method_reference}
use libjadx.Tests.Cache.{seen, b}

abbrev late_service : System
late_service = system (instance_of fixed_project (seen b 40))

mutations-Same_example :
    Same late_service
      (async_save late_service none no_preconditions)
      (Project.save late_service none no_preconditions)
    × Same late_service
        (async_reload late_service true no_preconditions)
        (Project.reload late_service true no_preconditions)
    × Same late_service
        (async_update_settings late_service none no_preconditions)
        (Project.update_settings late_service none no_preconditions)
    × Same late_service
        (async_export_mappings late_service "a.tiny" no_preconditions)
        (Project.export_mappings late_service "a.tiny" no_preconditions)
    × Same late_service
        (async_import_mappings late_service "a.tiny" no_preconditions)
        (Project.import_mappings late_service "a.tiny" no_preconditions)
    × Same late_service
        (async_apply_edits late_service [] no_preconditions)
        (Project.apply_edits late_service [] no_preconditions)
    × Same late_service
        (async_rename late_service method_reference "x" true no_preconditions)
        (Project.rename late_service method_reference "x" true no_preconditions)
    × Same late_service
        (async_set_comment late_service method_reference "x" no_preconditions)
        (Project.set_comment late_service method_reference "x" no_preconditions)
    × Same late_service
        (async_rename_parameter late_service method_reference 0 "x" "s" no_preconditions)
        (Project.rename_parameter late_service method_reference 0 "x" "s" no_preconditions)
mutations-Same_example =
    mutations-Same late_service none none "a.tiny" true [] no_preconditions method_reference "x"
      true 0 "s"

lookups-Same_example :
    Same late_service (async_snapshot late_service) (Project.snapshot late_service)
    × Same late_service (async_settings late_service) (Project.settings late_service)
    × Same late_service (async_pending_edits late_service) (Project.pending_edits late_service)
    × Same late_service
        (async_resolve_object late_service method_reference)
        (Reads.resolve_object late_service method_reference)
    × Same late_service
        (async_decompile late_service method_reference "x" false unset true false)
        (Reads.decompile late_service method_reference "x" false unset true false)
    × Same late_service
        (async_control_flow late_service method_reference false no_preconditions)
        (Reads.control_flow late_service method_reference false no_preconditions)
    × Same late_service
        (async_references late_service method_reference "INCOMING" "PAIRS" none 50 none false true)
        (Reads.references late_service method_reference "INCOMING" "PAIRS" none 50 none false true)
    × Same late_service
        (async_search late_service "x" none "PAIRS" false 50 true false)
        (Reads.search late_service "x" none "PAIRS" false 50 true false)
    × Same late_service
        (async_build_search_index late_service none)
        (Reads.build_search_index late_service none)
    × Same late_service
        (async_rename_symbol late_service (Symbols.symbol_info symbol) "x" false no_preconditions)
        (rename_symbol late_service (Symbols.symbol_info symbol) "x" false no_preconditions)
    × Same late_service
        (async_symbol_references late_service
          (Symbols.symbol_info symbol)
          "INCOMING"
          "PAIRS"
          false
          true)
        (symbol_references late_service (Symbols.symbol_info symbol) "INCOMING" "PAIRS" false true)
    × Same late_service
        (async_decompile_symbol late_service (Symbols.symbol_info symbol) false)
        (decompile_symbol late_service (Symbols.symbol_info symbol) false)
    × Same late_service
        (async_symbol_control_flow late_service (Symbols.symbol_info symbol) false no_preconditions)
        (symbol_control_flow late_service (Symbols.symbol_info symbol) false no_preconditions)
lookups-Same_example =
    lookups-Same late_service method_reference (Symbols.symbol_info symbol) "x" "INCOMING" "PAIRS"
      unset none none 50 false true false no_preconditions none

loops_same_example :
    (regroup (
        run_alone late_service
          (async_wait late_service 4 (some (pos 8)) (pos 3) (job_in running) client))
      ≡ wait late_service 4 (some (pos 8)) (pos 3) (job_in running) client)
    × (regroup (
          run_alone late_service
            (async_poll_updates late_service 4 (some (pos 8)) (pos 3) (job_in running) client))
        ≡ poll_updates late_service 4 (some (pos 8)) (pos 3) (job_in running) client)
    × (regroup (run_alone late_service (async_wait_ready late_service 4 (pos 8) (pos 3) client))
        ≡ wait_ready late_service 4 (pos 8) (pos 3) client)
loops_same_example =
    loops_same late_service 4 (some (pos 8)) (pos 8) (pos 3) (job_in running) client

iterators_same_example :
    (rejoined (run_alone late_service (async_class_pages late_service 4 class_query client))
      ≡ class_pages late_service 4 class_query client)
    × (rejoined (run_alone late_service (async_classes late_service 4 class_query client))
        ≡ classes late_service 4 class_query client)
    × (rejoined (run_alone late_service (async_reference_pages late_service 4 query client))
        ≡ reference_pages late_service 4 query client)
    × (with_client (run_alone late_service (async_iterate late_service 4 first_hits client))
        ≡ iterate late_service 4 first_hits client)
iterators_same_example = iterators_same late_service 4 class_query query first_hits client
