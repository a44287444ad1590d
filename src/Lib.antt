-- ===== src/Lib.antt =====
-- FabricPerf, a scale-up network profiler: what its Python analyzers compute from the traces of a run,
-- how its NCCL wrapper rewrites generated modules, and the theorems that make both correct.
--
-- The program. Probes and runtime hooks write binary result files below a trace root, one directory
-- for each rank. `analyze.py` selects a mode and hands the roots to an analyzer: latency tables
-- (analysis/latency.py), throughput tables and arrival CSV files (analysis/throughput.py), or the
-- merge of probe bytes into a CUPTI CSV file (analysis/memory.py). Two more analyzers read latency
-- traces: the PTP clock closure (analysis/ptp_alignment.py) and the mailbox diagnostics
-- (analysis/mailbox_debug.py). All share analysis/common.py.
-- Before a run, the wrapper nccl/prober.py selects a device function of a generated PTX module, puts the
-- probe into it and rewrites the dispatch so that the function is called.
--
-- The files, and what they correspond to in the repository:
--   Prelude      shared types: lists, dictionaries in insertion order, texts, integers, exceptions as
--                values (`Result`), sorting, regular expressions, lines, and Python's float operations
--                as a record.
--   Modes        analysis/common.py, `fabricperf_mode`, `throughput_variant`, `throughput_partitions`.
--   Trace        analysis/common.py, `iter_trace_dirs`, `parse_rank`, `resolve_trace_root`.
--   Throughput   analysis/throughput.py: Records decodes the streams of a workgroup, Aggregate is
--                `ThroughputAggregate`, Reader is `read_throughput_root`, Output the run over
--                all roots. Records/Layout, Records/Shape, Records/Workgroups, Aggregate/Totals,
--                Reader/Rows and Output/Captured hold theorems.
--   Latency      analysis/latency.py: Channel splits one record's packed word, Compact reads the
--                binary sections, Reader is `read_trace`, Roots the run over all roots.
--                Channel/Pack, Compact/Rows, Reader/Samples, Reader/Counts, Reader/Errors and
--                Roots/Complete hold theorems.
--   Ptp          analysis/ptp_alignment.py: Slots is `decode_ptp_slot`, Reader groups the samples of
--                each pair of ranks, Offsets derives and checks pair offsets. Slots/Encode,
--                Reader/Pairs, Reader/Ranks and the modules below Offsets hold theorems.
--   Mailbox      analysis/mailbox_debug.py: Words decodes the packed words, Reader is
--                `read_debug_records`, Summary counts. Words/Encode and Summary/Counts hold theorems.
--   Memory       analysis/memory.py and the CSV helpers of analysis/common.py: Metrics is the
--                `raw_metrics` field and the long CSV files, Probe sums bytes by launch, Merge puts
--                them into rows. Metrics/Long, Probe/Totals and Merge/Columns hold theorems.
--   Cli          cli.py: the selection of modes and probes, `validate_args` and `configure_env`, and
--                in Launch the hooks `prepare` and `post_run`. Cli/Accepted and Cli/Launch/Prepared
--                hold the theorems that tie it to Modes and Build.
--   Build        build.py, with a theorem in Build/Success.
--   Analyze      analyze.py, `main`, with a theorem in Analyze/Status.
--   Nccl         nccl/table.py and nccl/prober.py, the wrapper that instruments NCCL's device functions.
--                Table selects the function (Table/Selection), KernelInfo reads the runtime table
--                (KernelInfo/Bounds, KernelInfo/Printed), Toml is the probe configuration, Shell,
--                DevfuncProbe and Expand make the configurations for the entry, for a device function
--                and for every receive load (Shell/Contract, Expand/Hooks), Devfunc and Instrument put
--                the probe into the functions (Instrument/Candidates, Instrument/Outside), Redirect
--                and Fallback rewrite the dispatch (Redirect/Kept, Fallback/Calls), Hoist moves the
--                declarations (Hoist/Order), and Wrapper is the run on the files of a kernel (Workdir),
--                whose end Wrapper/Ended describes.
--   Examples     the theorems at concrete inputs, and runs by evaluation.
--
-- Conventions. A function that may raise returns a `Result`; the loops over files, blocks and warps
-- are `collect` and `fold`, which stop at the first exception. An object that methods mutate is a
-- record that is passed on. Shifts and masks are divisions and remainders by powers of two. Every
-- loop is a structural recursion but two: `show`, whose count of rounds exceeds the number's digits,
-- and the loop of `rewrite_table_fallback_to_direct_call`, which runs on as many rounds as there are
-- lines. The regular expressions of the wrapper are data, which Prelude/Regex matches by backtracking
-- in the order of `re`; the letters and digits of their classes are those of ASCII.
--
-- Parameters. The module `read.py` of each trace directory is generated, so its `parse` is a
-- parameter (`load_reader`, with the named tuple `sr_latency` where the source calls it), as are
-- the rank pattern of `parse_rank` (a regular expression), the field order of the header and
-- section tuples of the package `neutrino` (`header_of`, `section_of`), the float operations
-- (`FloatOps`) and the mean and median of `statistics`. Of the CUDA prober of the package
-- `neutrino`, `probing` with what `load` returns, `find_matching_brace` (`CudaProber`), the table
-- rewriter, `prune`, `assemble`, the run of its program and the name of the table section are
-- parameters (`Core`); so are the run of `make` and the joining of paths (`Tools`). The theorems
-- hold for all of them.
--
-- Assumptions. The fields of generated records that the source reads as unsigned are natural numbers,
-- file offsets are below 2^63, `int` reads ASCII digits, and a CSV row has a value for each column
-- that it names. The device count, the slot divisors and the root rank of the PTP analyzer are not
-- negative. In a probe configuration the entries `probe`, `map` and `symbol`, the probes and their
-- captures are tables, the snippets are texts, and there are no floats and dates. The metadata
-- file of the wrapper, where it is a JSON object, has the keys that the wrapper writes.
--
-- Not modelled. Printing of tables and argument parsing (pure input and output over `argparse`),
-- the latency and PTP statistics in floating point, the loading of a probe and the start of the CUDA
-- prober in the NCCL wrapper, the snippets there that no function uses, the C and CUDA runtimes, the
-- probes and the benchmarks.
pub mod Prelude
pub mod Modes
pub mod Nccl
pub mod Trace
pub mod Throughput
pub mod Latency
pub mod Ptp
pub mod Mailbox
pub mod Memory
pub mod Cli
pub mod Build
pub mod Analyze
mod Examples
