-- ===== src/Lib.antt =====
-- duckdb-mlx runs aggregates of DuckDB queries on the GPU through MLX. The planner
-- (src/planner/mlx_transparent.cpp) translates expressions and WHERE filters into a postfix IR;
-- the bridge (src/bridge) evaluates programs of that IR over the segments of a table, skips
-- segments by zone maps, merges the results, encodes text keys by dictionaries and groups by
-- integer keys. This library models the decisions and the arithmetic on the host, with MLX and
-- DuckDB as parameters.
--
-- Common: lists, tests and options over native numbers; Int64: int64_t as a bit pattern below 2 ^
-- 64 with signed order and wrapping sum; Assoc: maps by text.
--
-- Ir: include/mlx_bridge.hpp, MlxExprOp, MlxSumProgram, MlxFilter. Ir/Eval:
-- bridge/mlx_bridge.cpp, EvalOps, a stack machine in Option whose `none` is what the source
-- leaves undefined. The record Backend holds the operations of mlx::core.
--
-- Planner: the DuckDB nodes that the planner reads, as data. Planner/Translate: MlxExprTranslator
-- of planner/mlx_transparent.cpp, one function for each expression class; the recursion through
-- projections runs on fuel. Planner/Translate/Meaning: what an expression means, as a relation
-- that knows no stack. Planner/Translate/Sound: the translator against it.
--
-- Zone: ComputeZoneMapT of bridge/mlx_bridge.cpp, with Zone/Bounds. Prune: BuildSegmentPrunePreds
-- and SegmentShouldPrune, with Prune/Sound. Segment: MlxSegment, the masks, BuildSumGraphs,
-- MergeSegmentOutputs and EvalSegments; the rows of a segment are a list, and the record
-- Reductions holds the reductions of MLX. Segment/Exact and Segment/Pruning: the int64 lane of
-- EvalSegments.
--
-- Planner/Filter: TranslateTableFilter, with Planner/Filter/Sound; Planner/Cost: the tests that
-- leave a query to the CPU; Planner/Translate/Fuel: the levels of an expression as fuel.
--
-- Planner/Column: AppendMlxColumnT to SegmentColumns of planner/mlx_transparent.cpp, the buffers
-- of a sink, with Planner/Column/Rows. Cache: MlxCachedColumn, MlxCacheHas, MlxCacheDrop and
-- MlxCacheBeginPopulation of bridge/mlx_bridge.cpp, with Cache/Plan. Cache/Store:
-- AppendColumnSlice, CanonicalSegmentSizesUnlocked and MlxCacheStoreSegment, its loops on the
-- fuel `count`, with Cache/Store/Rows, Cache/Store/Start, Cache/Store/Cuts and
-- Cache/Store/Correct. Cache/Steps: these operations as the steps of a state machine. Cache/Read:
-- SegmentFromHost, MlxSumExprs, MlxSumExprsCached with its exceptions as values,
-- MlxCacheColumnZoneMaps and MlxCacheClearAll, with Cache/Read/Errors, Cache/Read/Cuts and
-- Cache/Read/Refine. Cache/Fused: ConcatArraysBalanced, on the number of parts as fuel, and
-- FuseCachedColumnUnlocked, with Cache/Fused/Rows. Cache/Derived: StorageIndexFromCacheKey to
-- MaterializeDerivedUnlocked and MlxCacheBindDerivedPrograms, with Cache/Derived/Bind and
-- Cache/Derived/Values. Cache/Q1: the tests of TryLineitemQ1FastPath before its lookups of the
-- packed columns.
--
-- Dict: MlxDictEncode, MlxDictStrings, MlxDictInstall and MlxDictCard of bridge/mlx_bridge.cpp,
-- over a store by column; Dict/RoundTrip and Dict/Install.
--
-- Groupby: the rows of a grouping and what a grouping must return. Groupby/Dense:
-- GroupbySumDenseHost and DenseSpanOk of bridge/mlx_groupby.cpp, with Groupby/Dense/Correct.
-- Groupby/Sum: MlxGroupbySum and EstimateGroupsFromKeys. Groupby/Path:
-- bridge/mlx_groupby_paths.cpp, PickGpuPath and the checksums of bridge/mlx_groupby_radix.cpp and
-- bridge/mlx_groupby_slotlock.cpp, with Groupby/Path/Checked. Groupby/Radix: HostSegmentReduce of
-- bridge/mlx_groupby_radix.cpp, with Groupby/Radix/Threads and Groupby/Radix/Runs; the threads'
-- parts are taken one after the other, since no thread reads what another writes. Groupby/Hash:
-- MlxGroupedState and AppendHashRows to MlxGroupedHashGroupByComplete of bridge/mlx_bridge.cpp,
-- with Groupby/Hash/Buffers and Groupby/Hash/Tables. Groupby/Grouped: MlxGroupedInit, with
-- Groupby/Grouped/Slots and Groupby/Grouped/Start. Groupby/Grouped/Host: the host's threads of
-- GroupedAccumulateArrays, where neither the dense reduction nor a GPU accumulator is chosen,
-- with Groupby/Grouped/Program, Groupby/Grouped/Threads and Groupby/Grouped/Exact; the loops are
-- those of Common/Loops, and a thread's rows are read after those of the threads before it.
-- Groupby/Grouped/Scatter: GroupedCpuScatterInt. Groupby/Accumulator: DenseGroupbyAcc to
-- MlxGroupbyDenseClearTable of bridge/mlx_groupby.cpp, with the array operations of MLX as a
-- record and Groupby/Accumulator/Dropped. Groupby/Cached: MlxGroupbyCachedSafe and
-- MlxGroupbySumCached of bridge/mlx_bridge.cpp, with Groupby/Cached/Exact and
-- Groupby/Cached/Safe. Tests: the theorems at small inputs.
--
-- Bounds: a translation with fuel n follows an expression and its projections to depth n; DuckDB
-- plans are finite, so some n is enough, and with less the model may decline an expression that
-- the code translates. An MLX operation on arrays is taken as its operation at each row; a graph
-- that reads no column is an array of one entry. Doubles are an abstract type, so no statement
-- depends on rounding.
--
-- Not modelled: the dense tables of a grouped state, the radix passes, the GPU groupings and the
-- Metal kernels (texts in another language), the interception of DuckDB plans and its operators,
-- the vector similarity search, registration and logging. They are glue to DuckDB, MLX or Metal,
-- or not yet covered.
pub mod Common
pub mod Ir
pub mod Planner
pub mod Zone
pub mod Prune
pub mod Segment
pub mod Cache
pub mod Dict
pub mod Groupby
pub mod Tests
