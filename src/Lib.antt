-- ===== src/Lib.antt =====
-- Saffron runs coding agents on specs and lets a change through a suite of gates: scripts that a
-- repository declares, and core gates that the host computes. This library models the gates: what
-- one gate reports, what each core gate says of a change, how a whole suite is run over a tree,
-- and how a head's suite is judged against its baseline's. It also models the scheduler, which
-- chooses the specs that run and their order, and the scan that reconciles the ledger's tasks with
-- what GitHub decided, and the anchoring of a critic's findings to a diff. Paths are from the
-- repository's root.
--
-- Parts, and the files that model them:
--   Prelude             Boolean tests, lists, Python's `str` as a list of code points, `sorted` of
--                       a set of names, and the bitwise operators on native numbers.
--   Intake, Policy      the records of saffron/intake.py and saffron/repos/policy.py that the gates
--                       and the scheduler read, the rules on `consumes` and `removes`, and
--                       `effective_risk`.
--   Gates.Contract      saffron/gates/contract.py: `GateResult`, `Failure`, `split_lines`,
--                       `normalize_message`, `identity`.
--   Gates.Glob, Scope   saffron/gates/core/scope.py: globs, by the regular expressions that they
--                       are translated to, and `scope_gate`.
--   Gates.Baseline      saffron/gates/baseline.py: `subtract_baseline`, `suite_drift` and
--                       `is_no_progress`.
--   Gates.Census        saffron/gates/core/census.py and committed.py.
--   Gates.Criteria      saffron/gates/core/criteria.py.
--   Gates.Diff, Patch   the parsing of a diff in saffron/gates/core/integrity.py.
--   Gates.Integrity     `integrity_gate` of the same file.
--   Gates.Tokens, Size  saffron/gates/core/size.py: the counting of tokens, and `size_gate`.
--   Gates.Selection     saffron/gates/core/revert.py: which tests and source it takes, or why it skips;
--   Gates.Revert        the gate, and its verdict on the reverted run.
--   Gates.Witness       `witness_gate` of saffron/gates/core/witness.py; Gates.Derived models
--                       `constant_mutants` of the same file.
--   Gates.Execution     `run_gate` of saffron/gates/runner.py, and Gates.Runner its `run_witness` and
--                       `run_suite`.
--   Gates.Comparison    `_compare` of saffron/gates/suite.py, and Gates.Suite the rest of the file:
--                       `_run` puts all of the above together.
--   Queue               saffron/scheduler.py. Queue.Walk has the walks over `depends_on` and
--                       `_deepest_open_parent`; Queue.Rows the records and sets of states;
--                       Queue.Paths, Pulls, Names and Dependencies the refusals, with `_refuse`;
--                       Queue.Order and Base `_stack_order` and `_resolve_stack_base`; Queue.Night
--                       what a scan and the queries of saffron/ledger.py give; Queue.Build puts
--                       all of them together as `build_queue`.
--   Findings            saffron/agents/findings.py: a diff's facts, and `_is_anchored`.
--   Reconcile           saffron/reconcile.py: what the answers of GitHub make of the ledger's tasks.
--   Samples             tests of the definitions, and each theorem at a concrete input.
--
-- How the model corresponds to the code. A text is the list of its code points. A Python set is
-- kept as a list of its members where only membership counts, and is sorted where the code sorts
-- it. A `Counter` is the function of its counts. An exception is a constructor of a result type. A
-- line of a diff is one of `split_lines`, which holds no line feed; the expressions that the code
-- matches against lines are matched on such lines. Gates, containers and git change a world that
-- the model threads through every call, and reading the worktree is a function of that world.
--
-- Parameters. `CharClasses`, `Digits` and `WordTables` are Python's Unicode tables behind `\d`, `\s`,
-- `\w`, `int` and `casefold`.
-- `Host` is the executor of gates, the clock, JSON decoding with pydantic's validation and `repr`.
-- `Mutator`, `Tree` and `Worktree` are saffron/cell/worktree.py, which is git in a container.
-- `Expressions` are the matches of the regular expressions in a repository's policy. The one
-- hypothesis on a parameter is `AreSeparate`: that "N" is neither a digit nor white space, and
-- that " " is white space and no digit. What a night's scan found on disk, the ledger's rows, the
-- open pull requests that `gh` listed and the git test of a landed push are the fields of `Night`;
-- `Answers` is what `gh` and the ledger's re-gates say of each task; `repr` is Python's.
--
-- Bounds. `ones` counts the bits of n on fuel n, which is at least its number of binary digits, and
-- `decimal` prints n on fuel n + 1. A walk over `depends_on` has one round for each entry that it
-- can push, and `_stack_order` one for each candidate. The other loops are recursions on lists. Numbers are unbounded, as Python's are. `vector - matched` in the bit-parallel count stops
-- at 0 in the model and never has to, since `matched` is a part of `vector`'s bits; likewise the
-- tokens that `size_gate` excludes are a part of those it has counted.
--
-- Not modelled: the phases, batches, tasks, the rest of the ledger, records, reports and command line
-- around the gates; the executors' processes and containers; the loading of YAML and JSON and the
-- validators of specs and policies.
pub mod Findings
pub mod Gates
pub mod Intake
pub mod Policy
pub mod Prelude
pub mod Queue
pub mod Reconcile
pub mod Samples
