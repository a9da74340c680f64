-- ===== src/Lib.antt =====
-- KOZO: the verification harness of the repository and its kernel ELF report.
--
-- The harness reads the task documents (tasks/todo.json, tasks/runtime.json), runs a fixed list of
-- validators over them and over the repository, and writes one artifact that says which checks
-- passed. The aggregator holds the validators to the registry of checks and codes; the schema engine
-- checks the documents and the artifact; the summary turns the plan, the runtime state and the last
-- artifact into the context of the next step. The kernel ELF report reads the built kernel and names
-- what keeps it from being loaded, and the loadability validator checks that report.
--
--   Base         what the files share: tests, lists, integers, texts, formatting, sorted sets
--   Result       values and exceptions; Json: the values of json.loads, lookup, equality, size
--   Registry     harness/registry.py and, in Registry/Codes, harness/codes.py
--   Validator    harness/validator.py; Validators: harness/validators.py
--   Aggregator   harness/aggregator.py: Inputs (the two input checks), Registration
--                (_build_validator_map), Normalize (_normalize_result), Collect (_collect_results,
--                _build_validation_bundle), Artifact (_build_artifact), Pipeline (run_aggregator);
--                Entries, Outcome and Report prove
--   Schema       harness/validators_impl/schema.py; Conforms is the specification, Loops, Keywords,
--                Steps, Exact and Total prove, Document is SchemaValidator
--   Invariants   harness/invariants.py; Reference is the reference pattern and its split
--   Plan         harness/validators_impl/: plan_lifecycle.py (Lifecycle), step_scope.py (Scope),
--                verification_refs.py (Refs), explanation.py, preconditions.py and subagent.py
--                (Narrative), evidence.py (Evidence)
--   Summary      harness/summarize.py: Next (references and commands), Mode, Ready
--   Elf          scripts/kernel_elf_report.py: Unpack (struct.unpack_from), Reader, Layout, Issues,
--                Branches, Report
--   Loadability  harness/validators_impl/kernel_loadability.py
--   Issue        the issues that contract validators return, and runs of checks that may raise
--   Stages       harness/runtime_progression_stages.py and its validator: Required, Structure, Cycle
--                (the loop on indirect cycles), Graph, Owners (the owners of transitions), Validate
--   Source       what validators ask of a source text: needles, anchors in order, lines, braces, and
--                the regular expressions that need no way back (Pattern)
--   Execution    harness/validators_impl/execution_proof.py
--   TrapPath     harness/validators_impl/runtime_trap_path.py: Function (the text of a function), Anchors,
--                Validate; ReturnPath: harness/validators_impl/return_path_proof.py
--   SyscallTable harness/syscall_table_contract.py and its validator: Scan (the blocks and the regular
--                expressions), Entries (one entry of the table), Validate
--   Tests        concrete documents, runs and files
--
-- Functions keep the names of the source. An exception is an error value of a Result, or none where
-- the function has one exception only; a dict that the code only builds and reads by key is a record
-- or a list of entries; a compiled regular expression is a matcher of its own over code points. The
-- task documents are records in the shape that their schemas declare. The aggregator runs the plan
-- validators also when the schema check failed; on a document without a required key they raise
-- KeyError there, which is not modelled: the theorems on them are for documents of that shape.
--
-- In the schema check, malformed_schema stands for the exceptions of a keyword whose value the source
-- cannot take, a TypeError or an AttributeError; enum may be a list, a text or an object, as the
-- operator in has it, and required whatever of these a loop visits.
--
-- The schema check recurses on fuel. The fuel given is the size of the schema, which is enough since
-- each call goes to a proper part of the schema. Formatting a number has one step more than the
-- number itself, which is enough since each step divides it by the base. The loop on
-- indirect cycles runs on the number of stages, which is enough since each round takes one away or
-- stops. All other loops are structural; a position in a source text is the rest of the text from
-- there.
--
-- Parameters stand for what is not in the repository's code: re.search, the schema documents on disk,
-- the text of an exception, the test that a path is a file, int(text, 16), the decimal digits of re,
-- the addresses that nm reports, the instructions that objdump prints, the texts of the source
-- files that are scanned, the word characters of re, and repr.
--
-- Not modelled: the parsing of the text of nm and objdump, the command lines and the writing of
-- files, the loaders of the contracts on stages and on the system call table, and the validators of
-- the other system call contracts, of ABI and other runtime contracts, of evidence, and of boot and
-- emulator reports.
pub mod Base
pub mod Registry
pub mod Json
pub mod Result
pub mod Validator
pub mod Invariants
pub mod Plan
pub mod Schema
pub mod Aggregator
pub mod Elf
pub mod Summary
pub mod Loadability
pub mod Validators
pub mod Issue
pub mod Stages
pub mod Source
pub mod Execution
pub mod TrapPath
pub mod ReturnPath
pub mod SyscallTable
pub mod Tests
