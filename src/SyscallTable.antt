-- ===== src/SyscallTable.antt =====
-- harness/syscall_table_contract.py: the contract on the kernel's table of system calls, and what its
-- validator reads of the ABI manifest, of the boundary contract and of the sources. `is_word` says
-- whether a character is one of `\w`, and `repr` is Python's.
pub mod Scan
pub mod Entries
pub mod Validate
use kozo.Base.{String, Bool, List}
use kozo.Base.Int.{ℤ}
use kozo.Base.Text.{Text}

pub record TableDispatcher : Type 0 where
  pub symbol : String
  pub source_path : String
  pub syscall_id_type : String
  pub return_type : String

pub record PayloadSyscall : Type 0 where
  pub name : String
  pub syscall_class : String
  pub constant : String
  pub payload_layout : String
  pub branch_selector : String
  pub boundary_contract : String

pub record NoPayloadSyscall : Type 0 where
  pub name : String
  pub syscall_class : String
  pub constant : String
  pub branch_selector : String
  pub payload_argument : String
  pub return_status : String
  pub mutates_payload : List String
  pub must_not_mutate_payload : Bool
  pub prohibited_fields : List String

-- an entry of `valid_syscalls`
pub data Syscall : Type 0 where
  payload : PayloadSyscall → Syscall
  no_payload : NoPayloadSyscall → Syscall

pub record UnknownSyscallBehavior : Type 0 where
  pub return_status : String
  pub must_not_mutate_payload : Bool

pub record TableRelationships : Type 0 where
  pub abi_manifest : String
  pub syscall_boundary_contract : String

pub record SyscallTableContract : Type 0 where
  pub version : ℤ
  pub architecture : String
  pub dispatcher : TableDispatcher
  pub valid_syscalls : List Syscall
  pub unknown_syscall_behavior : UnknownSyscallBehavior
  pub relationships : TableRelationships

pub record SourceBundle : Type 0 where
  pub dispatcher_source : Text
  pub rust_binding : Text
  pub odin_binding : Text

-- `TableContext`, with the names of the manifest's constants and the constant of the boundary contract
pub record TableContext : Type 0 where
  pub contract : SyscallTableContract
  pub manifest_syscalls : List String
  pub manifest_status : List String
  pub boundary_constant : String
  pub sources : SourceBundle

pub record DispatcherBlocks : Type 0 where
  pub declaration : Text
  pub switch_body : Text
  pub default_path : Text
