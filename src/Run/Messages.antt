-- ===== src/Run/Messages.antt =====
-- axiom-run/common.h and axiom-run.h: the messages between the axiom-run processes. A header is a
-- union behind its command byte: the model keeps what each member of the union reads.
use axiom_evi_apps.Prelude.{ℕ, Bool, List, ◌==◌, not, bit_and}
use axiom_evi_apps.Run.Emit.{Item}

-- CMD_EXIT and the other CMD_ values
abbrev pub cmd_exit : ℕ
cmd_exit = 0x80

abbrev pub cmd_kill : ℕ
cmd_kill = 0x81

abbrev pub cmd_send_to_stdout : ℕ
cmd_send_to_stdout = 0x82

abbrev pub cmd_send_to_stderr : ℕ
cmd_send_to_stderr = 0x83

abbrev pub cmd_recv_from_stdin : ℕ
cmd_recv_from_stdin = 0x84

abbrev pub cmd_barrier : ℕ
cmd_barrier = 0x85

abbrev pub cmd_rpc : ℕ
cmd_rpc = 0x86

-- The service bits of axiom-run.h.
abbrev pub has_service : ℕ → ℕ → Bool
has_service services bit = not (bit_and services bit == 0)

abbrev pub barrier_service : ℕ
barrier_service = 0x01

abbrev pub redirect_service : ℕ
redirect_service = 0x04

abbrev pub rpc_service_bit : ℕ
rpc_service_bit = 0x08

-- header_t
pub record Header : Type 0 where
  pub command : ℕ
  pub status : ℕ
  pub barrier_id : ℕ
  pub function : ℕ

-- A message as it was received: the sender, and the `buffer_t` as its header and the raw bytes.
pub record Message : Type 0 where
  pub node : ℕ
  pub header : Header
  pub raw : List ℕ

-- What a process does to the outside.
pub data Effect : Type 0 where
  to_stdout to_stderr : List Item → Effect
  send : ℕ → ℕ → Header → List ℕ → Effect
