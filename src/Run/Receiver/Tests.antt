-- ===== src/Run/Receiver/Tests.antt =====
-- Runs of the receiver.
use axiom_evi_apps.Prelude.{
  ℕ, ◌<◌, ◌≡◌, refl, arith, true, false, List, [], ◌∷◌, ◌/◌, ◌%◌, some, ◌↔◌, replicate,
}
use axiom_evi_apps.Run.Messages.{Header, Message, send}
use axiom_evi_apps.Run.Rpc.{Allocator, rpc_service, serve_all}
use axiom_evi_apps.Run.Rpc.Laws.{rpc_service-postponed}
use axiom_evi_apps.Run.Exit.Tests.{linux}
use axiom_evi_apps.Run.Emit.Tests.{one_byte, fresh}
use axiom_evi_apps.Run.Receiver.{Env, Master}
use axiom_evi_apps.Run.Receiver.Barrier.{arrivals, arrivals_lem}
use axiom_evi_apps.Run.Receiver.Ready.{IsMessage}

-- An allocator that answers each request but the one for memory, and whose replies are 7.
abbrev allocator : Allocator
allocator = record {
  alloc_reply_command = 0x40;
  alloc_reply = λ m. some (7 ∷ []);
  alloc = λ raw. (false, raw);
  get_regions = λ n raw. (true, raw);
  alloc_shblock = λ n raw. (true, raw);
}

abbrev pub env : Env
env = record {
  wait = linux;
  allocator = allocator;
  fwrite = one_byte;
  accepts = λ n. true;
  max_buffer = 8;
  slave_port = 5;
}

abbrev pub header : ℕ → ℕ → Header
header command status = record { command = command; status = status; barrier_id = 3; function = 1 }

abbrev pub message : ℕ → ℕ → Message
message node command = record { node = node; header = header command 0; raw = [] }

abbrev two_slaves : Master
two_slaves = record {
  nodes = 0b110;
  nnodes = 2;
  flags = 0x01;
  services = 0x0f;
  exit_status = 0;
  exit_counter = 2;
  barrier = replicate 16 0;
  infoout = fresh;
  infoerr = fresh;
  rpc = record { reply_node = 0; reply_port = 0; reply_hdr = header 0 0 };
}

pub message-IsMessage : (node command : ℕ) → node < 63 → IsMessage env (message node command)
message-IsMessage node command lt = record { from_node = lt; fits = omega arith }

abbrev pub series : List Message
series = message 1 0x85 ∷ message 1 0x80 ∷ message 2 0x80 ∷ []

arrivals_lem_example : ((arrivals env 3 7).1 ≡ 7 / 3) × (((arrivals env 3 7).0 ≡ 0) ↔ (7 % 3 ≡ 0))
arrivals_lem_example = arrivals_lem env 3 7 (omega arith) (omega arith)

rpc_service-postponed_example :
    let asked = rpc_service allocator 5 (message 2 0x86) two_slaves.rpc in
    (asked.1 ≡ [])
    × ((rpc_service allocator 5 (message 0 0x40) (serve_all allocator 5 [] asked.0)).1
        ≡ send 2 5 (header 0x86 0) (7 ∷ []) ∷ [])
rpc_service-postponed_example =
    rpc_service-postponed allocator 5 (message 2 0x86) (message 0 0x40) [] two_slaves.rpc (7 ∷ [])
      (omega arith) refl refl tt refl refl
