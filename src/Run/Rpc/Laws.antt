-- ===== src/Run/Rpc/Laws.antt =====
-- Whom the RPC service answers.
use axiom_evi_apps.Prelude.{ℕ, ◌≡◌, refl, ◌≢◌, arith, true, false, List, [], ◌∷◌, some, ◌⊎◌, All}
use axiom_evi_apps.Run.Messages.{Message, send}
use axiom_evi_apps.Run.Rpc.{Allocator, Pending, rpc_service, serve_all}

-- A message that leaves the pending reply alone: no request for memory that has to wait.
abbrev pub IsSettled : Allocator → Message → Type 0
IsSettled a m = (m.header.function ≢ 1) ⊎ ((a.alloc m.raw).0 ≡ true)

keeps_pending :
    (a : Allocator) (slave_port : ℕ) (m : Message) (p : Pending)
    → IsSettled a m
    → (rpc_service a slave_port m p).0 ≡ p
unfolding rpc_service
keeps_pending a slave_port m p other = ground arith

serve_all-keeps_pending :
    (a : Allocator) (slave_port : ℕ) (ms : List Message) (p : Pending)
    → All (IsSettled a) ms
    → serve_all a slave_port ms p ≡ p
unfolding serve_all
serve_all-keeps_pending a slave_port [] p all = refl
serve_all-keeps_pending a slave_port (m ∷ ms) p all =
    rw (keeps_pending a slave_port m p all.0) (serve_all-keeps_pending a slave_port ms p all.1)

-- The request alone.
postponed :
    (a : Allocator) (slave_port : ℕ) (request : Message) (p : Pending)
    → request.header.command ≢ a.alloc_reply_command
    → request.header.function ≡ 1
    → (a.alloc request.raw).0 ≡ false
    → rpc_service a slave_port request p ≡ (
      record { reply_node = request.node; reply_port = slave_port; reply_hdr = request.header },
      [],
    )
unfolding rpc_service
postponed a slave_port request p asks fn waits = ground arith

-- A request for memory that the allocator cannot answer at once: nothing is sent. When the
-- allocator's reply arrives, after any messages but another such request, the slave that asked gets
-- it under the header of its request.
pub rpc_service-postponed :
    (a : Allocator) (slave_port : ℕ) (request reply : Message) (between : List Message)
    (p : Pending) (info : List ℕ)
    → request.header.command ≢ a.alloc_reply_command
    → request.header.function ≡ 1
    → (a.alloc request.raw).0 ≡ false
    → All (IsSettled a) between
    → reply.header.command ≡ a.alloc_reply_command
    → a.alloc_reply reply ≡ some info
    → let asked = rpc_service a slave_port request p in
      (asked.1 ≡ [])
      × ((rpc_service a slave_port reply (serve_all a slave_port between asked.0)).1
          ≡ send request.node slave_port request.header info ∷ [])
rpc_service-postponed a slave_port request reply between p info asks fn waits settled is_reply
      found =
    rw (postponed a slave_port request p asks fn waits) (
      refl,
      rw (serve_all-keeps_pending a slave_port between _ settled)
          (unfold rpc_service in ground arith),
    )
