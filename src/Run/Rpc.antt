-- ===== src/Run/Rpc.antt =====
-- axiom-run/rpcfuncs.c: the RPC service of the master. The level 2 allocator (axiom_al2_*) is a
-- library of its own: `Allocator` has a function for each call, from the bytes behind the header to
-- whether a reply is due and the bytes that it leaves there. `rpc_init` and `rpc_release` only call
-- that library. A failed send is logged and changes nothing.
pub mod Laws
use axiom_evi_apps.Prelude.{
  ℕ, ◌+◌, Bool, true, false, List, [], ◌∷◌, Option, none, some, ◌==◌, if◌then◌else◌,
}
use axiom_evi_apps.Run.Messages.{Header, Message, Effect, send}

pub record Allocator : Type 0 where
  -- AXIOM_CMD_ALLOC_REPLY
  pub alloc_reply_command : ℕ
  -- axiom_al2_alloc_reply: the reply for the slave, if there is one
  pub alloc_reply : Message → Option (List ℕ)
  pub alloc : List ℕ → Bool × List ℕ
  pub get_regions : ℕ → List ℕ → Bool × List ℕ
  pub alloc_shblock : ℕ → List ℕ → Bool × List ℕ

-- `rpc_reply`, the one reply that can be pending
pub record Pending : Type 0 where
  pub reply_node : ℕ
  pub reply_port : ℕ
  pub reply_hdr : Header

-- The requests of `rpc.function`.
pub data Function : Type 0 where
  ping alloc get_regions alloc_shblock unknown : Function

pub rpc_function : ℕ → Function
rpc_function f =
    if f == 0
    then ping
    else if f == 1
    then Function.alloc
    else if f == 2
    then Function.get_regions
    else if f == 3
    then Function.alloc_shblock
    else unknown

pub rpc_postpone_reply : ℕ → ℕ → Header → Pending
rpc_postpone_reply node port hdr = record { reply_node = node; reply_port = port; reply_hdr = hdr }

pub rpc_send_reply : Pending → List ℕ → List Effect
rpc_send_reply p buffer = send p.reply_node p.reply_port p.reply_hdr buffer ∷ []

-- The common end of `rpc_service`: the message goes back to its sender if a reply is due.
pub answer : ℕ → Message → Bool × List ℕ → List Effect
answer slave_port m (reply, raw) = if reply then send m.node slave_port m.header raw ∷ [] else []

module _ (a : Allocator) (slave_port : ℕ) where
  pub serve_function : Function → Message → Pending → Pending × List Effect
  unfolding rpc_postpone_reply answer
  serve_function ping m p = (p, answer slave_port m (true, m.raw))
  serve_function Function.alloc m p =
      let result = a.alloc m.raw in
      (
        if result.0 then p else rpc_postpone_reply m.node slave_port m.header,
        answer slave_port m result,
      )
  serve_function Function.get_regions m p = (p, answer slave_port m (a.get_regions m.node m.raw))
  serve_function Function.alloc_shblock m p =
      (p, answer slave_port m (a.alloc_shblock m.node m.raw))
  serve_function unknown m p = (p, [])

  pub rpc_service : Message → Pending → Pending × List Effect
  unfolding serve_function rpc_send_reply rpc_function
  rpc_service m p =
      if m.header.command == a.alloc_reply_command
      then elim (a.alloc_reply m) [ none ↦ (p, []) | some info ↦ (p, rpc_send_reply p info) ]
      else serve_function (rpc_function m.header.function) m p

  -- A series of RPC messages, as the receiver passes them on: the pending reply after them.
  pub serve_all : List Message → Pending → Pending
  serve_all [] p = p
  serve_all (m ∷ ms) p = serve_all ms (rpc_service m p).0
