-- ===== src/Init/Allocator.antt =====
-- axiom-init/axiom-allocator-l1/axiom_allocator_l1.c: the requests to the level 1 allocator, whose
-- library is a parameter: each of its functions gives the new state, the info of the answer, and
-- whether there is an answer.
use axiom_evi_apps.Prelude.{ℕ, Bool, true, List, [], ◌∷◌, if◌then◌else◌}

pub data AllocCommand : Type 0 where
  alloc_appid alloc release alloc_appid_reply alloc_reply other : AllocCommand

-- axiom_al1_alloc_appid, axiom_al1_alloc and axiom_al1_release over a state, and what sets the error
-- of an info.
pub record AllocatorL1 (State Info : Type 0) : Type 0 where
  pub take_appid : State → Info → State × Info × Bool
  pub take_regions : State → Info → State × Info × Bool
  pub give_back : State → Info → State × Info × Bool
  pub with_error : Info → Info

pub record AllocPayload (Info : Type 0) : Type 0 where
  pub command : AllocCommand
  pub reply_port : ℕ
  pub info : Info

module _ {State Info : Type 0} (al1 : AllocatorL1 State Info) where
  abbrev replies : AllocPayload Info → State × Info × Bool → State × List (AllocPayload Info)
  replies p r = (r.0, if r.2 then record p { info = r.1 } ∷ [] else [])

  -- The state after a request, and the answer to its sender, on the port that it names.
  unfoldable pub allocate_by :
      AllocCommand → State → AllocPayload Info → State × List (AllocPayload Info)
  allocate_by alloc_appid s p =
      replies (record p { command = alloc_appid_reply }) (al1.take_appid s p.info)
  allocate_by alloc s p = replies (record p { command = alloc_reply }) (al1.take_regions s p.info)
  allocate_by release s p = replies p (al1.give_back s p.info)
  allocate_by alloc_appid_reply s p = replies p (s, al1.with_error p.info, true)
  allocate_by alloc_reply s p = replies p (s, al1.with_error p.info, true)
  allocate_by other s p = replies p (s, al1.with_error p.info, true)

  unfoldable pub axiom_allocator_l1 : State → AllocPayload Info → State × List (AllocPayload Info)
  unfolding allocate_by
  axiom_allocator_l1 s p = allocate_by p.command s p
