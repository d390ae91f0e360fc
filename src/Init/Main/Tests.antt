-- ===== src/Init/Main/Tests.antt =====
-- Starts of the daemon.
use axiom_evi_apps.Prelude.{◌≡◌, refl, true, [], ◌∷◌, none, some, All}
use axiom_evi_apps.Init.Replies.{ping, session_req, pong_handler, session_handler, handler}
use axiom_evi_apps.Init.Main.{
  be_master, routing, save, Sockets, interrupted, select_error, over_socket, from_nic, served,
  discover, load, store, init_main, parsed_main, init_options, boot, open_sockets, main_loop, serve,
}
use axiom_evi_apps.Init.Main.Saving.{WritesTo, last_routing, init_main-WritesTo}

abbrev all_well : Sockets
all_well = record { socket = true; bound = true; chmod = true; fds = true }

-- The name of `-s` is not used: a master without `-r` writes to the name in an unset buffer.
saved_nowhere :
    init_main (be_master ∷ save (b's' ∷ []) ∷ []) true true true all_well (select_error ∷ [])
    ≡ (discover ∷ store none ∷ [], served [] true)
unfolding init_main parsed_main init_options serve boot open_sockets main_loop
saved_nowhere = refl

-- With `-r` the file that was loaded is written over.
overwritten :
    init_main
      (routing (b'r' ∷ []) ∷ save (b's' ∷ []) ∷ [])
      true
      true
      true
      all_well
      (select_error ∷ [])
    ≡ (load (b'r' ∷ []) ∷ store (some (b'r' ∷ [])) ∷ [], served [] true)
unfolding init_main parsed_main init_options serve boot open_sockets main_loop
overwritten = refl

-- A message of the socket has no sender.
no_sender :
    (main_loop (
      interrupted
      ∷ over_socket (some session_req)
      ∷ from_nic (some (4, ping))
      ∷ from_nic none
      ∷ []))
    ≡ (
      record { by = session_handler; src = none } ∷ record { by = pong_handler; src = some 4 } ∷ [],
      true,
    )
unfolding main_loop handler
no_sender = refl

init_main-WritesTo_example :
    All
      (WritesTo (some (b'r' ∷ [])))
      (init_main
        (routing (b'r' ∷ []) ∷ save (b's' ∷ []) ∷ [])
        true
        true
        true
        all_well
        (interrupted ∷ [])).0
unfolding last_routing
init_main-WritesTo_example =
    init_main-WritesTo (routing (b'r' ∷ []) ∷ save (b's' ∷ []) ∷ []) true true true all_well
      (interrupted ∷ [])
