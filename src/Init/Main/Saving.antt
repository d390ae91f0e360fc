-- ===== src/Init/Main/Saving.antt =====
-- Which file the routing table is saved in.
use axiom_evi_apps.Prelude.{
  ℕ, ◌≡◌, refl, Bool, true, false, List, [], ◌∷◌, Option, none, some, Option-cases, Bool-cases, inl,
  inr, All,
}
use mathlib.Core.Path.{subst}
use axiom_evi_apps.Init.Main.{
  InitOption, be_master, verbose, version, help, sched, nodeid, routing, save, InitArgs, no_args,
  InitParsed, exits, goes_on, file_name, init_options, Boot, set_node, discover, load, store, boot,
  Sockets, Round, open_sockets, serve, parsed_main, init_main,
}

-- The file name of the last `-r`.
unfoldable pub last_routing : List InitOption → Option (List ℕ) → Option (List ℕ)
last_routing [] f = f
last_routing (routing g ∷ os) f = last_routing os (some (file_name g))
last_routing (be_master ∷ os) f = last_routing os f
last_routing (verbose ∷ os) f = last_routing os f
last_routing (version ∷ os) f = last_routing os f
last_routing (help ∷ os) f = last_routing os f
last_routing (sched b ∷ os) f = last_routing os f
last_routing (nodeid n ∷ os) f = last_routing os f
last_routing (save g ∷ os) f = last_routing os f

-- If the step writes a table, then to this file.
abbrev pub WritesTo : Option (List ℕ) → Boot → Type 0
WritesTo f (store g) = g ≡ f
WritesTo f (set_node n) = Unit {0}
WritesTo f discover = Unit {0}
WritesTo f (load g) = Unit {0}

abbrev KeepsRouting : Option (List ℕ) → InitParsed → Type 0
KeepsRouting f (exits code) = Unit {0}
KeepsRouting f (goes_on a) = a.rt_filename ≡ f

init_options-KeepsRouting :
    (os : List InitOption) (a : InitArgs)
    → KeepsRouting (last_routing os a.rt_filename) (init_options os a)
unfolding init_options last_routing
init_options-KeepsRouting [] a = refl
init_options-KeepsRouting (be_master ∷ os) a =
    init_options-KeepsRouting os (record a { master = true })
init_options-KeepsRouting (verbose ∷ os) a = init_options-KeepsRouting os a
init_options-KeepsRouting (version ∷ os) a = tt
init_options-KeepsRouting (help ∷ os) a = tt
init_options-KeepsRouting (sched true ∷ os) a = init_options-KeepsRouting os a
init_options-KeepsRouting (sched false ∷ os) a = tt
init_options-KeepsRouting (nodeid none ∷ os) a = tt
init_options-KeepsRouting (nodeid (some n) ∷ os) a =
    init_options-KeepsRouting os (record a { set_nodeid = some n })
init_options-KeepsRouting (routing f ∷ os) a =
    init_options-KeepsRouting os (record a { rt_filename = some (file_name f) })
init_options-KeepsRouting (save f ∷ os) a =
    init_options-KeepsRouting os (record a { rt_save_filename = some (file_name f) })

boot-WritesTo :
    (master : Bool) (number : Option ℕ) (rt rt_save : Option (List ℕ)) (loads stores : Bool)
    → All
        (WritesTo rt)
        (boot
          (record {
            master = master;
            set_nodeid = number;
            rt_filename = rt;
            rt_save_filename = rt_save;
          })
          loads
          stores).0
unfolding boot
boot-WritesTo true none rt none loads stores = (tt, tt)
boot-WritesTo true none rt (some f) loads stores = (tt, (refl, tt))
boot-WritesTo true (some n) rt none loads stores = (tt, (tt, tt))
boot-WritesTo true (some n) rt (some f) loads stores = (tt, (tt, (refl, tt)))
boot-WritesTo false none none s loads stores = tt
boot-WritesTo false (some n) none s loads stores = (tt, tt)
boot-WritesTo false none (some f) none true stores = (tt, tt)
boot-WritesTo false none (some f) s false stores = (tt, tt)
boot-WritesTo false none (some f) (some g) true stores = (tt, (refl, tt))
boot-WritesTo false (some n) (some f) none true stores = (tt, (tt, tt))
boot-WritesTo false (some n) (some f) s false stores = (tt, (tt, tt))
boot-WritesTo false (some n) (some f) (some g) true stores = (tt, (tt, (refl, tt)))

serve-WritesTo :
    (a : InitArgs) (ready loads stores : Bool) (sockets : Sockets) (rounds : List Round)
    → All (WritesTo a.rt_filename) (serve a ready loads stores sockets rounds).0
unfolding serve
serve-WritesTo a false loads stores sockets rounds = tt
serve-WritesTo a true loads stores sockets rounds =
    let steps = boot-WritesTo a.master a.set_nodeid a.rt_filename a.rt_save_filename loads stores in
    elim (Bool-cases (boot a loads stores).1) [
      | inr stops ↦ rw (serve, stops) steps
      | inl goes ↦ elim (Option-cases (open_sockets sockets)) [
        | inl opened ↦ rw (serve, goes, opened) steps
        | inr (undo, fails) ↦ rw (serve, goes, fails) steps
      ]
    ]

main-WritesTo :
    (f : Option (List ℕ)) (p : InitParsed) (ready loads stores : Bool) (sockets : Sockets)
    (rounds : List Round)
    → KeepsRouting f p
    → All (WritesTo f) (parsed_main p ready loads stores sockets rounds).0
unfolding parsed_main
main-WritesTo f (exits code) ready loads stores sockets rounds same = tt
main-WritesTo f (goes_on a) ready loads stores sockets rounds same =
    subst (λ g. All (WritesTo g) (serve a ready loads stores sockets rounds).0) same
      (serve-WritesTo a ready loads stores sockets rounds)

-- Whatever the options and the results of the calls are: every file that the start writes the routing
-- table to is the one of the last `-r`, or has no name where there is none. The help text says
-- that it is saved to the file of `-s`; the name given there plays no part.
pub init_main-WritesTo :
    (os : List InitOption) (ready loads stores : Bool) (sockets : Sockets) (rounds : List Round)
    → All (WritesTo (last_routing os none)) (init_main os ready loads stores sockets rounds).0
unfolding init_main
init_main-WritesTo os ready loads stores sockets rounds =
    main-WritesTo (last_routing os none) (init_options os no_args) ready loads stores sockets rounds
      (init_options-KeepsRouting os no_args)
