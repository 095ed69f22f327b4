-- ===== src/Lru/Tests.antt =====
-- The list of pages of src/mm-vm.c at concrete inputs.
use os_sim.Base.{◌≡◌, ◌≢◌, refl, ◌⊎◌, none, List, [], ◌∷◌, ok, fault, arith, minus_one}
use os_sim.Pte.{pte_fpn}
use os_sim.Lru.{
  Lru, Victim, update, load, set_next, set_pre, append_tail, to_tail, find_reference,
  update_lru_lst, add_lru_page, find_lru_victim_page,
}
use os_sim.Lru.Chain.{Entry, node}
use os_sim.Lru.Move.{IsLru}
use os_sim.Lru.Spec.{promote, insert}
use os_sim.Lru.Ops.{update_lru_lst_lem, add_lru_page_lem, find_lru_victim_page_lem}

-- Page 0 in frame 4, used last, and page 1 in frame 5.
abbrev page_0 : Entry
page_0 = record { ptr = 10; pte = 100; fpn = 4; pgn = 0 }

abbrev page_1 : Entry
page_1 = record { ptr = 20; pte = 104; fpn = 5; pgn = 1 }

abbrev two_pages : Lru
two_pages = record {
  cell = update (update (λ _. none) 10 (node 20 0 page_0)) 20 (node 0 10 page_1);
  lru_head = 10;
  lru_tail = 20;
}

two_pages-IsLru : IsLru two_pages (page_0 ∷ page_1 ∷ [])
two_pages-IsLru = record {
  head = refl;
  tail = refl;
  chain = (omega arith, refl, (omega arith, refl, tt));
  distinct = ((omega arith, tt), (tt, tt));
}

-- The page that becomes the victim is the one that was not used.
victim_after_use :
    (s1 s2 : Lru) × (update_lru_lst 5 4 two_pages ≡ ok s1)
    × (find_lru_victim_page (record { status = 9; pgn = 9; fpn = 9; pte = 9 }) s1
        ≡ ok (record { status = 0; pgn = 1; fpn = 5; pte = 104 }, s2))
unfolding update_lru_lst find_lru_victim_page find_reference load pte_fpn to_tail set_pre
    append_tail set_next
victim_after_use = (_, _, refl, refl)

update_lru_lst_lem_example :
    ((◌≡◌ {A = List Entry} (page_0 ∷ page_1 ∷ []) []) × (update_lru_lst 5 4 two_pages ≡ fault))
    ⊎ ((◌≢◌ {A = List Entry} (page_0 ∷ page_1 ∷ []) [])
        × ((s' : Lru) × (update_lru_lst 5 4 two_pages ≡ ok s')
            × IsLru s' (promote (pte_fpn 4) (page_0 ∷ page_1 ∷ []))))
update_lru_lst_lem_example =
    update_lru_lst_lem 5 4 two_pages (page_0 ∷ page_1 ∷ []) two_pages-IsLru (omega arith)

add_lru_page_lem_example :
    (s' : Lru) × (add_lru_page 5 30 77 108 6 2 two_pages ≡ ok s')
    × IsLru s'
        (insert (record { ptr = 30; pte = 108; fpn = pte_fpn 6; pgn = 2 }) (page_0 ∷ page_1 ∷ []))
add_lru_page_lem_example =
    add_lru_page_lem 5 30 77 108 6 2 two_pages (page_0 ∷ page_1 ∷ []) two_pages-IsLru (omega arith)
      (omega arith) (omega arith, (omega arith, tt))

abbrev nothing_found : Victim
nothing_found = record { status = 9; pgn = 9; fpn = 9; pte = 9 }

find_lru_victim_page_lem_example :
    ((◌≡◌ {A = List Entry} (page_0 ∷ page_1 ∷ []) [])
      × (find_lru_victim_page nothing_found two_pages
          ≡ ok (record nothing_found { status = minus_one }, two_pages)))
    ⊎ ((x : Entry) × (rest : List Entry) × (s' : Lru) × (page_0 ∷ page_1 ∷ [] ≡ x ∷ rest)
        × (find_lru_victim_page nothing_found two_pages
            ≡ ok (record { status = 0; pgn = x.pgn; fpn = x.fpn; pte = x.pte }, s'))
        × IsLru s' rest)
find_lru_victim_page_lem_example =
    find_lru_victim_page_lem nothing_found two_pages (page_0 ∷ page_1 ∷ []) two_pages-IsLru
