-- ===== src/LocalMap/Tests.antt =====
-- Local maps on concrete keys, and their theorems at them.
use p2p_cluster.Common.{ℕ, ◌≡◌, refl, none, some, List, [], ◌∷◌, arith}
use p2p_cluster.Common.Memory.{update}
use p2p_cluster.LocalMap.{
  Slot, LmMap, lm_map_init, lm_map_put, lm_map_get, lm_map_del, get_main, get_extra, put_main,
  put_placed, behind, del_found, del_in, del_main, is_some,
}
use p2p_cluster.LocalMap.Laws.{IsMap}
use p2p_cluster.LocalMap.History.{History, Held, started, put, del, Agrees, History-Agrees}
use p2p_cluster.LocalMap.{lm_map_foreach}
use p2p_cluster.LocalMap.Entries.{In}
use p2p_cluster.LocalMap.Visits.{keep, lm_map_foreach_lem}
use p2p_cluster.LocalMap.Defects.{
  IsFull, full_nil, full_cons, others_nil, others_cons, Ignored, lm_map_put-Ignored,
}

abbrev slot : ℕ → ℕ → Slot
slot k v = record { key = k; value = v }

abbrev slots : List Slot → List Slot → LmMap
slots main extra = update lm_map_init 0 (record { main = main; extra = extra })

abbrev nothing : Slot
nothing = slot 0 0

-- The bucket 0 after 8, 16, 24 and 32 are put, and after 16 is deleted again
abbrev four : LmMap
four = slots (slot 8 1 ∷ slot 16 2 ∷ slot 24 3 ∷ []) (slot 32 4 ∷ [])

IsFull-main : IsFull (four 0).main
IsFull-main = full_cons refl (full_cons refl (full_cons refl full_nil))

lm_map_put-Ignored_example : Ignored 32 4 (lm_map_put four 32 5)
unfolding get_extra
lm_map_put-Ignored_example =
    lm_map_put-Ignored four 32 5 4 (omega arith) (omega arith) IsFull-main
      (others_cons (omega arith) (others_cons (omega arith) (others_cons (omega arith) others_nil)))
      (full_cons refl full_nil) refl

abbrev put_one : LmMap → ℕ → List Slot → List Slot → LmMap
put_one map i main extra = update map i (record { main = main; extra = extra })

-- The maps after each call
abbrev one : LmMap
one = put_one lm_map_init 3 (slot 3 7 ∷ nothing ∷ nothing ∷ []) []

abbrev two : LmMap
two = put_one one 3 (slot 3 7 ∷ slot 11 9 ∷ nothing ∷ []) []

abbrev one_again : LmMap
one_again = put_one two 3 (nothing ∷ slot 11 9 ∷ nothing ∷ []) []

put_3 : lm_map_put lm_map_init 3 7 ≡ some one
unfolding lm_map_put put_placed put_main behind lm_map_init
put_3 = refl

put_11 : lm_map_put one 11 9 ≡ some two
unfolding lm_map_put put_placed put_main behind lm_map_init
put_11 = refl

del_3 : lm_map_del two 3 ≡ some (7, one_again)
unfolding lm_map_del del_found lm_map_get get_main get_extra del_in del_main is_some lm_map_init
del_3 = refl

calls : History two (update (update (λ key. none) 3 (some 7)) 11 (some 9))
calls =
    put 11 9 (put 3 7 started (omega arith) (omega arith) refl put_3) (omega arith) (omega arith)
      refl put_11

History-Agrees_example :
    Agrees one_again (update (update (update (λ key. none) 3 (some 7)) 11 (some 9)) 3 none)
History-Agrees_example = History-Agrees (del 3 7 7 calls refl del_3)

valid_two : IsMap two
valid_two = (History-Agrees calls).valid

valid_init : IsMap lm_map_init
valid_init = (History-Agrees started).valid

unknown : lm_map_get lm_map_init 3 ≡ none
unfolding lm_map_get get_main get_extra lm_map_init
unknown = refl

known : lm_map_get two 3 ≡ some 7
unfolding lm_map_get get_main get_extra lm_map_init
known = refl

abbrev held_two : Held
held_two = update (update (λ key. none) 3 (some 7)) 11 (some 9)

lm_map_foreach_lem_example :
    (In (record { key = 11; value = 9 }) (lm_map_foreach keep two []).1 → held_two 11 ≡ some 9)
    × (held_two 11 ≡ some 9 → In (record { key = 11; value = 9 }) (lm_map_foreach keep two []).1)
lm_map_foreach_lem_example = lm_map_foreach_lem calls 11 9
