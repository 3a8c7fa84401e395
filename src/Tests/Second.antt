-- ===== src/Tests/Second.antt =====
-- The second heap with its array at address 0.
use cc_rpc.Base.{
  ◌-◌, ◌^◌, fault, ◌≡◌, refl, arith, true, false, Option, none, some, done, ◌>>=◌, [], ◌∷◌, inl,
}
use cc_rpc.Rbtree.{
  black, RbEntry, leaf, node, insert_ends, rb_insert_node, find_link, rb_insert_color,
  insert_color_loop, rb_first_greater, first_greater_loop,
}
use cc_rpc.Rbtree.Remove.{rb_remove_node, locate, rb_erase, close_gap, rb_erase_color}
use cc_rpc.Rbtree.Order.{to_list}
use cc_rpc.Memalloc.{Xheap, the_xheap, mem_init, mem_malloc, mem_free, wanted}
use cc_rpc.Memalloc.Choice.{IsXheap, Best}
use cc_rpc.Memalloc.Fit.{Answers, mem_malloc-Best}

abbrev whole : RbEntry
whole = record { addr = 1024; value = 10240 }

-- All of it is free.
abbrev fresh : Xheap
fresh = record {
  linked = true;
  ring = record { addr = 1024; size = 10240; used = false } ∷ [];
  all_size = 10240;
  mem_tree = record {
    tree = node black leaf whole leaf;
    first_node = some whole;
    last_node = some whole;
    count = 1;
  };
}

fresh-IsXheap : IsXheap fresh
fresh-IsXheap = record {
  linked = refl;
  tree = record {
    rules = (refl, 1, (refl, refl));
    ordered = omega arith;
    first = refl;
    last = refl;
    counted = refl;
  };
  distinct = (tt, tt);
  word = omega arith;
  backed = (inl refl, tt);
}

mem_malloc-Best_example :
    (r : Option RbEntry) × Best (wanted 100) (to_list fresh.mem_tree.tree) r
    × Answers fresh (wanted 100) r (mem_malloc 1024 fresh 100)
mem_malloc-Best_example = mem_malloc-Best 1024 fresh 100 fresh-IsXheap (omega arith) (omega arith)

init_fresh : mem_init 1024 the_xheap ≡ done fresh
unfolding mem_init rb_insert_node insert_ends rb_insert_color insert_color_loop find_link
init_fresh = refl

-- The size and the header take just the whole of the block, which is free, and there is no memory.
exact_refused : mem_malloc 1024 fresh 10168 ≡ done (none, fresh)
unfolding mem_malloc rb_first_greater first_greater_loop
exact_refused = refl

-- The sum with the header wraps to 0, and the new block would lie over the one that is given out.
wraps : mem_malloc 1024 fresh (2 ^ 64 - 72) ≡ fault
unfolding mem_malloc rb_first_greater first_greater_loop rb_remove_node locate rb_erase close_gap
    rb_erase_color
wraps = refl

-- What is given out is joined with the rest again.
malloc_free : (mem_malloc 1024 the_xheap 100 >>= λ r. mem_free r.1 1096) ≡ done fresh
unfolding mem_malloc mem_free rb_insert_node rb_first_greater insert_ends rb_insert_color
    insert_color_loop find_link first_greater_loop rb_remove_node locate rb_erase close_gap
    rb_erase_color
malloc_free = refl
