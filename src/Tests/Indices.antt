-- ===== src/Tests/Indices.antt =====
-- A radix tree with one item and with two.
use cc_rpc.Base.{
  Outcome, ℕ, ◌+◌, ◌*◌, ◌≡◌, refl, arith, Bool, true, false, ◌&&◌, ◌==◌, Option, none, some, done,
  fault, if◌then◌else◌, ◌⊎◌, ◌>>=◌,
}
use cc_rpc.Radix.{
  null, item, branch, RadixRoot, put, radix_tree_init, radix_tree_insert, radix_tree_lookup,
  radix_tree_delete, radix_tree_lookup_upper_bound, radix_tree_root_left, radix_tree_height,
}
use cc_rpc.Radix.Valid.{IsRadix, IsFull, view, find, put-SlotsFull}
use cc_rpc.Radix.Grow.{put-IsSlot, init-IsSlot}
use cc_rpc.Radix.Insert.{radix_tree_insert_lem}
use cc_rpc.Radix.Lookup.{radix_tree_insert_refused}
use cc_rpc.Radix.Nearest.{AtLeast, Wraps, radix_tree_lookup_upper_bound_lem}
use cc_rpc.Radix.Steps.{here, insert, insert_map, Serves, Runs-Serves}

-- The item 7 at 3
abbrev one_item : RadixRoot
one_item = record {
  height = 1;
  count = 1;
  rnode = branch 1 1 (put (λ _. null) 3 (item 7));
  linked = true;
}

one_item-IsRadix : IsRadix one_item
one_item-IsRadix = record {
  shape = put-IsSlot 0 1 0 1 (λ _. null) 3 (item 7) (init-IsSlot 0) (omega arith) tt refl;
  low = omega arith;
  levels = ((λ e. absurd (omega arith)), (λ e. absurd (omega arith)));
  lonely = λ e. absurd (omega arith);
}

one_item-IsFull : IsFull 1 one_item.rnode
one_item-IsFull = (omega arith, put-SlotsFull 0 (λ _. null) 3 (item 7) (λ a l. tt) tt)

one_item-inserted : radix_tree_insert (λ _. true) radix_tree_init 3 7 ≡ done (true, one_item)
unfolding radix_tree_insert
one_item-inserted = refl

Runs-Serves_example : Serves one_item (insert_map (λ _. none) 3 7) 20 8
Runs-Serves_example =
    Runs-Serves 20 8 (insert 3 7 true here (omega arith) one_item-inserted) (omega arith)

radix_tree_insert_lem_example :
    (b : Bool) × (root' : RadixRoot) × (radix_tree_insert (λ _. true) one_item 20 8
      ≡ done (b, root'))
    × IsRadix root'
    × ((p : ℕ) → view root' p ≡ (if b && (p == 20) then some 8 else view one_item p))
    × ((b ≡ false) ⊎ (view one_item 20 ≡ none))
radix_tree_insert_lem_example =
    radix_tree_insert_lem (λ _. true) one_item 20 8 one_item-IsRadix (omega arith) (λ _ _ _. refl)

radix_tree_insert_refused_example :
    (root' : RadixRoot) × (radix_tree_insert (λ _. false) one_item 20 8 ≡ done (false, root'))
    × (radix_tree_lookup root' (16 * 3 + 2) ≡ fault)
unfolding radix_tree_height view find
radix_tree_insert_refused_example =
    radix_tree_insert_refused (λ _. false) one_item 20 8 3 7 2 refl refl (omega arith) refl
      (omega arith)

radix_tree_lookup_upper_bound_lem_example :
    (r : Option ℕ) × AtLeast (view one_item) 9 r
    × Wraps one_item r (radix_tree_lookup_upper_bound one_item 9)
radix_tree_lookup_upper_bound_lem_example =
    radix_tree_lookup_upper_bound_lem one_item 9 one_item-IsRadix one_item-IsFull (omega arith)

-- Behind the last item the search begins again.
bound_wraps : radix_tree_lookup_upper_bound one_item 9 ≡ done (some 7)
unfolding radix_tree_lookup_upper_bound
bound_wraps = refl

-- 19 has the lowest digit of 3.
lookup_aliases : radix_tree_lookup one_item 19 ≡ done (some 7)
unfolding radix_tree_lookup
lookup_aliases = refl

left_of_one : radix_tree_root_left one_item ≡ done (some 7)
unfolding radix_tree_root_left
left_of_one = refl

delete_one : radix_tree_delete one_item 3 ≡ done (some 7, radix_tree_init)
unfolding radix_tree_delete
delete_one = refl

-- Two lookups and two searches
abbrev answers : Bool × RadixRoot → Outcome (Option ℕ × Option ℕ × Option ℕ × Option ℕ)
answers r = radix_tree_lookup r.1 3 >>= λ x. radix_tree_lookup r.1 20 >>= λ y.
    radix_tree_lookup_upper_bound r.1 4 >>= λ z.
    radix_tree_lookup_upper_bound r.1 21 >>= λ w. done (x, y, z, w)

-- A second level, from which both items are found
two_found :
    (radix_tree_insert (λ _. true) one_item 20 8 >>= answers) ≡ done (some 7, some 8, some 8, none)
unfolding radix_tree_insert radix_tree_lookup radix_tree_lookup_upper_bound
two_found = refl
