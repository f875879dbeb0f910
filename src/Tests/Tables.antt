-- ===== src/Tests/Tables.antt =====
-- The radix trees.
use libbgp.Prelude.{ℕ, ◌≡◌, refl, List, [], ◌∷◌, false, true, some, arith, replicate}
use libbgp.Prelude.Errors.{ok}
use libbgp.Radix.{Radix, nil, node, node_empty}
use libbgp.Radix.Entries.{count}
use libbgp.Radix.Table.{IsRadix, Inserted, Removed, IsLongestMatch}
use libbgp.Radix4.{
  radix4_insert, radix4_remove, radix4_lookup_lpm, radix4_insert-Inserted, radix4_remove-Removed,
  radix4_lookup-IsLongestMatch,
}
use libbgp.Radix4.Reachable.{Reachable, started, inserted, removed, Reachable-IsRadix}
use libbgp.Radix4.{radix4_init}
use libbgp.Radix6.{radix6_insert, radix6_remove, radix6_lookup_lpm, radix6_table}

-- 128.0.0.0/1 has the value 7, the empty prefix 5.
abbrev table : Radix ℕ
table = record { root = node (some 5) nil (node (some 7) nil nil); len = 2 }

table_valid : IsRadix table
unfolding node_empty count
table_valid = record { pruned = (refl, tt, (refl, tt, tt)); counted = refl }

abbrev address : List ℕ
address = 192 ∷ 168 ∷ 0 ∷ 0 ∷ []

radix4_insert-Inserted_example :
    Inserted table address 16 9 (radix4_insert table address 16 9 (true ∷ false ∷ []))
    × ((radix4_insert table address 16 9 []).0 ≡ ok tt)
radix4_insert-Inserted_example =
    radix4_insert-Inserted table address 16 9 (true ∷ false ∷ []) table_valid (omega arith)

radix4_remove-Removed_example : Removed table address 1 (radix4_remove table address 1)
radix4_remove-Removed_example = radix4_remove-Removed table address 1 table_valid (omega arith)

radix4_lookup-IsLongestMatch_example :
    IsLongestMatch 32 0 table address (radix4_lookup_lpm 0 table address)
radix4_lookup-IsLongestMatch_example = radix4_lookup-IsLongestMatch 0 table address

abbrev address6 : List ℕ
address6 = 128 ∷ replicate 15 0

radix6_table_example :
    Inserted table address6 3 9 (radix6_insert table address6 3 9 (true ∷ false ∷ []))
    × ((radix6_insert table address6 3 9 []).0 ≡ ok tt)
    × Removed table address6 3 (radix6_remove table address6 3)
    × IsLongestMatch 128 0 table address6 (radix6_lookup_lpm 0 table address6)
radix6_table_example =
    radix6_table table address6 3 9 0 (true ∷ false ∷ []) table_valid (omega arith)

-- An insertion that fails on its third node, one that succeeds, and the removal of a prefix that is absent.
abbrev empty : Radix ℕ
empty = radix4_init

abbrev still_empty : Radix ℕ
still_empty = (radix4_insert empty address 16 9 (true ∷ true ∷ false ∷ [])).1

abbrev one_entry : Radix ℕ
one_entry = (radix4_insert still_empty address 2 7 []).1

one_entry_reached : Reachable (radix4_remove one_entry address 3).1
one_entry_reached =
    removed address 3
      (inserted address 2 7 [] (inserted address 16 9 (true ∷ true ∷ false ∷ []) started))

Reachable-IsRadix_example : IsRadix (radix4_remove one_entry address 3).1
Reachable-IsRadix_example = Reachable-IsRadix one_entry_reached
