-- ===== src/ProofCore/AffectedCells/Order.antt =====
-- The order of the leaves of a set of cells (packages/proof-core/src/affected-cells.ts).
use sonari.Prelude.{
  ℕ, ◌≤◌, ◌≡◌, sym, ap, ◌∙◌, subst, true, false, List, [], ◌∷◌, map, ok, require, if◌then◌else◌,
  traverse, >>=-elim_ok, ok-injective, All,
}
use sonari.Prelude.Sorting.{sort_from, IsSorted, sort_from-IsSorted, All-sort_from}
use sonari.ProofCore.Decimal.{big_int}
use sonari.ProofCore.Leaf.{AffectedCellLeaf}
use sonari.ProofCore.AffectedCells.{
  AffectedCellEntry, AffectedCellsInput, keyed_cell, sort_cells_by_h3_index, leaf_of_cell,
  has_adjacent_duplicate, affected_cell_leaves_from_input,
}

-- The h3 indexes of the leaves ascend.
abbrev pub IsAscendingLeaves : List AffectedCellLeaf → Type 0
IsAscendingLeaves [] = Unit
IsAscendingLeaves (leaf ∷ leaves) =
    All (λ l. leaf.h3_index ≤ l.h3_index) leaves × IsAscendingLeaves leaves

-- A cell with the number of its h3 index.
abbrev IsKeyed : ℕ × AffectedCellEntry → Type 0
IsKeyed (key, cell) = big_int cell.h3_index ≡ ok key

traverse-IsKeyed :
    (cells : List AffectedCellEntry) (keyed : List (ℕ × AffectedCellEntry))
    → traverse keyed_cell cells ≡ ok keyed
    → All IsKeyed keyed
unfolding keyed_cell
traverse-IsKeyed [] keyed e = subst (All IsKeyed) (ok-injective e) tt
traverse-IsKeyed (cell ∷ cells) keyed e = >>=-elim_ok (keyed_cell cell) _ e λ first first_ok e'.
    >>=-elim_ok (traverse keyed_cell cells) _ e' λ rest rest_ok done.
      >>=-elim_ok (big_int cell.h3_index) _ first_ok λ key key_ok made.
        subst (All IsKeyed) (ok-injective done)
          (subst IsKeyed (ok-injective made) key_ok, traverse-IsKeyed cells rest rest_ok)

module _ (input : AffectedCellsInput) where
  leaf_of_cell-key :
      (key : ℕ) (cell : AffectedCellEntry) (leaf : AffectedCellLeaf)
      → big_int cell.h3_index ≡ ok key
      → leaf_of_cell input cell ≡ ok leaf
      → key ≡ leaf.h3_index
  unfolding leaf_of_cell
  leaf_of_cell-key key cell leaf keyed e =
      >>=-elim_ok (big_int cell.h3_index) _ e λ number number_ok made.
        ok-injective (sym keyed ∙ number_ok) ∙ ap (λ l. l.h3_index) (ok-injective made)

  leaves-bound :
      (bound : ℕ) (keyed : List (ℕ × AffectedCellEntry)) (leaves : List AffectedCellLeaf)
      → All IsKeyed keyed
      → All (λ e. bound ≤ e.0) keyed
      → traverse (leaf_of_cell input) (map (λ e. e.1) keyed) ≡ ok leaves
      → All (λ l. bound ≤ l.h3_index) leaves
  leaves-bound bound [] leaves h p e = subst (All (λ l. bound ≤ l.h3_index)) (ok-injective e) tt
  leaves-bound bound ((key, cell) ∷ keyed) leaves (k, h) (le, p) e =
      >>=-elim_ok (leaf_of_cell input cell) _ e λ leaf leaf_ok e'.
        >>=-elim_ok (traverse (leaf_of_cell input) (map (λ c. c.1) keyed)) _ e' λ rest rest_ok done.
          subst (All (λ l. bound ≤ l.h3_index)) (ok-injective done) (
            subst (λ n. bound ≤ n) (leaf_of_cell-key key cell leaf k leaf_ok) le,
            leaves-bound bound keyed rest h p rest_ok,
          )

  leaves-ascending :
      (keyed : List (ℕ × AffectedCellEntry)) (leaves : List AffectedCellLeaf)
      → All IsKeyed keyed
      → IsSorted keyed
      → traverse (leaf_of_cell input) (map (λ e. e.1) keyed) ≡ ok leaves
      → IsAscendingLeaves leaves
  leaves-ascending [] leaves h p e = subst IsAscendingLeaves (ok-injective e) tt
  leaves-ascending ((key, cell) ∷ keyed) leaves (k, h) (le, p) e =
      >>=-elim_ok (leaf_of_cell input cell) _ e λ leaf leaf_ok e'.
        >>=-elim_ok (traverse (leaf_of_cell input) (map (λ c. c.1) keyed)) _ e' λ rest rest_ok done.
          subst IsAscendingLeaves (ok-injective done) (
            subst (λ n. All (λ l. n ≤ l.h3_index) rest) (leaf_of_cell-key key cell leaf k leaf_ok)
                (leaves-bound key keyed rest h le rest_ok),
            leaves-ascending keyed rest h p rest_ok,
          )

-- Where `affectedCellLeavesFromInput` returns, the h3 indexes of the leaves ascend as numbers,
-- whatever the order of the cells.
pub affected_cell_leaves_from_input-ascending :
    (input : AffectedCellsInput) (leaves : List AffectedCellLeaf)
    → affected_cell_leaves_from_input input ≡ ok leaves
    → IsAscendingLeaves leaves
unfolding affected_cell_leaves_from_input sort_cells_by_h3_index
affected_cell_leaves_from_input-ascending input leaves e =
    >>=-elim_ok (sort_cells_by_h3_index input.affected_cells) _ e λ sorted sorted_ok e'.
      >>=-elim_ok (require (if has_adjacent_duplicate sorted then false else true) _) _ e'
        λ unit checked leaves_ok.
          >>=-elim_ok (traverse keyed_cell input.affected_cells) _ sorted_ok λ keyed keyed_ok made.
            leaves-ascending input (sort_from [] keyed) leaves
              (All-sort_from IsKeyed [] keyed tt
                (traverse-IsKeyed input.affected_cells keyed keyed_ok))
              (sort_from-IsSorted [] keyed tt)
              (ap (traverse (leaf_of_cell input)) (ok-injective made) ∙ leaves_ok)
