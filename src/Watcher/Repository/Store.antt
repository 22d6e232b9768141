-- ===== src/Watcher/Repository/Store.antt =====
-- Reading a row after a write, and what `update_if` leaves alone.
use text.Mathlib.Text.{◌==◌ as str_eq}
use text.Mathlib.TextEquality.{eq_iff}
use text.Mathlib.TextPositions.{eq_refl}
use sonari.Prelude.{
  none, ◌≡◌, ◌⊎◌, inl, inr, refl, Bool, true, false, some, String, [], ◌∷◌, if◌then◌else◌, All,
  arith, Bool-cases, Option-cases, subst, ◌∙◌, some-cancel,
}
use sonari.Watcher.Types.{EarthquakeEventRow}
use sonari.Watcher.Repository.{Rows, Repository, get_row, set_row, update_if}

pub get_row-set_row :
    (k j : String) (row : EarthquakeEventRow) (rows : Rows)
    → get_row j (set_row k row rows) ≡ (if str_eq k j then some row else get_row j rows)
unfolding get_row set_row
get_row-set_row k j row [] = refl
get_row-set_row k j row ((i, old) ∷ rows) =
    ground (arith, eq_iff k j, eq_iff i k, eq_iff i j, get_row-set_row k j row rows)

pub get_row-set_row_self :
    (k : String) (row : EarthquakeEventRow) (rows : Rows)
    → get_row k (set_row k row rows) ≡ some row
get_row-set_row_self k row rows = simp (get_row-set_row, eq_refl)

get_row_here :
    (i k : String) (row : EarthquakeEventRow) (rows : Rows)
    → str_eq i k ≡ true
    → some row ≡ get_row k ((i, row) ∷ rows)
unfolding get_row
get_row_here i k row rows here = rw here

-- An update refuses and changes nothing, or finds a row that passes and writes the changed row.
pub update_if-cases :
    (repo : Repository) (k : String) (guard : EarthquakeEventRow → Bool)
    (change : EarthquakeEventRow → EarthquakeEventRow)
    → (update_if repo k guard change ≡ (repo, false))
      ⊎ ((row : EarthquakeEventRow) × (get_row k repo.rows ≡ some row)
          × (guard row ≡ true)
          × (update_if repo k guard change
              ≡ (record repo { rows = set_row k (change row) repo.rows }, true)))
unfolding update_if
update_if-cases repo k guard change = elim (Option-cases (get_row k repo.rows)) [
  | inl missing ↦ inl (ground arith)
  | inr (row, found) ↦ elim (Bool-cases (guard row)) [
    | inl passes ↦ inr (row, found, passes, ground arith)
    | inr fails ↦ inl (ground arith)
  ]
]

pub update_if-missing :
    (repo : Repository) (k : String) (guard : EarthquakeEventRow → Bool)
    (change : EarthquakeEventRow → EarthquakeEventRow)
    → get_row k repo.rows ≡ none
    → update_if repo k guard change ≡ (repo, false)
unfolding update_if
update_if-missing repo k guard change missing = ground arith

pub update_if-written :
    (repo : Repository) (k : String) (guard : EarthquakeEventRow → Bool)
    (change : EarthquakeEventRow → EarthquakeEventRow) (row : EarthquakeEventRow)
    → get_row k repo.rows ≡ some row
    → guard row ≡ true
    → update_if repo k guard change
      ≡ (record repo { rows = set_row k (change row) repo.rows }, true)
unfolding update_if
update_if-written repo k guard change row found passes = ground arith

-- What a test that refuses the stored row makes of an update.
pub update_if-refused :
    (repo : Repository) (k : String) (guard : EarthquakeEventRow → Bool)
    (change : EarthquakeEventRow → EarthquakeEventRow) (row : EarthquakeEventRow)
    → get_row k repo.rows ≡ some row
    → guard row ≡ false
    → update_if repo k guard change ≡ (repo, false)
unfolding update_if
update_if-refused repo k guard change row found refused = ground arith

-- What holds of every row of a table.
abbrev pub AllRows : (EarthquakeEventRow → Type 0) → Rows → Type 0
AllRows P rows = All (λ e. P e.1) rows

module _ (P : EarthquakeEventRow → Type 0) where
  pub AllRows-get_row :
      (k : String) (rows : Rows) {row : EarthquakeEventRow}
      → AllRows P rows
      → get_row k rows ≡ some row
      → P row
  unfolding get_row
  AllRows-get_row k [] h e = absurd (cc)
  AllRows-get_row k ((i, old) ∷ rows) (p, h) e = elim (Bool-cases (str_eq i k)) [
    | inl here ↦ subst P (some-cancel (get_row_here i k old rows here ∙ e)) p
    | inr later ↦ AllRows-get_row k rows h (ground arith)
  ]

  pub AllRows-set_row :
      (k : String) (row : EarthquakeEventRow) (rows : Rows)
      → P row
      → AllRows P rows
      → AllRows P (set_row k row rows)
  unfolding set_row
  AllRows-set_row k row [] p h = (p, tt)
  AllRows-set_row k row ((i, old) ∷ rows) p (q, h) = elim (Bool-cases (str_eq i k)) [
    | inl here ↦ rw here (p, h)
    | inr later ↦ rw later (q, AllRows-set_row k row rows p h)
  ]

  -- An update keeps what its change keeps on rows that pass the guard.
  pub AllRows-update_if :
      (repo : Repository) (k : String) (guard : EarthquakeEventRow → Bool)
      (change : EarthquakeEventRow → EarthquakeEventRow)
      → ((row : EarthquakeEventRow) → P row → guard row ≡ true → P (change row))
      → AllRows P repo.rows
      → AllRows P (update_if repo k guard change).0.rows
  AllRows-update_if repo k guard change keep h = elim (update_if-cases repo k guard change) [
    | inl same ↦ rw same h
    | inr (row, found, passes, changed) ↦ rw changed (
        AllRows-set_row k (change row) repo.rows
          (keep row (AllRows-get_row k repo.rows h found) passes) h)
  ]
