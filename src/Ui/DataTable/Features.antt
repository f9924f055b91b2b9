-- ===== src/Ui/DataTable/Features.antt =====
-- app/frontend/components/ui/table/data-table-features.ts: what is given to the package's
-- `tableFeatures`. What the package exports stands under its name.
use opanel.Common.{String, List, [], ◌∷◌}

-- An export of the package, or the answer of one that is called without arguments.
pub data Export : Type 0 where
  exported : String → Export
  made_by : String → Export

-- The argument of `tableFeatures`: the members other than the tables of functions, each with its key.
pub record FeatureOptions : Type 0 where
  pub members : List (String × Export)
  pub filter_fns : List (String × Export)
  pub sort_fns : List (String × Export)

unfoldable pub data_table_features : FeatureOptions
data_table_features = record {
  members =
      ("columnFilteringFeature", exported "columnFilteringFeature")
      ∷ ("columnVisibilityFeature", exported "columnVisibilityFeature")
      ∷ ("rowPaginationFeature", exported "rowPaginationFeature")
      ∷ ("rowSelectionFeature", exported "rowSelectionFeature")
      ∷ ("rowSortingFeature", exported "rowSortingFeature")
      ∷ ("filteredRowModel", made_by "createFilteredRowModel")
      ∷ ("paginatedRowModel", made_by "createPaginatedRowModel")
      ∷ ("sortedRowModel", made_by "createSortedRowModel")
      ∷ [];
  filter_fns = ("includesString", exported "filterFn_includesString") ∷ [];
  sort_fns =
      ("alphanumeric", exported "sortFn_alphanumeric") ∷ ("text", exported "sortFn_text") ∷ [];
}
