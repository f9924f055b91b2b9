-- ===== src/Ui/DataTable/View/Loading.antt =====
-- What the data table of app/frontend/components/ui/table/data-table.tsx shows while it loads.
use opanel.Common.{◌≡◌, refl, true, some, arith}
use opanel.Dom.{texts, count, get, spread}
use opanel.Ui.Cn.{ClassLibs}
use opanel.Ui.Part.{part}
use opanel.Ui.Skeleton.{skeleton}
use opanel.Ui.Skeleton.Layout.{create_component_skeleton, skeleton_layout, content}
use opanel.Ui.Skeleton.Rows.{field_rows}
use opanel.Ui.Skeleton.Shapes.{pagination_rows}
use opanel.Ui.Skeleton.Panels.{table_rows}
use opanel.Ui.Skeleton.Layout.Silent.{IsSilent}
use opanel.Ui.Skeleton.Own.{skeleton_data_table}
use opanel.Ui.DataTable.View.{UseTable, DataTableProps, data_table}

-- While it loads, a data table shows no text, nothing that could be operated, and at least one grey
-- block, whatever its rows and columns are.
pub data_table-IsSilent :
    {M C D : Type 0} (L : ClassLibs) (use_table : UseTable M C D) (p : DataTableProps C D)
    → p.loading ≡ some true
    → IsSilent (data_table L use_table p)
unfolding data_table skeleton_data_table texts count get spread create_component_skeleton
    skeleton_layout content field_rows table_rows pagination_rows skeleton part
data_table-IsSilent {M} L use_table p h = rw h (refl, refl, omega arith)
