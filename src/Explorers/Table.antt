-- ===== src/Explorers/Table.antt =====
-- components/KeyTable.tsx: the cells of a row.
use vault_vk.Common.{
  ◌==◌, ◌⊎◌, inl, inr, List, ◌++◌, map, Option, length, get_or_else, if◌then◌else◌,
}
use vault_vk.Text.{Text, codes}
use vault_vk.Requests.Build.{Op, get, set, del, scan}
use vault_vk.Explorers.Page.{ResultRow}

pub record Cells : Type 0 where
  pub op : Text
  pub key : Text
  pub result : Text
  pub latency : Text
  pub status : Text

abbrev pub op_name : Op → Text
op_name get = codes "GET"
op_name set = codes "SET"
op_name del = codes "DEL"
op_name scan = codes "SCAN"

-- `value ?? error ?? "-"`
unfoldable pub result_cell : Option Text → Option Text → Text
result_cell value error = get_or_else value (get_or_else error (codes "-"))

-- `fixed` is `toFixed(1)`.
module _ {N : Type 0} (fixed : N → Text) where
  unfoldable pub cells : ResultRow N → Cells
  cells r = record {
    op = op_name r.op;
    key = r.key;
    result = result_cell r.value r.error;
    latency = fixed r.latency_ms ++ codes "ms";
    status = if r.ok then codes "OK" else codes "ERR";
  }

  -- The rows, or the one that invites to run an operation.
  unfoldable pub table : List (ResultRow N) → List Cells ⊎ Text
  unfolding cells
  table rows =
      if length rows == 0
      then inr (codes "Run an operation to see live results.")
      else inl (map cells rows)
