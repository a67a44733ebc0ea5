-- ===== src/Explorers/Rows.antt =====
-- What the table shows of a call that is over.
use vault_vk.Common.{◌≡◌, refl, Bool, false, if◌then◌else◌}
use vault_vk.Text.{Text, codes}
use vault_vk.Requests.Build.{Op}
use vault_vk.Explorers.Page.{Call, Clock, Outcome, failed, replied, row_of, value_text}
use vault_vk.Explorers.Table.{cells, result_cell}

module _ {N : Type 0} where
  -- What a call came to, as text, and whether it was well.
  abbrev pub came_to : Op → Outcome N → Text
  came_to op (failed message) = message
  came_to op (replied ok d) = value_text op d

  abbrev pub went_well : Outcome N → Bool
  went_well (failed message) = false
  went_well (replied ok d) = ok

  -- The table shows of a call what it came to, for a reply the text of its value whether it is ok or
  -- not and for an exception its message, and `OK` exactly for a reply that is ok. So the error text
  -- of a reply that is not ok, which the row has, is not shown.
  pub cells-row_of :
      (fixed : N → Text) (c : Call) (clock : Clock N) (o : Outcome N)
      → ((cells fixed (row_of c clock o)).result ≡ came_to c.op o)
        × ((cells fixed (row_of c clock o)).status
            ≡ (if went_well o then codes "OK" else codes "ERR"))
  unfolding cells row_of result_cell
  cells-row_of fixed c clock (failed message) = (refl, refl)
  cells-row_of fixed c clock (replied ok d) = (refl, refl)
