-- ===== src/Admin/Export.antt =====
-- The audit log's export can be read back.
use stprivy.Common.{◌≡◌, refl, ap, ◌∙◌, List, [], ◌∷◌, map, arith}
use stprivy.Common.Lists.{All}
use stprivy.Common.Separated.{join, split, HasNone, split-join, join-HasNone}
use stprivy.Admin.{AuditLog, header, cells, rows, export_csv}

header_plain : All (HasNone ",") header × All (HasNone "\n") header
header_plain = ground arith

lines_plain :
    (logs : List AuditLog)
    → All (λ l. All (HasNone "\n") (cells l)) logs
    → All (HasNone "\n") (map (join ",") (map cells logs))
lines_plain [] h = tt
lines_plain (l ∷ logs) (h, hs) =
    (join-HasNone "\n" "," (cells l) (ground arith) h, lines_plain logs hs)

rows_split :
    (logs : List AuditLog)
    → All (λ l. All (HasNone ",") (cells l)) logs
    → map (split ",") (map (join ",") (map cells logs)) ≡ map cells logs
rows_split [] h = refl
rows_split (l ∷ logs) (h, hs) = rw (split-join "," l.id _ h, rows_split logs hs) refl

-- Where no cell has a comma or a line break in it, the exported text splits at its line breaks, and
-- each line at its commas, into the header and the entries' cells, in their order.
pub export_csv-split :
    (logs : List AuditLog)
    → All (λ l. All (HasNone ",") (cells l)) logs
    → All (λ l. All (HasNone "\n") (cells l)) logs
    → map (split ",") (split "\n" (export_csv logs)) ≡ rows logs
unfolding export_csv
export_csv-split logs commas lines =
    ap (map (split ",")) (
      split-join "\n" (join "," header) (map (join ",") (map cells logs))
        (join-HasNone "\n" "," header (ground arith) header_plain.1, lines_plain logs lines))
    ∙ rw (split-join "," "ID" _ header_plain.0, rows_split logs commas) refl
