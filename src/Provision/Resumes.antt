-- ===== src/Provision/Resumes.antt =====
-- After the panel has started again no operation is pending or running.
use skifity.Prelude.{nat_eq, ◌==◌, any, All, ◌≡◌, true, false, List}
use skifity.Prelude.Text.{Text, text_eq}
use skifity.Provision.Plan.{OperationRow, is_finished}

-- A row that is not over is of one of the operations.
abbrev pub Remains : List OperationRow → List OperationRow → Type 0
Remains left rows =
    All (λ o. is_finished o.status ≡ false → any (λ q. o.id == q.id) left ≡ true) rows
