-- ===== src/Intake/Tests.antt =====
-- Tests of intake, and its theorems at concrete inputs.
use parts_bin.Prelude.{◌≡◌, refl, none, some, []}
use parts_bin.Storage.Rows.{Db}
use parts_bin.Storage.Tx.{ok}
use parts_bin.Executions.{prepare, stored, ready_row, insert_execution}
use parts_bin.Intake.{accept, enroll, all_blocked, blocked_deliveries}
use parts_bin.Intake.Acceptance.{accept_again}
use parts_bin.Samples.{empty, context, now}

abbrev accepted_db : Db
accepted_db = enroll 6 none now now (insert_execution 6 (ready_row 1 context none 0) empty)

accepted :
    accept 1 6 context none now now empty ≡ ok (stored 6 (ready_row 1 context none 0), accepted_db)
unfolding accept prepare
accepted = refl

accept_again_example :
    accept 1 6 context (some 3) 0 0 accepted_db
    ≡ ok (stored 6 (ready_row 1 context none 0), accepted_db)
accept_again_example = accept_again 1 6 context none (some 3) now now 0 0 empty accepted

nothing_blocked : blocked_deliveries accepted_db ≡ []
unfolding blocked_deliveries all_blocked
nothing_blocked = refl
