-- ===== src/Conversations/Tests.antt =====
-- Tests of conversations, and their theorems at concrete inputs.
use parts_bin.Prelude.{◌≡◌, refl, some}
use parts_bin.Storage.Rows.{Db, ConversationEvent, named}
use parts_bin.Storage.Tx.{ok}
use parts_bin.Conversations.{
  append, append_once, append_plain, append_keyed, create_thread, append_row, append_key, next_row,
}
use parts_bin.Samples.{running, event}

-- The database after the sample event was published under identity 8.
abbrev published_db : Db
published_db = append_key (named 8) (next_row event running) (append_row event running)

abbrev result : ConversationEvent
result = record event { sequence = some 1 }

published_once : append_once event (named 8) running ≡ ok (result, published_db)
unfolding append_once append_keyed create_thread
published_once = refl

appended : append event running ≡ ok (result, append_row event running)
unfolding append append_plain create_thread
appended = refl
