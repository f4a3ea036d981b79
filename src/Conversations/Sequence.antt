-- ===== src/Conversations/Sequence.antt =====
-- The sequence numbers of a conversation: 1, 2, …, with no gap and none twice.
use parts_bin.Prelude.{
  ℕ, zero, suc, ◌+◌, ◌≡◌, refl, sym, ap, ◌∙◌, ◌⊎◌, inl, inr, List, [], ◌∷◌, ◌++◌, arith, ◌==◌, max,
  length, ==_iff, length-append, subst, if◌then◌else◌, Bool-cases,
}
use mathlib.Core.List.{append-nil}
use parts_bin.Storage.Rows.{Db, EventRow, ConversationEvent, EventId}
use parts_bin.Storage.Tx.{ok}
use parts_bin.Conversations.{
  last_sequence, next_row, create_thread, append, append_once, append_plain, append_keyed,
}

-- The sequence numbers of a conversation, in order of publication.
abbrev pub sequences : ℕ → List EventRow → List ℕ
sequences t [] = []
sequences t (e ∷ es) =
    let rest = sequences t es in if e.thread_id == t then e.sequence ∷ rest else rest

-- 1, …, n
abbrev pub up_to : ℕ → List ℕ
up_to zero = []
up_to (suc n) = up_to n ++ suc n ∷ []

-- Every conversation's events are numbered 1, …, n in order of publication.
abbrev pub IsSequenced : List EventRow → Type 0
IsSequenced rows = (t : ℕ) → sequences t rows ≡ up_to (length (sequences t rows))

abbrev greatest : List ℕ → ℕ
greatest [] = 0
greatest (n ∷ ns) = max n (greatest ns)

last_sequence-eq-greatest :
    (t : ℕ) (rows : List EventRow) → last_sequence t rows ≡ greatest (sequences t rows)
last_sequence-eq-greatest t [] = refl
last_sequence-eq-greatest t (e ∷ es) = ground (arith, last_sequence-eq-greatest t es)

greatest-snoc : (ns : List ℕ) (n : ℕ) → greatest (ns ++ n ∷ []) ≡ max (greatest ns) n
greatest-snoc [] n = omega arith
greatest-snoc (m ∷ ns) n = omega (arith, greatest-snoc ns n)

greatest-up_to : (n : ℕ) → greatest (up_to n) ≡ n
greatest-up_to zero = refl
greatest-up_to (suc n) = omega (arith, greatest-snoc (up_to n) (suc n), greatest-up_to n)

-- In a sequenced table the last number counts the events.
pub last_sequence-eq-length :
    (t : ℕ) (rows : List EventRow)
    → IsSequenced rows
    → last_sequence t rows ≡ length (sequences t rows)
last_sequence-eq-length t rows h =
    last_sequence-eq-greatest t rows
    ∙ ap greatest (h t)
    ∙ greatest-up_to (length (sequences t rows))

pub sequences-snoc :
    (t : ℕ) (rows : List EventRow) (e : EventRow)
    → sequences t (rows ++ e ∷ [])
      ≡ sequences t rows ++ (if e.thread_id == t then e.sequence ∷ [] else [])
sequences-snoc t [] e = ground arith
sequences-snoc t (f ∷ rows) e = ground (arith, sequences-snoc t rows e)

up_to_snoc :
    (ns : List ℕ) → ns ≡ up_to (length ns) → ns ++ suc (length ns) ∷ [] ≡ up_to (suc (length ns))
up_to_snoc ns h = ap (λ (l : List ℕ). l ++ suc (length ns) ∷ []) h

up_to_next :
    (ns : List ℕ) (n : ℕ)
    → ns ≡ up_to (length ns)
    → n ≡ suc (length ns)
    → ns ++ n ∷ [] ≡ up_to (length (ns ++ n ∷ []))
up_to_next ns n h p =
    ap (λ (m : ℕ). ns ++ m ∷ []) p
    ∙ up_to_snoc ns h
    ∙ ap up_to {x = suc (length ns)} {y = length (ns ++ n ∷ [])}
        (omega (arith, length-append ns (n ∷ [])))

sequences_next :
    (t : ℕ) (rows : List EventRow) (e : EventRow)
    → IsSequenced rows
    → e.sequence ≡ last_sequence e.thread_id rows + 1
    → e.thread_id ≡ t
    → e.sequence ≡ suc (length (sequences t rows))
sequences_next t rows e h p q =
    omega (arith, last_sequence-eq-length t rows h, ap (λ (i : ℕ). last_sequence i rows) q)

-- A row with the next number of its conversation keeps the numbering of all.
pub snoc-IsSequenced :
    (rows : List EventRow) (e : EventRow)
    → IsSequenced rows
    → e.sequence ≡ last_sequence e.thread_id rows + 1
    → IsSequenced (rows ++ e ∷ [])
snoc-IsSequenced rows e h p t = elim (Bool-cases (e.thread_id == t)) [
  | inl same ↦
      rw (sequences-snoc, same)
        (up_to_next (sequences t rows) e.sequence (h t)
          (sequences_next t rows e h p ((==_iff e.thread_id t).0 same)))
  | inr other ↦ rw (sequences-snoc, other) (rw append-nil (h t))
]

abbrev Grows : ConversationEvent → Db → Db → Type 0
Grows event db db' = (db'.events ≡ db.events) ⊎ (db'.events ≡ db.events ++ next_row event db ∷ [])

Grows-append_once :
    (event : ConversationEvent) (i : EventId) (db : Db) {r : ConversationEvent} {db' : Db}
    → append_once event i db ≡ ok (r, db')
    → Grows event db db'
unfolding append_once append_keyed create_thread
Grows-append_once event i db e = ground arith

Grows-append :
    (event : ConversationEvent) (db : Db) {r : ConversationEvent} {db' : Db}
    → append event db ≡ ok (r, db')
    → Grows event db db'
unfolding append append_plain create_thread
Grows-append event db e = ground arith

Grows-IsSequenced :
    (event : ConversationEvent) (db db' : Db)
    → IsSequenced db.events
    → Grows event db db'
    → IsSequenced db'.events
Grows-IsSequenced event db db' h (inl same) = subst IsSequenced (sym same) h
Grows-IsSequenced event db db' h (inr more) =
    subst IsSequenced (sym more) (snoc-IsSequenced db.events (next_row event db) h refl)

-- A publication that succeeds, of a new event or of one that was published before, keeps the
-- events of every conversation numbered 1, …, n in order.
pub append_once-IsSequenced :
    (event : ConversationEvent) (i : EventId) (db : Db) {r : ConversationEvent} {db' : Db}
    → IsSequenced db.events
    → append_once event i db ≡ ok (r, db')
    → IsSequenced db'.events
append_once-IsSequenced event i db {db' = db'} h e =
    Grows-IsSequenced event db db' h (Grows-append_once event i db e)

-- An event that is appended without an identity keeps that numbering too.
pub append-IsSequenced :
    (event : ConversationEvent) (db : Db) {r : ConversationEvent} {db' : Db}
    → IsSequenced db.events
    → append event db ≡ ok (r, db')
    → IsSequenced db'.events
append-IsSequenced event db {db' = db'} h e =
    Grows-IsSequenced event db db' h (Grows-append event db e)
