-- ===== src/Inventory/Tests.antt =====
-- Stock operations on two parts.
use parts_bin.Prelude.{◌≡◌, refl, none, some, List, [], ◌∷◌, pos}
use parts_bin.Storage.Parts.{PartRow, PartFields, passive}
use parts_bin.Storage.Rows.{Db}
use parts_bin.Storage.Tx.{ok, err, domain_error, part_not_found, conflict}
use parts_bin.Samples.{running}
use parts_bin.Inventory.{insert_part, increment_stock, passive_identity}
use parts_bin.Inventory.Stock.{get_part, add_stock, adjust_stock, add_stock_batch}
use parts_bin.Inventory.Quantities.{restocked}
use parts_bin.Inventory.Counts.{quantity_of, plus_items, add_stock_batch_counts}

-- A 10 kΩ resistor in 0603
abbrev resistor : PartFields
resistor = record {
  part_category = 82 ∷ 101 ∷ 115 ∷ 105 ∷ 115 ∷ 116 ∷ 111 ∷ 114 ∷ [];
  profile = passive;
  quantity = pos 4;
  value = some (49 ∷ []);
  «package» = some (48 ∷ []);
  part_number = none;
  manufacturer = none;
  description = none;
  datasheet_url = none;
  value_unit = none;
}

abbrev stocked : Db
stocked = record running {
  parts =
      (
        1,
        record {
          fields = resistor;
          passive_identity = passive_identity resistor;
          created_at = 0;
          updated_at = 0;
        },
      )
      ∷ [];
}

-- The same resistor again is refused by the identity of passive parts.
same_identity :
    insert_part resistor 3 (record stocked {
      pb_revision = some (record { revision = 0; next_part_id = 2; next_thread_order = 1 });
    })
    ≡ err conflict
unfolding insert_part
same_identity = refl

no_part : add_stock 5 (pos 1) 9 stocked ≡ err (domain_error part_not_found)
unfolding add_stock get_part
no_part = refl

abbrev batch_rows : List PartRow
batch_rows =
    record {
      fields = record resistor { quantity = pos 14 };
      passive_identity = passive_identity resistor;
      created_at = 0;
      updated_at = 9;
    }
    ∷ []

added :
    add_stock_batch ((1, pos 10) ∷ []) 9 stocked ≡ ok (batch_rows, restocked 1 (pos 10) 9 stocked)
unfolding add_stock_batch add_stock get_part increment_stock
added = refl

add_stock_batch_counts_example :
    quantity_of 1 (restocked 1 (pos 10) 9 stocked)
    ≡ plus_items 1 ((1, pos 10) ∷ []) (quantity_of 1 stocked)
add_stock_batch_counts_example =
    add_stock_batch_counts ((1, pos 10) ∷ []) 9 stocked batch_rows (restocked 1 (pos 10) 9 stocked)
      added 1

abbrev one_more : PartRow
one_more = record {
  fields = record resistor { quantity = pos 5 };
  passive_identity = passive_identity resistor;
  created_at = 0;
  updated_at = 9;
}

abbrev four : PartRow
four = record {
  fields = resistor;
  passive_identity = passive_identity resistor;
  created_at = 0;
  updated_at = 0;
}

counted_one_more : adjust_stock 1 (pos 1) 9 stocked ≡ ok (one_more, restocked 1 (pos 1) 9 stocked)
unfolding adjust_stock get_part increment_stock
counted_one_more = refl
