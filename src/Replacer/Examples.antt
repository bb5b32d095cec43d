-- ===== src/Replacer/Examples.antt =====
-- Clients and replacers for the tests.
use kitchen_sync.Common.{true, false, []}
use kitchen_sync.Table.{Table}
use kitchen_sync.Table.Examples.{pair_format}
use kitchen_sync.Replacer.{Client, RowReplacer}

-- A client without REPLACE, and one with it.
abbrev pub plain_client : Client pair_format
plain_client = record {
  supports_replace = false;
  insert_prefix_size = 40;
  delete_prefix_size = 30;
  tuple_size = λ r. 5;
  condition_size = λ k. 4;
  row_bytes = λ r. 2;
}

abbrev pub replacing_client : Client pair_format
replacing_client = record plain_client { supports_replace = true }

abbrev pub fresh_replacer : Table pair_format → RowReplacer pair_format
fresh_replacer t = record { table = t; delete_keys = []; insert_rows = []; rows_changed = 0 }
