-- ===== src/Examples.antt =====
-- examples/: the two programs that build a query and hand it to a database driver. The table and the
-- columns that both declare.
pub mod Libpq
pub mod KeyValue
use iron_query.Prelude.{lit, true, false}
use iron_query.Table
use iron_query.Table.{Table, Column}

unfoldable pub key_value_table : Table
unfolding Table.from_raw
key_value_table = Table.from_raw (lit "key_value_table")

unfoldable pub key_column : Column
key_column = record { name = lit "key"; type = lit "VARCHAR"; is_nullable = false }

unfoldable pub value_column : Column
value_column = record { name = lit "value"; type = lit "VARCHAR"; is_nullable = true }
