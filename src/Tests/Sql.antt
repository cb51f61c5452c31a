-- ===== src/Tests/Sql.antt =====
-- The theorems of internal/backend/tidb, at concrete inputs.
use timongo.Prelude.{true, all, ◌≡◌}
use timongo.Tidb.Schema.{physical_table_name, is_table_char, all-physical_table_name}
use timongo.Tests.{whole}

all-physical_table_name_example : all is_table_char (physical_table_name "My`db" "c; --") ≡ true
all-physical_table_name_example = all-physical_table_name "My`db" "c; --"
