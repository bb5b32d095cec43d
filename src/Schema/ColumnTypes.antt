-- ===== src/Schema/ColumnTypes.antt =====
-- The types of columns and their names (src/column_types.h).
use Prim.Native.String.{String}
use package.text.Mathlib.Text.{◌==◌ as str_eq}
use kitchen_sync.Common.{
  ℕ, ◌≡◌, refl, Bool, ◌||◌, Option, none, some, List, [], ◌∷◌, ltb, if◌then◌else◌,
}

pub data ColumnType : Type 0 where
  unknown mysql_specific postgresql_specific binary : ColumnType
  binary_varbinary binary_fixed text text_varchar : ColumnType
  text_fixed json json_binary uuid : ColumnType
  date time time_tz datetime : ColumnType
  datetime_tz datetime_mysqltimestamp spatial spatial_geography : ColumnType
  enumeration boolean sint_8bit sint_16bit : ColumnType
  sint_24bit sint_32bit sint_64bit uint_8bit : ColumnType
  uint_16bit uint_24bit uint_32bit uint_64bit : ColumnType
  float_64bit float_32bit decimal : ColumnType

-- The integer constants.
abbrev pub column_type_value : ColumnType → ℕ
column_type_value unknown = 0
column_type_value mysql_specific = 1
column_type_value postgresql_specific = 2
column_type_value binary = 256
column_type_value binary_varbinary = 257
column_type_value binary_fixed = 258
column_type_value text = 512
column_type_value text_varchar = 513
column_type_value text_fixed = 514
column_type_value json = 768
column_type_value json_binary = 769
column_type_value uuid = 1024
column_type_value date = 1280
column_type_value time = 1281
column_type_value time_tz = 1282
column_type_value datetime = 1283
column_type_value datetime_tz = 1284
column_type_value datetime_mysqltimestamp = 1285
column_type_value spatial = 1536
column_type_value spatial_geography = 1537
column_type_value enumeration = 1792
column_type_value boolean = 1073741824
column_type_value sint_8bit = 1073742080
column_type_value sint_16bit = 1073742081
column_type_value sint_24bit = 1073742082
column_type_value sint_32bit = 1073742083
column_type_value sint_64bit = 1073742084
column_type_value uint_8bit = 1073742337
column_type_value uint_16bit = 1073742338
column_type_value uint_24bit = 1073742339
column_type_value uint_32bit = 1073742340
column_type_value uint_64bit = 1073742341
column_type_value float_64bit = 1073742592
column_type_value float_32bit = 1073742593
column_type_value decimal = 1073742848

abbrev pub non_quoted_literals_min : ℕ
non_quoted_literals_min = 1073741824

abbrev pub non_quoted_literals_max : ℕ
non_quoted_literals_max = 2147483647

pub column_type_name : ColumnType → String
column_type_name unknown = "unknown"
column_type_name mysql_specific = "mysql_specific"
column_type_name postgresql_specific = "postgresql_specific"
column_type_name binary = "binary"
column_type_name binary_varbinary = "binary.varbinary"
column_type_name binary_fixed = "binary.fixed"
column_type_name text = "text"
column_type_name text_varchar = "text.varchar"
column_type_name text_fixed = "text.fixed"
column_type_name json = "json"
column_type_name json_binary = "json.binary"
column_type_name uuid = "uuid"
column_type_name date = "date"
column_type_name time = "time"
column_type_name time_tz = "time.tz"
column_type_name datetime = "datetime"
column_type_name datetime_tz = "datetime.tz"
column_type_name datetime_mysqltimestamp = "datetime.mysqltimestamp"
column_type_name spatial = "spatial"
column_type_name spatial_geography = "spatial.geography"
column_type_name enumeration = "enum"
column_type_name boolean = "boolean"
column_type_name sint_8bit = "integer.8bit"
column_type_name sint_16bit = "integer.16bit"
column_type_name sint_24bit = "integer.24bit"
column_type_name sint_32bit = "integer"
column_type_name sint_64bit = "integer.64bit"
column_type_name uint_8bit = "integer.unsigned.8bit"
column_type_name uint_16bit = "integer.unsigned.16bit"
column_type_name uint_24bit = "integer.unsigned.24bit"
column_type_name uint_32bit = "integer.unsigned"
column_type_name uint_64bit = "integer.unsigned.64bit"
column_type_name float_64bit = "float"
column_type_name float_32bit = "float.32bit"
column_type_name decimal = "decimal"

abbrev column_types_by_name : List (String × ColumnType)
column_types_by_name =
    ("unknown", unknown)
    ∷ ("mysql_specific", mysql_specific)
    ∷ ("postgresql_specific", postgresql_specific)
    ∷ ("binary", binary)
    ∷ ("binary.varbinary", binary_varbinary)
    ∷ ("binary.fixed", binary_fixed)
    ∷ ("text", text)
    ∷ ("text.varchar", text_varchar)
    ∷ ("text.fixed", text_fixed)
    ∷ ("json", json)
    ∷ ("json.binary", json_binary)
    ∷ ("uuid", uuid)
    ∷ ("date", date)
    ∷ ("time", time)
    ∷ ("time.tz", time_tz)
    ∷ ("datetime", datetime)
    ∷ ("datetime.tz", datetime_tz)
    ∷ ("datetime.mysqltimestamp", datetime_mysqltimestamp)
    ∷ ("spatial", spatial)
    ∷ ("spatial.geography", spatial_geography)
    ∷ ("enum", enumeration)
    ∷ ("boolean", boolean)
    ∷ ("integer.8bit", sint_8bit)
    ∷ ("integer.16bit", sint_16bit)
    ∷ ("integer.24bit", sint_24bit)
    ∷ ("integer", sint_32bit)
    ∷ ("integer.64bit", sint_64bit)
    ∷ ("integer.unsigned.8bit", uint_8bit)
    ∷ ("integer.unsigned.16bit", uint_16bit)
    ∷ ("integer.unsigned.24bit", uint_24bit)
    ∷ ("integer.unsigned", uint_32bit)
    ∷ ("integer.unsigned.64bit", uint_64bit)
    ∷ ("float", float_64bit)
    ∷ ("float.32bit", float_32bit)
    ∷ ("decimal", decimal)
    ∷ []

abbrev find_type : String → List (String × ColumnType) → Option ColumnType
find_type name [] = none
find_type name ((n, t) ∷ types) =
    let rest = find_type name types in if str_eq name n then some t else rest

-- None where the name is not known.
pub column_type_by_name : String → Option ColumnType
column_type_by_name name = find_type name column_types_by_name

pub values_need_quoting : ColumnType → Bool
values_need_quoting t =
    ltb (column_type_value t) non_quoted_literals_min
    || ltb non_quoted_literals_max (column_type_value t)

-- Each type is found by its own name, so that no two types have the same one.
pub column_type_by_name-column_type_name :
    (t : ColumnType) → column_type_by_name (column_type_name t) ≡ some t
unfolding column_type_by_name column_type_name
column_type_by_name-column_type_name unknown = refl
column_type_by_name-column_type_name mysql_specific = refl
column_type_by_name-column_type_name postgresql_specific = refl
column_type_by_name-column_type_name binary = refl
column_type_by_name-column_type_name binary_varbinary = refl
column_type_by_name-column_type_name binary_fixed = refl
column_type_by_name-column_type_name text = refl
column_type_by_name-column_type_name text_varchar = refl
column_type_by_name-column_type_name text_fixed = refl
column_type_by_name-column_type_name json = refl
column_type_by_name-column_type_name json_binary = refl
column_type_by_name-column_type_name uuid = refl
column_type_by_name-column_type_name date = refl
column_type_by_name-column_type_name time = refl
column_type_by_name-column_type_name time_tz = refl
column_type_by_name-column_type_name datetime = refl
column_type_by_name-column_type_name datetime_tz = refl
column_type_by_name-column_type_name datetime_mysqltimestamp = refl
column_type_by_name-column_type_name spatial = refl
column_type_by_name-column_type_name spatial_geography = refl
column_type_by_name-column_type_name enumeration = refl
column_type_by_name-column_type_name boolean = refl
column_type_by_name-column_type_name sint_8bit = refl
column_type_by_name-column_type_name sint_16bit = refl
column_type_by_name-column_type_name sint_24bit = refl
column_type_by_name-column_type_name sint_32bit = refl
column_type_by_name-column_type_name sint_64bit = refl
column_type_by_name-column_type_name uint_8bit = refl
column_type_by_name-column_type_name uint_16bit = refl
column_type_by_name-column_type_name uint_24bit = refl
column_type_by_name-column_type_name uint_32bit = refl
column_type_by_name-column_type_name uint_64bit = refl
column_type_by_name-column_type_name float_64bit = refl
column_type_by_name-column_type_name float_32bit = refl
column_type_by_name-column_type_name decimal = refl
