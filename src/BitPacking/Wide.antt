-- ===== src/BitPacking/Wide.antt =====
-- The functions unpack17_32 to unpack24_32 of src/parquet/util/bpacking.h, statement by statement.
use parquet_cpp.Common.{List, [], ◌∷◌}
use parquet_cpp.BitPacking.Statements.{Statement, field, last, cross}

abbrev pub unpack17_32 : List Statement
unpack17_32 =
    field 0
    ∷ cross 17 2
    ∷ field 2
    ∷ cross 19 4
    ∷ field 4
    ∷ cross 21 6
    ∷ field 6
    ∷ cross 23 8
    ∷ field 8
    ∷ cross 25 10
    ∷ field 10
    ∷ cross 27 12
    ∷ field 12
    ∷ cross 29 14
    ∷ field 14
    ∷ cross 31 16
    ∷ cross 16 1
    ∷ field 1
    ∷ cross 18 3
    ∷ field 3
    ∷ cross 20 5
    ∷ field 5
    ∷ cross 22 7
    ∷ field 7
    ∷ cross 24 9
    ∷ field 9
    ∷ cross 26 11
    ∷ field 11
    ∷ cross 28 13
    ∷ field 13
    ∷ cross 30 15
    ∷ last 15
    ∷ []

abbrev pub unpack18_32 : List Statement
unpack18_32 =
    field 0
    ∷ cross 18 4
    ∷ field 4
    ∷ cross 22 8
    ∷ field 8
    ∷ cross 26 12
    ∷ field 12
    ∷ cross 30 16
    ∷ cross 16 2
    ∷ field 2
    ∷ cross 20 6
    ∷ field 6
    ∷ cross 24 10
    ∷ field 10
    ∷ cross 28 14
    ∷ last 14
    ∷ field 0
    ∷ cross 18 4
    ∷ field 4
    ∷ cross 22 8
    ∷ field 8
    ∷ cross 26 12
    ∷ field 12
    ∷ cross 30 16
    ∷ cross 16 2
    ∷ field 2
    ∷ cross 20 6
    ∷ field 6
    ∷ cross 24 10
    ∷ field 10
    ∷ cross 28 14
    ∷ last 14
    ∷ []

abbrev pub unpack19_32 : List Statement
unpack19_32 =
    field 0
    ∷ cross 19 6
    ∷ field 6
    ∷ cross 25 12
    ∷ field 12
    ∷ cross 31 18
    ∷ cross 18 5
    ∷ field 5
    ∷ cross 24 11
    ∷ field 11
    ∷ cross 30 17
    ∷ cross 17 4
    ∷ field 4
    ∷ cross 23 10
    ∷ field 10
    ∷ cross 29 16
    ∷ cross 16 3
    ∷ field 3
    ∷ cross 22 9
    ∷ field 9
    ∷ cross 28 15
    ∷ cross 15 2
    ∷ field 2
    ∷ cross 21 8
    ∷ field 8
    ∷ cross 27 14
    ∷ cross 14 1
    ∷ field 1
    ∷ cross 20 7
    ∷ field 7
    ∷ cross 26 13
    ∷ last 13
    ∷ []

abbrev pub unpack20_32 : List Statement
unpack20_32 =
    field 0
    ∷ cross 20 8
    ∷ field 8
    ∷ cross 28 16
    ∷ cross 16 4
    ∷ field 4
    ∷ cross 24 12
    ∷ last 12
    ∷ field 0
    ∷ cross 20 8
    ∷ field 8
    ∷ cross 28 16
    ∷ cross 16 4
    ∷ field 4
    ∷ cross 24 12
    ∷ last 12
    ∷ field 0
    ∷ cross 20 8
    ∷ field 8
    ∷ cross 28 16
    ∷ cross 16 4
    ∷ field 4
    ∷ cross 24 12
    ∷ last 12
    ∷ field 0
    ∷ cross 20 8
    ∷ field 8
    ∷ cross 28 16
    ∷ cross 16 4
    ∷ field 4
    ∷ cross 24 12
    ∷ last 12
    ∷ []

abbrev pub unpack21_32 : List Statement
unpack21_32 =
    field 0
    ∷ cross 21 10
    ∷ field 10
    ∷ cross 31 20
    ∷ cross 20 9
    ∷ field 9
    ∷ cross 30 19
    ∷ cross 19 8
    ∷ field 8
    ∷ cross 29 18
    ∷ cross 18 7
    ∷ field 7
    ∷ cross 28 17
    ∷ cross 17 6
    ∷ field 6
    ∷ cross 27 16
    ∷ cross 16 5
    ∷ field 5
    ∷ cross 26 15
    ∷ cross 15 4
    ∷ field 4
    ∷ cross 25 14
    ∷ cross 14 3
    ∷ field 3
    ∷ cross 24 13
    ∷ cross 13 2
    ∷ field 2
    ∷ cross 23 12
    ∷ cross 12 1
    ∷ field 1
    ∷ cross 22 11
    ∷ last 11
    ∷ []

abbrev pub unpack22_32 : List Statement
unpack22_32 =
    field 0
    ∷ cross 22 12
    ∷ cross 12 2
    ∷ field 2
    ∷ cross 24 14
    ∷ cross 14 4
    ∷ field 4
    ∷ cross 26 16
    ∷ cross 16 6
    ∷ field 6
    ∷ cross 28 18
    ∷ cross 18 8
    ∷ field 8
    ∷ cross 30 20
    ∷ cross 20 10
    ∷ last 10
    ∷ field 0
    ∷ cross 22 12
    ∷ cross 12 2
    ∷ field 2
    ∷ cross 24 14
    ∷ cross 14 4
    ∷ field 4
    ∷ cross 26 16
    ∷ cross 16 6
    ∷ field 6
    ∷ cross 28 18
    ∷ cross 18 8
    ∷ field 8
    ∷ cross 30 20
    ∷ cross 20 10
    ∷ last 10
    ∷ []

abbrev pub unpack23_32 : List Statement
unpack23_32 =
    field 0
    ∷ cross 23 14
    ∷ cross 14 5
    ∷ field 5
    ∷ cross 28 19
    ∷ cross 19 10
    ∷ cross 10 1
    ∷ field 1
    ∷ cross 24 15
    ∷ cross 15 6
    ∷ field 6
    ∷ cross 29 20
    ∷ cross 20 11
    ∷ cross 11 2
    ∷ field 2
    ∷ cross 25 16
    ∷ cross 16 7
    ∷ field 7
    ∷ cross 30 21
    ∷ cross 21 12
    ∷ cross 12 3
    ∷ field 3
    ∷ cross 26 17
    ∷ cross 17 8
    ∷ field 8
    ∷ cross 31 22
    ∷ cross 22 13
    ∷ cross 13 4
    ∷ field 4
    ∷ cross 27 18
    ∷ cross 18 9
    ∷ last 9
    ∷ []

abbrev pub unpack24_32 : List Statement
unpack24_32 =
    field 0
    ∷ cross 24 16
    ∷ cross 16 8
    ∷ last 8
    ∷ field 0
    ∷ cross 24 16
    ∷ cross 16 8
    ∷ last 8
    ∷ field 0
    ∷ cross 24 16
    ∷ cross 16 8
    ∷ last 8
    ∷ field 0
    ∷ cross 24 16
    ∷ cross 16 8
    ∷ last 8
    ∷ field 0
    ∷ cross 24 16
    ∷ cross 16 8
    ∷ last 8
    ∷ field 0
    ∷ cross 24 16
    ∷ cross 16 8
    ∷ last 8
    ∷ field 0
    ∷ cross 24 16
    ∷ cross 16 8
    ∷ last 8
    ∷ field 0
    ∷ cross 24 16
    ∷ cross 16 8
    ∷ last 8
    ∷ []
