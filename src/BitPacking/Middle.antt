-- ===== src/BitPacking/Middle.antt =====
-- The functions unpack9_32 to unpack16_32 of src/parquet/util/bpacking.h, statement by statement.
use parquet_cpp.Common.{List, [], ◌∷◌}
use parquet_cpp.BitPacking.Statements.{Statement, field, last, cross}

abbrev pub unpack9_32 : List Statement
unpack9_32 =
    field 0
    ∷ field 9
    ∷ field 18
    ∷ cross 27 4
    ∷ field 4
    ∷ field 13
    ∷ field 22
    ∷ cross 31 8
    ∷ field 8
    ∷ field 17
    ∷ cross 26 3
    ∷ field 3
    ∷ field 12
    ∷ field 21
    ∷ cross 30 7
    ∷ field 7
    ∷ field 16
    ∷ cross 25 2
    ∷ field 2
    ∷ field 11
    ∷ field 20
    ∷ cross 29 6
    ∷ field 6
    ∷ field 15
    ∷ cross 24 1
    ∷ field 1
    ∷ field 10
    ∷ field 19
    ∷ cross 28 5
    ∷ field 5
    ∷ field 14
    ∷ last 23
    ∷ []

abbrev pub unpack10_32 : List Statement
unpack10_32 =
    field 0
    ∷ field 10
    ∷ field 20
    ∷ cross 30 8
    ∷ field 8
    ∷ field 18
    ∷ cross 28 6
    ∷ field 6
    ∷ field 16
    ∷ cross 26 4
    ∷ field 4
    ∷ field 14
    ∷ cross 24 2
    ∷ field 2
    ∷ field 12
    ∷ last 22
    ∷ field 0
    ∷ field 10
    ∷ field 20
    ∷ cross 30 8
    ∷ field 8
    ∷ field 18
    ∷ cross 28 6
    ∷ field 6
    ∷ field 16
    ∷ cross 26 4
    ∷ field 4
    ∷ field 14
    ∷ cross 24 2
    ∷ field 2
    ∷ field 12
    ∷ last 22
    ∷ []

abbrev pub unpack11_32 : List Statement
unpack11_32 =
    field 0
    ∷ field 11
    ∷ cross 22 1
    ∷ field 1
    ∷ field 12
    ∷ cross 23 2
    ∷ field 2
    ∷ field 13
    ∷ cross 24 3
    ∷ field 3
    ∷ field 14
    ∷ cross 25 4
    ∷ field 4
    ∷ field 15
    ∷ cross 26 5
    ∷ field 5
    ∷ field 16
    ∷ cross 27 6
    ∷ field 6
    ∷ field 17
    ∷ cross 28 7
    ∷ field 7
    ∷ field 18
    ∷ cross 29 8
    ∷ field 8
    ∷ field 19
    ∷ cross 30 9
    ∷ field 9
    ∷ field 20
    ∷ cross 31 10
    ∷ field 10
    ∷ last 21
    ∷ []

abbrev pub unpack12_32 : List Statement
unpack12_32 =
    field 0
    ∷ field 12
    ∷ cross 24 4
    ∷ field 4
    ∷ field 16
    ∷ cross 28 8
    ∷ field 8
    ∷ last 20
    ∷ field 0
    ∷ field 12
    ∷ cross 24 4
    ∷ field 4
    ∷ field 16
    ∷ cross 28 8
    ∷ field 8
    ∷ last 20
    ∷ field 0
    ∷ field 12
    ∷ cross 24 4
    ∷ field 4
    ∷ field 16
    ∷ cross 28 8
    ∷ field 8
    ∷ last 20
    ∷ field 0
    ∷ field 12
    ∷ cross 24 4
    ∷ field 4
    ∷ field 16
    ∷ cross 28 8
    ∷ field 8
    ∷ last 20
    ∷ []

abbrev pub unpack13_32 : List Statement
unpack13_32 =
    field 0
    ∷ field 13
    ∷ cross 26 7
    ∷ field 7
    ∷ cross 20 1
    ∷ field 1
    ∷ field 14
    ∷ cross 27 8
    ∷ field 8
    ∷ cross 21 2
    ∷ field 2
    ∷ field 15
    ∷ cross 28 9
    ∷ field 9
    ∷ cross 22 3
    ∷ field 3
    ∷ field 16
    ∷ cross 29 10
    ∷ field 10
    ∷ cross 23 4
    ∷ field 4
    ∷ field 17
    ∷ cross 30 11
    ∷ field 11
    ∷ cross 24 5
    ∷ field 5
    ∷ field 18
    ∷ cross 31 12
    ∷ field 12
    ∷ cross 25 6
    ∷ field 6
    ∷ last 19
    ∷ []

abbrev pub unpack14_32 : List Statement
unpack14_32 =
    field 0
    ∷ field 14
    ∷ cross 28 10
    ∷ field 10
    ∷ cross 24 6
    ∷ field 6
    ∷ cross 20 2
    ∷ field 2
    ∷ field 16
    ∷ cross 30 12
    ∷ field 12
    ∷ cross 26 8
    ∷ field 8
    ∷ cross 22 4
    ∷ field 4
    ∷ last 18
    ∷ field 0
    ∷ field 14
    ∷ cross 28 10
    ∷ field 10
    ∷ cross 24 6
    ∷ field 6
    ∷ cross 20 2
    ∷ field 2
    ∷ field 16
    ∷ cross 30 12
    ∷ field 12
    ∷ cross 26 8
    ∷ field 8
    ∷ cross 22 4
    ∷ field 4
    ∷ last 18
    ∷ []

abbrev pub unpack15_32 : List Statement
unpack15_32 =
    field 0
    ∷ field 15
    ∷ cross 30 13
    ∷ field 13
    ∷ cross 28 11
    ∷ field 11
    ∷ cross 26 9
    ∷ field 9
    ∷ cross 24 7
    ∷ field 7
    ∷ cross 22 5
    ∷ field 5
    ∷ cross 20 3
    ∷ field 3
    ∷ cross 18 1
    ∷ field 1
    ∷ field 16
    ∷ cross 31 14
    ∷ field 14
    ∷ cross 29 12
    ∷ field 12
    ∷ cross 27 10
    ∷ field 10
    ∷ cross 25 8
    ∷ field 8
    ∷ cross 23 6
    ∷ field 6
    ∷ cross 21 4
    ∷ field 4
    ∷ cross 19 2
    ∷ field 2
    ∷ last 17
    ∷ []

abbrev pub unpack16_32 : List Statement
unpack16_32 =
    field 0
    ∷ last 16
    ∷ field 0
    ∷ last 16
    ∷ field 0
    ∷ last 16
    ∷ field 0
    ∷ last 16
    ∷ field 0
    ∷ last 16
    ∷ field 0
    ∷ last 16
    ∷ field 0
    ∷ last 16
    ∷ field 0
    ∷ last 16
    ∷ field 0
    ∷ last 16
    ∷ field 0
    ∷ last 16
    ∷ field 0
    ∷ last 16
    ∷ field 0
    ∷ last 16
    ∷ field 0
    ∷ last 16
    ∷ field 0
    ∷ last 16
    ∷ field 0
    ∷ last 16
    ∷ field 0
    ∷ last 16
    ∷ []
