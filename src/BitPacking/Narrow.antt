-- ===== src/BitPacking/Narrow.antt =====
-- The functions unpack1_32 to unpack8_32 of src/parquet/util/bpacking.h, statement by statement.
use parquet_cpp.Common.{List, [], ◌∷◌}
use parquet_cpp.BitPacking.Statements.{Statement, bit, field, last, cross}

abbrev pub unpack1_32 : List Statement
unpack1_32 =
    bit 0
    ∷ bit 1
    ∷ bit 2
    ∷ bit 3
    ∷ bit 4
    ∷ bit 5
    ∷ bit 6
    ∷ bit 7
    ∷ bit 8
    ∷ bit 9
    ∷ bit 10
    ∷ bit 11
    ∷ bit 12
    ∷ bit 13
    ∷ bit 14
    ∷ bit 15
    ∷ bit 16
    ∷ bit 17
    ∷ bit 18
    ∷ bit 19
    ∷ bit 20
    ∷ bit 21
    ∷ bit 22
    ∷ bit 23
    ∷ bit 24
    ∷ bit 25
    ∷ bit 26
    ∷ bit 27
    ∷ bit 28
    ∷ bit 29
    ∷ bit 30
    ∷ last 31
    ∷ []

abbrev pub unpack2_32 : List Statement
unpack2_32 =
    field 0
    ∷ field 2
    ∷ field 4
    ∷ field 6
    ∷ field 8
    ∷ field 10
    ∷ field 12
    ∷ field 14
    ∷ field 16
    ∷ field 18
    ∷ field 20
    ∷ field 22
    ∷ field 24
    ∷ field 26
    ∷ field 28
    ∷ last 30
    ∷ field 0
    ∷ field 2
    ∷ field 4
    ∷ field 6
    ∷ field 8
    ∷ field 10
    ∷ field 12
    ∷ field 14
    ∷ field 16
    ∷ field 18
    ∷ field 20
    ∷ field 22
    ∷ field 24
    ∷ field 26
    ∷ field 28
    ∷ last 30
    ∷ []

abbrev pub unpack3_32 : List Statement
unpack3_32 =
    field 0
    ∷ field 3
    ∷ field 6
    ∷ field 9
    ∷ field 12
    ∷ field 15
    ∷ field 18
    ∷ field 21
    ∷ field 24
    ∷ field 27
    ∷ cross 30 1
    ∷ field 1
    ∷ field 4
    ∷ field 7
    ∷ field 10
    ∷ field 13
    ∷ field 16
    ∷ field 19
    ∷ field 22
    ∷ field 25
    ∷ field 28
    ∷ cross 31 2
    ∷ field 2
    ∷ field 5
    ∷ field 8
    ∷ field 11
    ∷ field 14
    ∷ field 17
    ∷ field 20
    ∷ field 23
    ∷ field 26
    ∷ last 29
    ∷ []

abbrev pub unpack4_32 : List Statement
unpack4_32 =
    field 0
    ∷ field 4
    ∷ field 8
    ∷ field 12
    ∷ field 16
    ∷ field 20
    ∷ field 24
    ∷ last 28
    ∷ field 0
    ∷ field 4
    ∷ field 8
    ∷ field 12
    ∷ field 16
    ∷ field 20
    ∷ field 24
    ∷ last 28
    ∷ field 0
    ∷ field 4
    ∷ field 8
    ∷ field 12
    ∷ field 16
    ∷ field 20
    ∷ field 24
    ∷ last 28
    ∷ field 0
    ∷ field 4
    ∷ field 8
    ∷ field 12
    ∷ field 16
    ∷ field 20
    ∷ field 24
    ∷ last 28
    ∷ []

abbrev pub unpack5_32 : List Statement
unpack5_32 =
    field 0
    ∷ field 5
    ∷ field 10
    ∷ field 15
    ∷ field 20
    ∷ field 25
    ∷ cross 30 3
    ∷ field 3
    ∷ field 8
    ∷ field 13
    ∷ field 18
    ∷ field 23
    ∷ cross 28 1
    ∷ field 1
    ∷ field 6
    ∷ field 11
    ∷ field 16
    ∷ field 21
    ∷ field 26
    ∷ cross 31 4
    ∷ field 4
    ∷ field 9
    ∷ field 14
    ∷ field 19
    ∷ field 24
    ∷ cross 29 2
    ∷ field 2
    ∷ field 7
    ∷ field 12
    ∷ field 17
    ∷ field 22
    ∷ last 27
    ∷ []

abbrev pub unpack6_32 : List Statement
unpack6_32 =
    field 0
    ∷ field 6
    ∷ field 12
    ∷ field 18
    ∷ field 24
    ∷ cross 30 4
    ∷ field 4
    ∷ field 10
    ∷ field 16
    ∷ field 22
    ∷ cross 28 2
    ∷ field 2
    ∷ field 8
    ∷ field 14
    ∷ field 20
    ∷ last 26
    ∷ field 0
    ∷ field 6
    ∷ field 12
    ∷ field 18
    ∷ field 24
    ∷ cross 30 4
    ∷ field 4
    ∷ field 10
    ∷ field 16
    ∷ field 22
    ∷ cross 28 2
    ∷ field 2
    ∷ field 8
    ∷ field 14
    ∷ field 20
    ∷ last 26
    ∷ []

abbrev pub unpack7_32 : List Statement
unpack7_32 =
    field 0
    ∷ field 7
    ∷ field 14
    ∷ field 21
    ∷ cross 28 3
    ∷ field 3
    ∷ field 10
    ∷ field 17
    ∷ field 24
    ∷ cross 31 6
    ∷ field 6
    ∷ field 13
    ∷ field 20
    ∷ cross 27 2
    ∷ field 2
    ∷ field 9
    ∷ field 16
    ∷ field 23
    ∷ cross 30 5
    ∷ field 5
    ∷ field 12
    ∷ field 19
    ∷ cross 26 1
    ∷ field 1
    ∷ field 8
    ∷ field 15
    ∷ field 22
    ∷ cross 29 4
    ∷ field 4
    ∷ field 11
    ∷ field 18
    ∷ last 25
    ∷ []

abbrev pub unpack8_32 : List Statement
unpack8_32 =
    field 0
    ∷ field 8
    ∷ field 16
    ∷ last 24
    ∷ field 0
    ∷ field 8
    ∷ field 16
    ∷ last 24
    ∷ field 0
    ∷ field 8
    ∷ field 16
    ∷ last 24
    ∷ field 0
    ∷ field 8
    ∷ field 16
    ∷ last 24
    ∷ field 0
    ∷ field 8
    ∷ field 16
    ∷ last 24
    ∷ field 0
    ∷ field 8
    ∷ field 16
    ∷ last 24
    ∷ field 0
    ∷ field 8
    ∷ field 16
    ∷ last 24
    ∷ field 0
    ∷ field 8
    ∷ field 16
    ∷ last 24
    ∷ []
