-- ===== src/BitPacking/Widest.antt =====
-- The functions unpack25_32 to unpack32_32 of src/parquet/util/bpacking.h, statement by statement.
use parquet_cpp.Common.{List, [], ◌∷◌}
use parquet_cpp.BitPacking.Statements.{Statement, field, last, cross}

abbrev pub unpack25_32 : List Statement
unpack25_32 =
    field 0
    ∷ cross 25 18
    ∷ cross 18 11
    ∷ cross 11 4
    ∷ field 4
    ∷ cross 29 22
    ∷ cross 22 15
    ∷ cross 15 8
    ∷ cross 8 1
    ∷ field 1
    ∷ cross 26 19
    ∷ cross 19 12
    ∷ cross 12 5
    ∷ field 5
    ∷ cross 30 23
    ∷ cross 23 16
    ∷ cross 16 9
    ∷ cross 9 2
    ∷ field 2
    ∷ cross 27 20
    ∷ cross 20 13
    ∷ cross 13 6
    ∷ field 6
    ∷ cross 31 24
    ∷ cross 24 17
    ∷ cross 17 10
    ∷ cross 10 3
    ∷ field 3
    ∷ cross 28 21
    ∷ cross 21 14
    ∷ cross 14 7
    ∷ last 7
    ∷ []

abbrev pub unpack26_32 : List Statement
unpack26_32 =
    field 0
    ∷ cross 26 20
    ∷ cross 20 14
    ∷ cross 14 8
    ∷ cross 8 2
    ∷ field 2
    ∷ cross 28 22
    ∷ cross 22 16
    ∷ cross 16 10
    ∷ cross 10 4
    ∷ field 4
    ∷ cross 30 24
    ∷ cross 24 18
    ∷ cross 18 12
    ∷ cross 12 6
    ∷ last 6
    ∷ field 0
    ∷ cross 26 20
    ∷ cross 20 14
    ∷ cross 14 8
    ∷ cross 8 2
    ∷ field 2
    ∷ cross 28 22
    ∷ cross 22 16
    ∷ cross 16 10
    ∷ cross 10 4
    ∷ field 4
    ∷ cross 30 24
    ∷ cross 24 18
    ∷ cross 18 12
    ∷ cross 12 6
    ∷ last 6
    ∷ []

abbrev pub unpack27_32 : List Statement
unpack27_32 =
    field 0
    ∷ cross 27 22
    ∷ cross 22 17
    ∷ cross 17 12
    ∷ cross 12 7
    ∷ cross 7 2
    ∷ field 2
    ∷ cross 29 24
    ∷ cross 24 19
    ∷ cross 19 14
    ∷ cross 14 9
    ∷ cross 9 4
    ∷ field 4
    ∷ cross 31 26
    ∷ cross 26 21
    ∷ cross 21 16
    ∷ cross 16 11
    ∷ cross 11 6
    ∷ cross 6 1
    ∷ field 1
    ∷ cross 28 23
    ∷ cross 23 18
    ∷ cross 18 13
    ∷ cross 13 8
    ∷ cross 8 3
    ∷ field 3
    ∷ cross 30 25
    ∷ cross 25 20
    ∷ cross 20 15
    ∷ cross 15 10
    ∷ cross 10 5
    ∷ last 5
    ∷ []

abbrev pub unpack28_32 : List Statement
unpack28_32 =
    field 0
    ∷ cross 28 24
    ∷ cross 24 20
    ∷ cross 20 16
    ∷ cross 16 12
    ∷ cross 12 8
    ∷ cross 8 4
    ∷ last 4
    ∷ field 0
    ∷ cross 28 24
    ∷ cross 24 20
    ∷ cross 20 16
    ∷ cross 16 12
    ∷ cross 12 8
    ∷ cross 8 4
    ∷ last 4
    ∷ field 0
    ∷ cross 28 24
    ∷ cross 24 20
    ∷ cross 20 16
    ∷ cross 16 12
    ∷ cross 12 8
    ∷ cross 8 4
    ∷ last 4
    ∷ field 0
    ∷ cross 28 24
    ∷ cross 24 20
    ∷ cross 20 16
    ∷ cross 16 12
    ∷ cross 12 8
    ∷ cross 8 4
    ∷ last 4
    ∷ []

abbrev pub unpack29_32 : List Statement
unpack29_32 =
    field 0
    ∷ cross 29 26
    ∷ cross 26 23
    ∷ cross 23 20
    ∷ cross 20 17
    ∷ cross 17 14
    ∷ cross 14 11
    ∷ cross 11 8
    ∷ cross 8 5
    ∷ cross 5 2
    ∷ field 2
    ∷ cross 31 28
    ∷ cross 28 25
    ∷ cross 25 22
    ∷ cross 22 19
    ∷ cross 19 16
    ∷ cross 16 13
    ∷ cross 13 10
    ∷ cross 10 7
    ∷ cross 7 4
    ∷ cross 4 1
    ∷ field 1
    ∷ cross 30 27
    ∷ cross 27 24
    ∷ cross 24 21
    ∷ cross 21 18
    ∷ cross 18 15
    ∷ cross 15 12
    ∷ cross 12 9
    ∷ cross 9 6
    ∷ cross 6 3
    ∷ last 3
    ∷ []

abbrev pub unpack30_32 : List Statement
unpack30_32 =
    field 0
    ∷ cross 30 28
    ∷ cross 28 26
    ∷ cross 26 24
    ∷ cross 24 22
    ∷ cross 22 20
    ∷ cross 20 18
    ∷ cross 18 16
    ∷ cross 16 14
    ∷ cross 14 12
    ∷ cross 12 10
    ∷ cross 10 8
    ∷ cross 8 6
    ∷ cross 6 4
    ∷ cross 4 2
    ∷ last 2
    ∷ field 0
    ∷ cross 30 28
    ∷ cross 28 26
    ∷ cross 26 24
    ∷ cross 24 22
    ∷ cross 22 20
    ∷ cross 20 18
    ∷ cross 18 16
    ∷ cross 16 14
    ∷ cross 14 12
    ∷ cross 12 10
    ∷ cross 10 8
    ∷ cross 8 6
    ∷ cross 6 4
    ∷ cross 4 2
    ∷ last 2
    ∷ []

abbrev pub unpack31_32 : List Statement
unpack31_32 =
    field 0
    ∷ cross 31 30
    ∷ cross 30 29
    ∷ cross 29 28
    ∷ cross 28 27
    ∷ cross 27 26
    ∷ cross 26 25
    ∷ cross 25 24
    ∷ cross 24 23
    ∷ cross 23 22
    ∷ cross 22 21
    ∷ cross 21 20
    ∷ cross 20 19
    ∷ cross 19 18
    ∷ cross 18 17
    ∷ cross 17 16
    ∷ cross 16 15
    ∷ cross 15 14
    ∷ cross 14 13
    ∷ cross 13 12
    ∷ cross 12 11
    ∷ cross 11 10
    ∷ cross 10 9
    ∷ cross 9 8
    ∷ cross 8 7
    ∷ cross 7 6
    ∷ cross 6 5
    ∷ cross 5 4
    ∷ cross 4 3
    ∷ cross 3 2
    ∷ cross 2 1
    ∷ last 1
    ∷ []

abbrev pub unpack32_32 : List Statement
unpack32_32 =
    last 0
    ∷ last 0
    ∷ last 0
    ∷ last 0
    ∷ last 0
    ∷ last 0
    ∷ last 0
    ∷ last 0
    ∷ last 0
    ∷ last 0
    ∷ last 0
    ∷ last 0
    ∷ last 0
    ∷ last 0
    ∷ last 0
    ∷ last 0
    ∷ last 0
    ∷ last 0
    ∷ last 0
    ∷ last 0
    ∷ last 0
    ∷ last 0
    ∷ last 0
    ∷ last 0
    ∷ last 0
    ∷ last 0
    ∷ last 0
    ∷ last 0
    ∷ last 0
    ∷ last 0
    ∷ last 0
    ∷ last 0
    ∷ []
