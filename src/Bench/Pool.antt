-- ===== src/Bench/Pool.antt =====
-- `VALUE_POOL` of include/generator.h.
use pmraccess.Base.{[], ◌∷◌, Bytes}

-- The characters of the literal, without the NUL behind them.
unfoldable pub value_pool : Bytes
value_pool =
    108 ∷ 57 ∷ 104 ∷ 100 ∷ 54 ∷ 50 ∷ 94 ∷ 100 ∷ 102 ∷ 104 ∷ 46 ∷ 112 ∷ 120 ∷ 114 ∷ 67 ∷ 54 ∷ 90 ∷ 85
    ∷ 55 ∷ 57 ∷ 79 ∷ 110 ∷ 102 ∷ 67 ∷ 90 ∷ 48 ∷ 54 ∷ 68 ∷ 115 ∷ 78 ∷ 88 ∷ 87 ∷ 89 ∷ 51 ∷ 85 ∷ 52
    ∷ 100 ∷ 116 ∷ 49 ∷ 74 ∷ 84 ∷ 71 ∷ 81 ∷ 86 ∷ 118 ∷ 121 ∷ 108 ∷ 66 ∷ 100 ∷ 90 ∷ 83 ∷ 108 ∷ 72 ∷ 87
    ∷ 88 ∷ 67 ∷ 52 ∷ 80 ∷ 111 ∷ 107 ∷ 67 ∷ 120 ∷ 115 ∷ 77 ∷ 100 ∷ 106 ∷ 118 ∷ 56 ∷ 120 ∷ 82 ∷ 112
    ∷ 116 ∷ 70 ∷ 77 ∷ 77 ∷ 81 ∷ 121 ∷ 72 ∷ 49 ∷ 50 ∷ 68 ∷ 69 ∷ 114 ∷ 55 ∷ 90 ∷ 117 ∷ 114 ∷ 116 ∷ 90
    ∷ 112 ∷ 115 ∷ 121 ∷ 114 ∷ 101 ∷ 77 ∷ 109 ∷ 80 ∷ 119 ∷ 117 ∷ 119 ∷ 55 ∷ 87 ∷ 77 ∷ 82 ∷ 110 ∷ 111
    ∷ 78 ∷ 53 ∷ 119 ∷ 65 ∷ 89 ∷ 87 ∷ 116 ∷ 107 ∷ 113 ∷ 68 ∷ 119 ∷ 88 ∷ 121 ∷ 81 ∷ 108 ∷ 89 ∷ 98 ∷ 52
    ∷ 82 ∷ 103 ∷ 116 ∷ 83 ∷ 99 ∷ 52 ∷ 120 ∷ 115 ∷ 111 ∷ 110 ∷ 112 ∷ 84 ∷ 120 ∷ 50 ∷ 85 ∷ 104 ∷ 73
    ∷ 85 ∷ 105 ∷ 49 ∷ 53 ∷ 111 ∷ 74 ∷ 84 ∷ 120 ∷ 49 ∷ 67 ∷ 88 ∷ 65 ∷ 104 ∷ 109 ∷ 69 ∷ 67 ∷ 97 ∷ 99
    ∷ 67 ∷ 81 ∷ 102 ∷ 52 ∷ 101 ∷ 101 ∷ 74 ∷ 57 ∷ 85 ∷ 116 ∷ 117 ∷ 115 ∷ 48 ∷ 78 ∷ 109 ∷ 75 ∷ 103
    ∷ 69 ∷ 70 ∷ 86 ∷ 56 ∷ 113 ∷ 89 ∷ 68 ∷ 115 ∷ 78 ∷ 116 ∷ 74 ∷ 50 ∷ 49 ∷ 84 ∷ 107 ∷ 106 ∷ 67 ∷ 121
    ∷ 67 ∷ 68 ∷ 104 ∷ 86 ∷ 73 ∷ 65 ∷ 84 ∷ 107 ∷ 69 ∷ 117 ∷ 103 ∷ 67 ∷ 119 ∷ 49 ∷ 66 ∷ 102 ∷ 78 ∷ 73
    ∷ 66 ∷ 57 ∷ 65 ∷ 90 ∷ 68 ∷ 71 ∷ 105 ∷ 113 ∷ 88 ∷ 99 ∷ 48 ∷ 108 ∷ 108 ∷ 112 ∷ 52 ∷ 114 ∷ 108 ∷ 74
    ∷ 80 ∷ 108 ∷ 52 ∷ 98 ∷ 73 ∷ 71 ∷ 50 ∷ 81 ∷ 67 ∷ 52 ∷ 76 ∷ 97 ∷ 51 ∷ 77 ∷ 49 ∷ 111 ∷ 104 ∷ 51
    ∷ 121 ∷ 73 ∷ 71 ∷ 107 ∷ 111 ∷ 108 ∷ 112 ∷ 100 ∷ 111 ∷ 89 ∷ 86 ∷ 101 ∷ 114 ∷ 49 ∷ 100 ∷ 99 ∷ 57
    ∷ 69 ∷ 102 ∷ 81 ∷ 122 ∷ 56 ∷ 56 ∷ 113 ∷ 53 ∷ 72 ∷ 118 ∷ 48 ∷ 48 ∷ 103 ∷ 53 ∷ 51 ∷ 81 ∷ 51 ∷ 72
    ∷ 54 ∷ 106 ∷ 99 ∷ 103 ∷ 105 ∷ 99 ∷ 111 ∷ 89 ∷ 56 ∷ 89 ∷ 87 ∷ 53 ∷ 75 ∷ 52 ∷ 106 ∷ 111 ∷ 115
    ∷ 100 ∷ 50 ∷ 101 ∷ 53 ∷ 51 ∷ 105 ∷ 107 ∷ 101 ∷ 115 ∷ 81 ∷ 105 ∷ 50 ∷ 107 ∷ 122 ∷ 113 ∷ 118 ∷ 84
    ∷ 73 ∷ 57 ∷ 120 ∷ 120 ∷ 77 ∷ 53 ∷ 119 ∷ 116 ∷ 70 ∷ 101 ∷ 120 ∷ 107 ∷ 70 ∷ 109 ∷ 56 ∷ 119 ∷ 70
    ∷ 100 ∷ 84 ∷ 102 ∷ 51 ∷ 55 ∷ 72 ∷ 122 ∷ 50 ∷ 48 ∷ 52 ∷ 119 ∷ 102 ∷ 81 ∷ 69 ∷ 114 ∷ 71 ∷ 90 ∷ 107
    ∷ 100 ∷ 77 ∷ 110 ∷ 82 ∷ 120 ∷ 88 ∷ 74 ∷ 53 ∷ 69 ∷ 74 ∷ 54 ∷ 50 ∷ 55 ∷ 101 ∷ 55 ∷ 122 ∷ 117 ∷ 70
    ∷ 117 ∷ 86 ∷ 116 ∷ 97 ∷ 122 ∷ 98 ∷ 48 ∷ 76 ∷ 54 ∷ 53 ∷ 66 ∷ 51 ∷ 110 ∷ 85 ∷ 53 ∷ 82 ∷ 57 ∷ 116
    ∷ 121 ∷ 85 ∷ 108 ∷ 50 ∷ 98 ∷ 84 ∷ 90 ∷ 105 ∷ 68 ∷ 99 ∷ 97 ∷ 107 ∷ 75 ∷ 57 ∷ 101 ∷ 118 ∷ 114 ∷ 84
    ∷ 88 ∷ 111 ∷ 84 ∷ 107 ∷ 98 ∷ 107 ∷ 71 ∷ 106 ∷ 107 ∷ 67 ∷ 79 ∷ 105 ∷ 77 ∷ 83 ∷ 84 ∷ 78 ∷ 67 ∷ 122
    ∷ 108 ∷ 85 ∷ 90 ∷ 67 ∷ 120 ∷ 111 ∷ 102 ∷ 106 ∷ 89 ∷ 81 ∷ 67 ∷ 76 ∷ 117 ∷ 115 ∷ 82 ∷ 107 ∷ 88
    ∷ 69 ∷ 109 ∷ 48 ∷ 67 ∷ 78 ∷ 86 ∷ 117 ∷ 105 ∷ 102 ∷ 84 ∷ 110 ∷ 121 ∷ 116 ∷ 99 ∷ 116 ∷ 119 ∷ 76
    ∷ 102 ∷ 75 ∷ 106 ∷ 119 ∷ 111 ∷ 98 ∷ 52 ∷ 104 ∷ 74 ∷ 48 ∷ 87 ∷ 120 ∷ 108 ∷ 81 ∷ 78 ∷ 57 ∷ 70 ∷ 86
    ∷ 57 ∷ 77 ∷ 109 ∷ 57 ∷ 122 ∷ 84 ∷ 54 ∷ 49 ∷ 69 ∷ 81 ∷ 56 ∷ 122 ∷ 69 ∷ 77 ∷ 114 ∷ 113 ∷ 114 ∷ 54
    ∷ 104 ∷ 102 ∷ 55 ∷ 88 ∷ 77 ∷ 113 ∷ 104 ∷ 99 ∷ 81 ∷ 82 ∷ 55 ∷ 68 ∷ 87 ∷ 65 ∷ 75 ∷ 97 ∷ 115 ∷ 112
    ∷ 85 ∷ 97 ∷ 85 ∷ 54 ∷ 104 ∷ 111 ∷ 80 ∷ 50 ∷ 119 ∷ 51 ∷ 116 ∷ 51 ∷ 77 ∷ 107 ∷ 116 ∷ 86 ∷ 97 ∷ 66
    ∷ 112 ∷ 54 ∷ 77 ∷ 103 ∷ 83 ∷ 54 ∷ 65 ∷ 112 ∷ 98 ∷ 107 ∷ 98 ∷ 55 ∷ 69 ∷ 115 ∷ 105 ∷ 104 ∷ 69 ∷ 84
    ∷ 72 ∷ 72 ∷ 113 ∷ 75 ∷ 70 ∷ 107 ∷ 75 ∷ 77 ∷ 67 ∷ 107 ∷ 89 ∷ 66 ∷ 98 ∷ 75 ∷ 102 ∷ 103 ∷ 115 ∷ 113
    ∷ 55 ∷ 74 ∷ 121 ∷ 52 ∷ 57 ∷ 84 ∷ 49 ∷ 87 ∷ 120 ∷ 50 ∷ 85 ∷ 74 ∷ 115 ∷ 68 ∷ 51 ∷ 88 ∷ 88 ∷ 48
    ∷ 51 ∷ 107 ∷ 86 ∷ 66 ∷ 98 ∷ 113 ∷ 82 ∷ 87 ∷ 109 ∷ 114 ∷ 106 ∷ 73 ∷ 75 ∷ 122 ∷ 113 ∷ 81 ∷ 69
    ∷ 110 ∷ 78 ∷ 115 ∷ 100 ∷ 48 ∷ 102 ∷ 45 ∷ 48 ∷ 100 ∷ 48 ∷ 57 ∷ 53 ∷ 52 ∷ 48 ∷ 57 ∷ 51 ∷ 54 ∷ 47
    ∷ 46 ∷ 102 ∷ 47 ∷ 100 ∷ 102 ∷ 112 ∷ 114 ∷ 106 ∷ 101 ∷ 116 ∷ 114 ∷ 111 ∷ 101 ∷ 105 ∷ 106 ∷ 116
    ∷ 116 ∷ 101 ∷ 48 ∷ 57 ∷ 56 ∷ 53 ∷ 52 ∷ 48 ∷ 57 ∷ 54 ∷ 48 ∷ 57 ∷ 50 ∷ 53 ∷ 52 ∷ 102 ∷ 106 ∷ 47
    ∷ 46 ∷ 115 ∷ 46 ∷ 49 ∷ 50 ∷ 57 ∷ 51 ∷ 64 ∷ 49 ∷ 33 ∷ 36 ∷ 52 ∷ 51 ∷ 53 ∷ 53 ∷ 54 ∷ 111 ∷ 105
    ∷ 53 ∷ 121 ∷ 54 ∷ 111 ∷ 53 ∷ 52 ∷ 121 ∷ 105 ∷ 54 ∷ 105 ∷ 107 ∷ 106 ∷ 115 ∷ 100 ∷ 98 ∷ 102 ∷ 115
    ∷ 100 ∷ 41 ∷ 40 ∷ 42 ∷ 55 ∷ 94 ∷ 104 ∷ 100 ∷ 106 ∷ 100 ∷ 121 ∷ 102 ∷ 52 ∷ 56 ∷ 52 ∷ 42 ∷ 94 ∷ 37
    ∷ 36 ∷ 36 ∷ 51 ∷ 123 ∷ 125 ∷ 125 ∷ 123 ∷ 125 ∷ 123 ∷ 80 ∷ 79 ∷ 73 ∷ 41 ∷ 95 ∷ 73 ∷ 85 ∷ 79 ∷ 72
    ∷ 72 ∷ 38 ∷ 42 ∷ 94 ∷ 94 ∷ 38 ∷ 36 ∷ 68 ∷ 121 ∷ 100 ∷ 121 ∷ 117 ∷ 116 ∷ 100 ∷ 54 ∷ 53 ∷ 52 ∷ 53
    ∷ 54 ∷ 100 ∷ 106 ∷ 117 ∷ 103 ∷ 40 ∷ 42 ∷ 95 ∷ 40 ∷ 42 ∷ 79 ∷ 73 ∷ 72 ∷ 74 ∷ 72 ∷ 75 ∷ 74 ∷ 66
    ∷ 75 ∷ 74 ∷ 66 ∷ 75 ∷ 74 ∷ 66 ∷ 64 ∷ 65 ∷ 64 ∷ 65 ∷ 36 ∷ 103 ∷ 103 ∷ 103 ∷ 103 ∷ 43 ∷ 95 ∷ 48
    ∷ 45 ∷ 56 ∷ 52 ∷ 51 ∷ 53 ∷ 57 ∷ 48 ∷ 54 ∷ 73 ∷ 89 ∷ 87 ∷ 86 ∷ 55 ∷ 57 ∷ 51 ∷ 54 ∷ 52 ∷ 110 ∷ 103
    ∷ 107 ∷ 98 ∷ 111 ∷ 53 ∷ 109 ∷ 55 ∷ 56 ∷ 56 ∷ 42 ∷ 40 ∷ 41 ∷ 77 ∷ 60 ∷ 58 ∷ 62 ∷ 62 ∷ 60 ∷ 58
    ∷ 76 ∷ 112 ∷ 107 ∷ 100 ∷ 102 ∷ 103 ∷ 109 ∷ 103 ∷ 114 ∷ 116 ∷ 106 ∷ 121 ∷ 111 ∷ 121 ∷ 105 ∷ 106
    ∷ 53 ∷ 121 ∷ 106 ∷ 54 ∷ 53 ∷ 55 ∷ 105 ∷ 54 ∷ 53 ∷ 48 ∷ 57 ∷ 106 ∷ 117 ∷ 53 ∷ 54 ∷ 48 ∷ 106 ∷ 117
    ∷ 53 ∷ 54 ∷ 48 ∷ 106 ∷ 117 ∷ 48 ∷ 117 ∷ 106 ∷ 48 ∷ 117 ∷ 106 ∷ 54 ∷ 78 ∷ 118 ∷ 104 ∷ 69 ∷ 56
    ∷ 78 ∷ 55 ∷ 121 ∷ 82 ∷ 50 ∷ 54 ∷ 102 ∷ 103 ∷ 72 ∷ 110 ∷ 99 ∷ 72 ∷ 54 ∷ 81 ∷ 98 ∷ 115 ∷ 73 ∷ 49
    ∷ 48 ∷ 72 ∷ 121 ∷ 120 ∷ 108 ∷ 118 ∷ 89 ∷ 72 ∷ 75 ∷ 70 ∷ 105 ∷ 77 ∷ 107 ∷ 53 ∷ 110 ∷ 80 ∷ 78 ∷ 68
    ∷ 98 ∷ 102 ∷ 102 ∷ 117 ∷ 101 ∷ 70 ∷ 50 ∷ 120 ∷ 75 ∷ 76 ∷ 122 ∷ 116 ∷ 101 ∷ 83 ∷ 100 ∷ 48 ∷ 78
    ∷ 97 ∷ 122 ∷ 85 ∷ 50 ∷ 65 ∷ 80 ∷ 107 ∷ 74 ∷ 87 ∷ 88 ∷ 118 ∷ 66 ∷ 87 ∷ 50 ∷ 111 ∷ 85 ∷ 117 ∷ 56
    ∷ 100 ∷ 107 ∷ 90 ∷ 110 ∷ 87 ∷ 77 ∷ 77 ∷ 56 ∷ 84 ∷ 72 ∷ 118 ∷ 114 ∷ 85 ∷ 111 ∷ 76 ∷ 68 ∷ 87 ∷ 119
    ∷ 77 ∷ 100 ∷ 104 ∷ 49 ∷ 52 ∷ 77 ∷ 102 ∷ 120 ∷ 119 ∷ 109 ∷ 69 ∷ 81 ∷ 98 ∷ 116 ∷ 71 ∷ 110 ∷ 85
    ∷ 72 ∷ 69 ∷ 112 ∷ 82 ∷ 107 ∷ 116 ∷ 85 ∷ 66 ∷ 54 ∷ 98 ∷ 55 ∷ 74 ∷ 84 ∷ 74 ∷ 78 ∷ 56 ∷ 73 ∷ 72
    ∷ 121 ∷ 120 ∷ 108 ∷ 118 ∷ 89 ∷ 72 ∷ 75 ∷ 70 ∷ 105 ∷ 77 ∷ 107 ∷ 53 ∷ 110 ∷ 80 ∷ 78 ∷ 68 ∷ 40 ∷ 41
    ∷ 98 ∷ 117 ∷ 101 ∷ 70 ∷ 50 ∷ 120 ∷ 75 ∷ 76 ∷ 122 ∷ 59 ∷ 124 ∷ 64 ∷ 102 ∷ 44 ∷ 116 ∷ []
