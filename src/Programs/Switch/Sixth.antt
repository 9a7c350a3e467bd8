-- ===== src/Programs/Switch/Sixth.antt =====
-- bench/shootout-src/switch.c, cases 3500 to 4095: the number that each case takes `^=` with.
use zwasm.Base.{ℕ, List, [], ◌∷◌}

abbrev pub cases_3500 : List ℕ
cases_3500 =
    2438 ∷ 1262 ∷ 3235 ∷ 2566 ∷ 1461 ∷ 636 ∷ 3336 ∷ 3978 ∷ 947 ∷ 2426 ∷ 2970 ∷ 3528 ∷ 893 ∷ 3237
    ∷ 3737 ∷ 691 ∷ 127 ∷ 1538 ∷ 3022 ∷ 498 ∷ 2546 ∷ 1836 ∷ 2330 ∷ 479 ∷ 2718 ∷ 1820 ∷ 987 ∷ 1838
    ∷ 897 ∷ 889 ∷ 1369 ∷ 776 ∷ 103 ∷ 2621 ∷ 1432 ∷ 1741 ∷ 3038 ∷ 881 ∷ 205 ∷ 3668 ∷ 2159 ∷ 945 ∷ 124
    ∷ 903 ∷ 59 ∷ 603 ∷ 609 ∷ 2144 ∷ 4093 ∷ 2575 ∷ []

abbrev pub cases_3550 : List ℕ
cases_3550 =
    2436 ∷ 1915 ∷ 4057 ∷ 3758 ∷ 1069 ∷ 305 ∷ 1842 ∷ 2958 ∷ 3249 ∷ 2024 ∷ 106 ∷ 3469 ∷ 1174 ∷ 2853
    ∷ 1140 ∷ 496 ∷ 3515 ∷ 364 ∷ 3641 ∷ 2601 ∷ 3973 ∷ 3047 ∷ 1177 ∷ 1598 ∷ 1621 ∷ 3972 ∷ 563 ∷ 2137
    ∷ 1409 ∷ 1802 ∷ 210 ∷ 497 ∷ 3694 ∷ 4059 ∷ 3761 ∷ 938 ∷ 3270 ∷ 633 ∷ 2598 ∷ 3051 ∷ 933 ∷ 607
    ∷ 2044 ∷ 824 ∷ 651 ∷ 612 ∷ 1637 ∷ 1190 ∷ 1065 ∷ 509 ∷ []

abbrev pub cases_3600 : List ℕ
cases_3600 =
    2329 ∷ 899 ∷ 3341 ∷ 3539 ∷ 705 ∷ 234 ∷ 1732 ∷ 1901 ∷ 2305 ∷ 1119 ∷ 907 ∷ 2264 ∷ 3421 ∷ 1443
    ∷ 3048 ∷ 2994 ∷ 2914 ∷ 3865 ∷ 951 ∷ 1692 ∷ 451 ∷ 3325 ∷ 1843 ∷ 3564 ∷ 1618 ∷ 2695 ∷ 2548 ∷ 1823
    ∷ 2185 ∷ 2858 ∷ 3654 ∷ 1969 ∷ 2682 ∷ 1798 ∷ 1931 ∷ 3416 ∷ 928 ∷ 964 ∷ 90 ∷ 2497 ∷ 1124 ∷ 2496
    ∷ 1808 ∷ 2709 ∷ 2965 ∷ 3127 ∷ 1807 ∷ 3096 ∷ 3303 ∷ 3406 ∷ []

abbrev pub cases_3650 : List ℕ
cases_3650 =
    3244 ∷ 3541 ∷ 3083 ∷ 2131 ∷ 3098 ∷ 1132 ∷ 2191 ∷ 3875 ∷ 3318 ∷ 729 ∷ 1345 ∷ 670 ∷ 1131 ∷ 1723
    ∷ 3882 ∷ 2517 ∷ 70 ∷ 1455 ∷ 3797 ∷ 605 ∷ 201 ∷ 1342 ∷ 2479 ∷ 2646 ∷ 582 ∷ 3901 ∷ 1261 ∷ 3535
    ∷ 3828 ∷ 3260 ∷ 2806 ∷ 3832 ∷ 3158 ∷ 1298 ∷ 2274 ∷ 1066 ∷ 743 ∷ 2099 ∷ 3946 ∷ 2675 ∷ 3659 ∷ 299
    ∷ 2170 ∷ 2201 ∷ 2069 ∷ 1505 ∷ 1476 ∷ 3650 ∷ 1141 ∷ 408 ∷ []

abbrev pub cases_3700 : List ℕ
cases_3700 =
    940 ∷ 1895 ∷ 3705 ∷ 48 ∷ 4031 ∷ 3561 ∷ 257 ∷ 3194 ∷ 1431 ∷ 335 ∷ 803 ∷ 3590 ∷ 2043 ∷ 1716 ∷ 4054
    ∷ 1967 ∷ 3648 ∷ 2277 ∷ 121 ∷ 2086 ∷ 2092 ∷ 2026 ∷ 3793 ∷ 788 ∷ 1162 ∷ 3299 ∷ 2852 ∷ 1508 ∷ 1860
    ∷ 1717 ∷ 3642 ∷ 3267 ∷ 3776 ∷ 1271 ∷ 2824 ∷ 1163 ∷ 2454 ∷ 1392 ∷ 1744 ∷ 3819 ∷ 3938 ∷ 244 ∷ 2476
    ∷ 819 ∷ 538 ∷ 2483 ∷ 1265 ∷ 869 ∷ 1090 ∷ 1659 ∷ []

abbrev pub cases_3750 : List ℕ
cases_3750 =
    647 ∷ 3496 ∷ 2268 ∷ 2021 ∷ 173 ∷ 3609 ∷ 138 ∷ 768 ∷ 2631 ∷ 2312 ∷ 2645 ∷ 1086 ∷ 1252 ∷ 1558
    ∷ 2884 ∷ 916 ∷ 300 ∷ 2596 ∷ 2912 ∷ 3800 ∷ 1404 ∷ 4081 ∷ 159 ∷ 3205 ∷ 2001 ∷ 1526 ∷ 2343 ∷ 3977
    ∷ 1821 ∷ 2939 ∷ 1348 ∷ 1257 ∷ 2847 ∷ 1985 ∷ 1110 ∷ 2052 ∷ 3617 ∷ 532 ∷ 540 ∷ 2461 ∷ 2323 ∷ 3579
    ∷ 3373 ∷ 2862 ∷ 101 ∷ 1884 ∷ 4013 ∷ 1867 ∷ 1206 ∷ 3283 ∷ []

abbrev pub cases_3800 : List ℕ
cases_3800 =
    3349 ∷ 3965 ∷ 1103 ∷ 2747 ∷ 822 ∷ 1818 ∷ 1926 ∷ 2935 ∷ 1812 ∷ 1548 ∷ 2034 ∷ 2703 ∷ 1175 ∷ 113
    ∷ 1912 ∷ 3159 ∷ 2121 ∷ 1428 ∷ 4002 ∷ 1662 ∷ 1407 ∷ 1219 ∷ 3273 ∷ 2218 ∷ 373 ∷ 2284 ∷ 3371 ∷ 3133
    ∷ 82 ∷ 2280 ∷ 2160 ∷ 3215 ∷ 2093 ∷ 3383 ∷ 104 ∷ 235 ∷ 2442 ∷ 4039 ∷ 2800 ∷ 3338 ∷ 1023 ∷ 2665
    ∷ 2163 ∷ 282 ∷ 1312 ∷ 112 ∷ 804 ∷ 3669 ∷ 854 ∷ 3295 ∷ []

abbrev pub cases_3850 : List ℕ
cases_3850 =
    92 ∷ 518 ∷ 456 ∷ 3880 ∷ 858 ∷ 613 ∷ 429 ∷ 3034 ∷ 3455 ∷ 3367 ∷ 1082 ∷ 3684 ∷ 3151 ∷ 2805 ∷ 1270
    ∷ 3957 ∷ 976 ∷ 3144 ∷ 4094 ∷ 170 ∷ 81 ∷ 2830 ∷ 3285 ∷ 4014 ∷ 228 ∷ 2054 ∷ 3123 ∷ 2930 ∷ 671
    ∷ 426 ∷ 1349 ∷ 2811 ∷ 1164 ∷ 2214 ∷ 3726 ∷ 2590 ∷ 1077 ∷ 2377 ∷ 3843 ∷ 2967 ∷ 334 ∷ 1422 ∷ 2716
    ∷ 695 ∷ 1375 ∷ 1899 ∷ 3574 ∷ 1751 ∷ 1943 ∷ 1359 ∷ []

abbrev pub cases_3900 : List ℕ
cases_3900 =
    2389 ∷ 790 ∷ 3459 ∷ 1844 ∷ 1117 ∷ 3236 ∷ 2910 ∷ 2542 ∷ 1158 ∷ 2296 ∷ 455 ∷ 199 ∷ 3405 ∷ 1058
    ∷ 3925 ∷ 1665 ∷ 3185 ∷ 35 ∷ 1391 ∷ 811 ∷ 847 ∷ 182 ∷ 2108 ∷ 1185 ∷ 3837 ∷ 356 ∷ 3833 ∷ 2297
    ∷ 2155 ∷ 1852 ∷ 2647 ∷ 860 ∷ 466 ∷ 120 ∷ 4007 ∷ 3294 ∷ 1237 ∷ 274 ∷ 2961 ∷ 3552 ∷ 3271 ∷ 1399
    ∷ 813 ∷ 4071 ∷ 1361 ∷ 884 ∷ 494 ∷ 1875 ∷ 714 ∷ 3808 ∷ []

abbrev pub cases_3950 : List ℕ
cases_3950 =
    117 ∷ 3093 ∷ 447 ∷ 2457 ∷ 2161 ∷ 3985 ∷ 3612 ∷ 2842 ∷ 2562 ∷ 580 ∷ 3893 ∷ 9 ∷ 2315 ∷ 646 ∷ 402
    ∷ 2608 ∷ 3959 ∷ 3187 ∷ 2335 ∷ 2419 ∷ 1780 ∷ 2881 ∷ 3942 ∷ 2809 ∷ 733 ∷ 233 ∷ 3679 ∷ 2742 ∷ 3956
    ∷ 755 ∷ 513 ∷ 1123 ∷ 1235 ∷ 2680 ∷ 1790 ∷ 75 ∷ 3226 ∷ 2626 ∷ 2632 ∷ 1680 ∷ 1354 ∷ 3581 ∷ 2276
    ∷ 3907 ∷ 1370 ∷ 2042 ∷ 2322 ∷ 1664 ∷ 2174 ∷ 2843 ∷ []

abbrev pub cases_4000 : List ℕ
cases_4000 =
    1136 ∷ 1161 ∷ 1862 ∷ 1372 ∷ 3731 ∷ 1745 ∷ 2157 ∷ 535 ∷ 3961 ∷ 2056 ∷ 6 ∷ 1465 ∷ 2334 ∷ 2987
    ∷ 1933 ∷ 443 ∷ 547 ∷ 1648 ∷ 3452 ∷ 1080 ∷ 2422 ∷ 2988 ∷ 851 ∷ 54 ∷ 873 ∷ 3933 ∷ 3864 ∷ 659
    ∷ 2306 ∷ 1495 ∷ 3755 ∷ 1376 ∷ 2952 ∷ 846 ∷ 2385 ∷ 68 ∷ 2067 ∷ 2376 ∷ 1344 ∷ 196 ∷ 3643 ∷ 2412
    ∷ 2117 ∷ 954 ∷ 762 ∷ 176 ∷ 977 ∷ 1514 ∷ 1582 ∷ 2009 ∷ []

abbrev pub cases_4050 : List ℕ
cases_4050 =
    4046 ∷ 3376 ∷ 2002 ∷ 3952 ∷ 3209 ∷ 1828 ∷ 3071 ∷ 3676 ∷ 1479 ∷ 3739 ∷ 3626 ∷ 3012 ∷ 2690 ∷ 3786
    ∷ 1561 ∷ 3288 ∷ 457 ∷ 163 ∷ 3888 ∷ 2932 ∷ 1628 ∷ 470 ∷ 2568 ∷ 791 ∷ 415 ∷ 825 ∷ 502 ∷ 3319
    ∷ 2796 ∷ 910 ∷ 983 ∷ 3753 ∷ 1330 ∷ 3652 ∷ 2267 ∷ 4010 ∷ 2555 ∷ 3689 ∷ 3382 ∷ 3919 ∷ 2205 ∷ 635
    ∷ 3663 ∷ 444 ∷ 2246 ∷ 3392 ∷ []
